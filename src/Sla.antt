-- ===== src/Sla.antt =====
-- backend/app/api/routes/sla.py and the histories of backend/app/api/routes/devices.py. The uptime
-- report reads ping_history; `since` is the start of its range. Percentages of the report are in
-- hundredths, those of a history in tenths; the buckets of a history are what the database answers.
pub mod Totals
pub mod Bounds
pub mod Export
use network_monitoring.Prelude.{
  ℕ, zero, suc, String, Bool, Option, none, some, List, [], map, leb, nat_beq, length, keep, ◌+◌,
  ◌-◌, ◌*◌, ◌&&◌, ◌∷◌, ◌==◌, if◌then◌else◌, nat_eq, string_eq,
}
use network_monitoring.Rounding.{round_div, round_div-le}
use network_monitoring.Device.{Device}
use network_monitoring.World.{World, PingHistory}
use network_monitoring.Admin.{text_less}

pub record DeviceSla : Type 0 where
  pub device_id : ℕ
  pub vendor_name : String
  pub ip_address : String
  pub region : Option String
  pub is_critical : Bool
  pub uptime_pct : ℕ
  pub samples : ℕ

pub record RegionSla : Type 0 where
  pub region : String
  pub uptime_pct : ℕ
  pub devices : ℕ
  pub samples : ℕ

pub record SlaReport : Type 0 where
  pub range : String
  pub devices : List DeviceSla
  pub regions : List RegionSla

-- the number of days of a range
unfoldable pub range_days : String → ℕ
range_days key = if key == "day" then 1 else if key == "month" then 30 else 7

abbrev pub in_range : ℕ → ℕ → PingHistory → Bool
in_range since id p = nat_beq p.device_id id && leb since p.ts

-- count(*) and count(*) FILTER (WHERE success) of one device
unfoldable pub total_of : ℕ → ℕ → List PingHistory → ℕ
total_of since id rows = length (keep (in_range since id) rows)

unfoldable pub up_of : ℕ → ℕ → List PingHistory → ℕ
up_of since id rows = length (keep (λ (p : PingHistory). p.success) (keep (in_range since id) rows))

-- round(up / total * 100, 2) if total else 0.0
unfoldable pub uptime_pct : ℕ → ℕ → ℕ
unfolding round_div
uptime_pct up total = if nat_beq total 0 then 0 else round_div (10000 * up) total

abbrev region_name : Option String → String
region_name none = "—"
region_name (some s) = if s == "" then "—" else s

abbrev pub insert_vendor : (String → String → Bool) → Device → List Device → List Device
insert_vendor before d [] = d ∷ []
insert_vendor before d (x ∷ xs) =
    let rest = insert_vendor before d xs in
    if before x.vendor_name d.vendor_name then x ∷ rest else d ∷ x ∷ xs

-- order_by(Device.vendor_name), where `before` is the order of the database's collation
abbrev pub by_vendor : (String → String → Bool) → List Device → List Device
by_vendor before [] = []
by_vendor before (d ∷ ds) = insert_vendor before d (by_vendor before ds)

unfoldable pub device_row : ℕ → List PingHistory → Device → DeviceSla
unfolding total_of up_of uptime_pct
device_row since rows d = record {
  device_id = d.id;
  vendor_name = d.vendor_name;
  ip_address = d.ip_address;
  region = d.location_text;
  is_critical = d.is_critical;
  uptime_pct = uptime_pct (up_of since d.id rows) (total_of since d.id rows);
  samples = total_of since d.id rows;
}

-- up, total and device count of a region
abbrev pub Acc : Type 0
Acc = String × ℕ × ℕ × ℕ

-- `region_acc.setdefault(region, [0, 0, 0])` and what is added to it
unfoldable pub add_region : String → ℕ → ℕ → List Acc → List Acc
add_region region up total [] = (region, up, total, 1) ∷ []
add_region region up total ((r, u, t, n) ∷ accs) =
    let rest = add_region region up total accs in
    if r == region then (r, u + up, t + total, n + 1) ∷ accs else (r, u, t, n) ∷ rest

unfoldable pub regions_of : ℕ → List PingHistory → List Device → List Acc → List Acc
unfolding total_of up_of add_region
regions_of since rows [] accs = accs
regions_of since rows (d ∷ ds) accs = regions_of since rows ds (
    add_region (region_name d.location_text) (up_of since d.id rows) (total_of since d.id rows)
      accs)

unfoldable pub insert_acc : Acc → List Acc → List Acc
unfolding text_less
insert_acc a [] = a ∷ []
insert_acc a (x ∷ xs) =
    let rest = insert_acc a xs in if text_less x.0 a.0 then x ∷ rest else a ∷ x ∷ xs

-- sorted(region_acc.items())
abbrev pub by_region : List Acc → List Acc
by_region [] = []
by_region (a ∷ accs) = insert_acc a (by_region accs)

abbrev pub region_row : Acc → RegionSla
region_row (region, up, total, count) = record {
  region = region;
  uptime_pct = uptime_pct up total;
  devices = count;
  samples = total;
}

unfoldable pub compute : (String → String → Bool) → ℕ → String → World → SlaReport
unfolding device_row regions_of insert_acc
compute before since range w =
    let devices = by_vendor before w.devices in
    record {
      range = range;
      devices = map (device_row since w.ping_history) devices;
      regions = map region_row (by_region (regions_of since w.ping_history devices []));
    }

-- a bucket of device_history: the sums that SQL answers, none for null
pub record Bucket : Type 0 where
  pub ts : ℕ
  pub avg_rtt : Option ℕ
  pub total : ℕ
  pub up : ℕ
  pub sent : Option ℕ
  pub received : Option ℕ

pub record HistoryPoint : Type 0 where
  pub ts : ℕ
  pub avg_rtt_ms : Option ℕ
  pub uptime_pct : ℕ
  pub samples : ℕ
  pub loss_pct : Option ℕ

abbrev or_zero : Option ℕ → ℕ
or_zero none = 0
or_zero (some n) = n

-- round((1 - received / sent) * 100, 1), where no more was received than was sent
unfoldable pub loss_pct : Option ℕ → Option ℕ → Option ℕ
unfolding round_div
loss_pct none received = none
loss_pct (some zero) received = none
loss_pct (some (suc n)) received = some (round_div (1000 * (suc n - or_zero received)) (suc n))

unfoldable pub history_point : Bucket → HistoryPoint
unfolding loss_pct round_div
history_point b = record {
  ts = b.ts;
  avg_rtt_ms = elim b.avg_rtt [ none ↦ none | some r ↦ some (round_div r 10) ];
  uptime_pct = if nat_beq b.total 0 then 0 else round_div (1000 * b.up) b.total;
  samples = b.total;
  loss_pct = loss_pct b.sent b.received;
}

unfoldable pub device_history : Option (List Bucket) → List HistoryPoint
unfolding history_point
device_history none = []
device_history (some rows) = map history_point rows
