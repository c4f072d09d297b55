-- ===== src/Sla/Export.antt =====
-- The CSV of the uptime report (backend/app/api/routes/sla.py), and device_snmp_history of
-- backend/app/api/routes/devices.py. `writer` is csv.writer on a row of cells, `shown` prints a number
-- and `shown_pct` a percentage; the headers of the response are left out.
use network_monitoring.Text.{concat, text_or}
use network_monitoring.Rounding.{round_div, round_div-le}
use network_monitoring.World.{World}
use network_monitoring.Sla.{DeviceSla, compute}
use network_monitoring.Prelude.{
  ℕ, String, Bool, true, false, Option, none, some, List, [], map, All, ◌*◌, ◌≤◌, ◌<◌, ◌∷◌, nat_eq,
  string_eq,
}

abbrev shown_bool : Bool → String
shown_bool true = "True"
shown_bool false = "False"

abbrev heading : List String
heading = "device" ∷ "ip" ∷ "region" ∷ "critical" ∷ "uptime_pct" ∷ "samples" ∷ "range" ∷ []

module _ (writer : List String → String) (shown shown_pct : ℕ → String) where
  abbrev row_cells : String → DeviceSla → List String
  row_cells range d =
      d.vendor_name
      ∷ d.ip_address
      ∷ text_or d.region ""
      ∷ shown_bool d.is_critical
      ∷ shown_pct d.uptime_pct
      ∷ shown d.samples
      ∷ range
      ∷ []

  -- the body of the response
  unfoldable pub sla_export : (String → String → Bool) → ℕ → String → World → String
  unfolding compute
  sla_export before since range w =
      let report = compute before since range w in
      concat (writer heading ∷ map (λ (d : DeviceSla). writer (row_cells range d)) report.devices)

-- a bucket that SQL answers: an average is a sum and a positive count, or null; percentages in tenths
pub record SnmpBucket : Type 0 where
  pub ts : ℕ
  pub cpu : Option (ℕ × ℕ)
  pub mem : Option (ℕ × ℕ)
  pub in_bps : Option (ℕ × ℕ)
  pub out_bps : Option (ℕ × ℕ)

pub record SnmpHistoryPoint : Type 0 where
  pub ts : ℕ
  pub cpu_percent : Option ℕ
  pub mem_percent : Option ℕ
  pub in_bps : Option ℕ
  pub out_bps : Option ℕ

-- round(float(avg)) if avg is not None else None
unfoldable pub rounded : Option (ℕ × ℕ) → Option ℕ
unfolding round_div
rounded none = none
rounded (some (sum, count)) = some (round_div sum count)

abbrev pub snmp_point : SnmpBucket → SnmpHistoryPoint
snmp_point b = record {
  ts = b.ts;
  cpu_percent = rounded b.cpu;
  mem_percent = rounded b.mem;
  in_bps = rounded b.in_bps;
  out_bps = rounded b.out_bps;
}

-- A failed query shows no points.
unfoldable pub device_snmp_history : Option (List SnmpBucket) → List SnmpHistoryPoint
unfolding rounded
device_snmp_history none = []
device_snmp_history (some rows) = map snmp_point rows

abbrev AtMost : ℕ → Option ℕ → Type 0
AtMost bound none = Unit
AtMost bound (some n) = n ≤ bound

-- an average of samples that are at most `bound`
abbrev Averages : ℕ → Option (ℕ × ℕ) → Type 0
Averages bound none = Unit
Averages bound (some (sum, count)) = (0 < count) × (sum ≤ count * bound)

rounded-le : (bound : ℕ) (a : Option (ℕ × ℕ)) → Averages bound a → AtMost bound (rounded a)
unfolding rounded
rounded-le bound none h = tt
rounded-le bound (some (sum, count)) h = round_div-le sum count bound h.0 h.1

-- The points of the charts of CPU and memory stay within any bound that all samples meet.
pub device_snmp_history-le :
    (bound : ℕ) (rows : List SnmpBucket)
    → All (λ (b : SnmpBucket). Averages bound b.cpu × Averages bound b.mem) rows
    → All
        (λ (p : SnmpHistoryPoint). AtMost bound p.cpu_percent × AtMost bound p.mem_percent)
        (device_snmp_history (some rows))
unfolding device_snmp_history
device_snmp_history-le bound [] h = tt
device_snmp_history-le bound (b ∷ rows) h = (
  (rounded-le bound b.cpu h.0.0, rounded-le bound b.mem h.0.1),
  device_snmp_history-le bound rows h.1,
)
