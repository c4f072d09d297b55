-- ===== src/Sla/Bounds.antt =====
-- The percentages of an uptime report (backend/app/api/routes/sla.py).
use network_monitoring.Prelude.{
  ℕ, String, inl, inr, Bool, List, [], map, arith, nat_beq, Bool-cases, keep, length-keep-le, All,
  ◌*◌, ◌≤◌, ◌∷◌, ◌==◌, nat_eq, string_eq,
}
use network_monitoring.Rounding.{round_div-le}
use network_monitoring.Device.{Device}
use network_monitoring.World.{World, PingHistory}
use network_monitoring.Sla.{
  Acc, DeviceSla, RegionSla, total_of, up_of, uptime_pct, in_range, by_vendor, device_row,
  add_region, regions_of, insert_acc, by_region, region_row, region_name, compute,
}

up-le-total :
    (since id : ℕ) (rows : List PingHistory) → up_of since id rows ≤ total_of since id rows
unfolding up_of total_of
up-le-total since id rows =
    length-keep-le (λ (p : PingHistory). p.success) (keep (in_range since id) rows)

uptime_pct-le : (up total : ℕ) → up ≤ total → uptime_pct up total ≤ 10000
unfolding uptime_pct
uptime_pct-le up total h = elim (Bool-cases (nat_beq total 0)) [
  | inl e ↦ rw (e, uptime_pct) (omega arith)
  | inr e ↦
      rw (e, uptime_pct) (round_div-le (10000 * up) total 10000 (ground (arith, e)) (omega arith))
]

-- what a region has counted
abbrev IsCounted : Acc → Type 0
IsCounted a = a.1 ≤ a.2

IsCounted-add_region :
    (region : String) (up total : ℕ) (accs : List Acc)
    → up ≤ total
    → All IsCounted accs
    → All IsCounted (add_region region up total accs)
unfolding add_region
IsCounted-add_region region up total [] le h = (le, tt)
IsCounted-add_region region up total ((r, u, t, n) ∷ accs) le h = elim (Bool-cases (r == region)) [
  | inl e ↦ rw (e, add_region) (omega (arith, h.0, le), h.1)
  | inr e ↦ rw (e, add_region) (h.0, IsCounted-add_region region up total accs le h.1)
]

IsCounted-regions_of :
    (since : ℕ) (rows : List PingHistory) (ds : List Device) (accs : List Acc)
    → All IsCounted accs
    → All IsCounted (regions_of since rows ds accs)
unfolding regions_of
IsCounted-regions_of since rows [] accs h = h
IsCounted-regions_of since rows (d ∷ ds) accs h =
    IsCounted-regions_of since rows ds
      (add_region (region_name d.location_text) (up_of since d.id rows) (total_of since d.id rows)
        accs)
      (IsCounted-add_region (region_name d.location_text) (up_of since d.id rows)
        (total_of since d.id rows) accs (up-le-total since d.id rows) h)

IsCounted-insert_acc :
    (a : Acc) (accs : List Acc)
    → IsCounted a
    → All IsCounted accs
    → All IsCounted (insert_acc a accs)
unfolding insert_acc
IsCounted-insert_acc a [] le h = (le, tt)
IsCounted-insert_acc a (x ∷ xs) le h = ground (arith, IsCounted-insert_acc a xs le)

IsCounted-by_region : (accs : List Acc) → All IsCounted accs → All IsCounted (by_region accs)
IsCounted-by_region [] h = tt
IsCounted-by_region (a ∷ accs) h =
    IsCounted-insert_acc a (by_region accs) h.0 (IsCounted-by_region accs h.1)

regions-le :
    (accs : List Acc)
    → All IsCounted accs
    → All (λ (r : RegionSla). r.uptime_pct ≤ 10000) (map region_row accs)
regions-le [] h = tt
regions-le (a ∷ accs) h = (uptime_pct-le a.1 a.2 h.0, regions-le accs h.1)

devices-le :
    (since : ℕ) (rows : List PingHistory) (ds : List Device)
    → All (λ (d : DeviceSla). d.uptime_pct ≤ 10000) (map (device_row since rows) ds)
unfolding device_row
devices-le since rows [] = tt
devices-le since rows (d ∷ ds) = (
  uptime_pct-le (up_of since d.id rows) (total_of since d.id rows) (up-le-total since d.id rows),
  devices-le since rows ds,
)

-- No device and no region of a report is up for more than 100.00 percent.
pub compute-bounds :
    (before : String → String → Bool) (since : ℕ) (range : String) (w : World)
    → All (λ (d : DeviceSla). d.uptime_pct ≤ 10000) (compute before since range w).devices
      × All (λ (r : RegionSla). r.uptime_pct ≤ 10000) (compute before since range w).regions
unfolding compute
compute-bounds before since range w =
    let ds = by_vendor before w.devices in
    let accs = regions_of since w.ping_history ds [] in
    (
      devices-le since w.ping_history ds,
      regions-le (by_region accs)
          (IsCounted-by_region accs (IsCounted-regions_of since w.ping_history ds [] tt)),
    )
