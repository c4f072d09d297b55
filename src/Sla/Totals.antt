-- ===== src/Sla/Totals.antt =====
-- The figures of an uptime report add up (backend/app/api/routes/sla.py).
use network_monitoring.Prelude.{
  ℕ, String, refl, sym, ap, inl, inr, Bool, List, [], map, arith, Bool-cases, length, ◌+◌, ◌≡◌, ◌∙◌,
  ◌∷◌, ◌==◌, nat_eq, string_eq,
}
use network_monitoring.Device.{Device}
use network_monitoring.World.{World, PingHistory}
use network_monitoring.Sla.{
  Acc, DeviceSla, RegionSla, total_of, up_of, insert_vendor, by_vendor, device_row, add_region,
  regions_of, insert_acc, by_region, region_row, region_name, compute,
}

abbrev pub sum_of : {A : Type 0} → (A → ℕ) → List A → ℕ
sum_of f [] = 0
sum_of f (x ∷ xs) = f x + sum_of f xs

sum_of-map :
    {A B : Type 0} (g : A → B) (f : B → ℕ) (xs : List A)
    → sum_of f (map g xs) ≡ sum_of (λ x. f (g x)) xs
sum_of-map g f [] = refl
sum_of-map g f (x ∷ xs) = ap (λ n. f (g x) + n) (sum_of-map g f xs)

sum-insert_acc :
    (f : Acc → ℕ) (a : Acc) (accs : List Acc) → sum_of f (insert_acc a accs) ≡ f a + sum_of f accs
unfolding insert_acc
sum-insert_acc f a [] = refl
sum-insert_acc f a (x ∷ xs) = ground (arith, sum-insert_acc f a xs)

sum-by_region : (f : Acc → ℕ) (accs : List Acc) → sum_of f (by_region accs) ≡ sum_of f accs
sum-by_region f [] = refl
sum-by_region f (a ∷ accs) =
    omega (arith, sum-insert_acc f a (by_region accs), sum-by_region f accs)

sum-insert_vendor :
    (before : String → String → Bool) (f : Device → ℕ) (d : Device) (ds : List Device)
    → sum_of f (insert_vendor before d ds) ≡ f d + sum_of f ds
sum-insert_vendor before f d [] = refl
sum-insert_vendor before f d (x ∷ xs) = ground (arith, sum-insert_vendor before f d xs)

sum-by_vendor :
    (before : String → String → Bool) (f : Device → ℕ) (ds : List Device)
    → sum_of f (by_vendor before ds) ≡ sum_of f ds
sum-by_vendor before f [] = refl
sum-by_vendor before f (d ∷ ds) =
    omega (arith, sum-insert_vendor before f d (by_vendor before ds), sum-by_vendor before f ds)

-- the three figures of a region
abbrev acc_up : Acc → ℕ
acc_up a = a.1

abbrev acc_total : Acc → ℕ
acc_total a = a.2

abbrev acc_count : Acc → ℕ
acc_count a = a.3

sums-add_region :
    (region : String) (up total : ℕ) (accs : List Acc)
    → (sum_of acc_total (add_region region up total accs) ≡ sum_of acc_total accs + total)
      × (sum_of acc_count (add_region region up total accs) ≡ sum_of acc_count accs + 1)
unfolding add_region
sums-add_region region up total [] = (omega arith, omega arith)
sums-add_region region up total ((r, u, t, n) ∷ accs) = elim (Bool-cases (r == region)) [
  | inl e ↦ rw (e, add_region) (omega arith, omega arith)
  | inr e ↦
      rw (e, add_region)
        (
          omega (arith, (sums-add_region region up total accs).0),
          omega (arith, (sums-add_region region up total accs).1),
        )
]

sums-regions_of :
    (since : ℕ) (rows : List PingHistory) (ds : List Device) (accs : List Acc)
    → (sum_of acc_total (regions_of since rows ds accs)
        ≡ sum_of acc_total accs + sum_of (λ (d : Device). total_of since d.id rows) ds)
      × (sum_of acc_count (regions_of since rows ds accs) ≡ sum_of acc_count accs + length ds)
unfolding regions_of
sums-regions_of since rows [] accs = (omega arith, omega arith)
sums-regions_of since rows (d ∷ ds) accs =
    let total = total_of since d.id rows in
    let more = add_region (region_name d.location_text) (up_of since d.id rows) total accs in
    let added = sums-add_region (region_name d.location_text) (up_of since d.id rows) total accs in
    (
      omega (arith, (sums-regions_of since rows ds more).0, added.0),
      omega (arith, (sums-regions_of since rows ds more).1, added.1),
    )

length-as_sum : (ds : List Device) → sum_of (λ (d : Device). 1) ds ≡ length ds
length-as_sum [] = refl
length-as_sum (d ∷ ds) = omega (arith, length-as_sum ds)

from_zero : (n : ℕ) → 0 + n ≡ n
from_zero n = omega arith

-- In a report the samples of the regions add up to the samples of the devices, and their devices to
-- the devices of the table.
pub compute-sums :
    (before : String → String → Bool) (since : ℕ) (range : String) (w : World)
    → (sum_of (λ (r : RegionSla). r.samples) (compute before since range w).regions
        ≡ sum_of (λ (d : DeviceSla). d.samples) (compute before since range w).devices)
      × (sum_of (λ (r : RegionSla). r.devices) (compute before since range w).regions
          ≡ length w.devices)
unfolding compute device_row
compute-sums before since range w =
    let ds = by_vendor before w.devices in
    let accs = regions_of since w.ping_history ds [] in
    let counted = sums-regions_of since w.ping_history ds [] in
    (
      sum_of-map region_row (λ (r : RegionSla). r.samples) (by_region accs)
          ∙ sum-by_region acc_total accs
          ∙ counted.0
          ∙ from_zero (sum_of (λ (d : Device). total_of since d.id w.ping_history) ds)
          ∙ sym (sum_of-map (device_row since w.ping_history) (λ (d : DeviceSla). d.samples) ds),
      sum_of-map region_row (λ (r : RegionSla). r.devices) (by_region accs)
          ∙ sum-by_region acc_count accs
          ∙ counted.1
          ∙ from_zero (length ds)
          ∙ sym (length-as_sum ds)
          ∙ sum-by_vendor before (λ (d : Device). 1) w.devices
          ∙ length-as_sum w.devices,
    )
