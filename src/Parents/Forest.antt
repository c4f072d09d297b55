-- ===== src/Parents/Forest.antt =====
-- The stored parents form a forest (backend/app/api/routes/devices.py, `_validate_parent`).
use network_monitoring.Table
use network_monitoring.Device.{Device}
use network_monitoring.StateCache.Coherence.{device_id}
use network_monitoring.Parents.{walk, validate_parent}
use network_monitoring.Prelude.{
  ℕ, zero, suc, refl, ap, inl, inr, false, Option, none, some, List, [], arith, nat_beq,
  nat_beq_iff, Bool-cases, Option-cases, length, All, contains, ◌<◌, ◌≡◌, ◌∙◌, ◌≢◌, ◌∷◌, nat_eq,
  string_eq,
}

abbrev pub parent_of : Option Device → Option ℕ
parent_of none = none
parent_of (some d) = d.parent_id

-- the parent of the device k; none for a root, and for an id that is not in the table
abbrev pub up : List Device → ℕ → Option ℕ
up rows k = parent_of (Table.find device_id k rows)

-- The chain of parents of k ends after n steps.
abbrev pub EndsIn : List Device → ℕ → ℕ → Type 0
EndsIn rows zero k = up rows k ≡ none
EndsIn rows (suc n) k = (p : ℕ) × (up rows k ≡ some p) × EndsIn rows n p

-- No chain of parents runs in a cycle.
abbrev pub IsForest : List Device → Type 0
IsForest rows = (k : ℕ) → (n : ℕ) × EndsIn rows n k

same_parent :
    (rows : List Device) (k j p q : ℕ) → k ≡ j → up rows k ≡ some p → up rows j ≡ some q → p ≡ q
same_parent rows k j p q same e e' = cc

EndsIn-unique :
    (rows : List Device) (n m k j : ℕ) → k ≡ j → EndsIn rows n k → EndsIn rows m j → n ≡ m
EndsIn-unique rows zero zero k j same h g = refl
EndsIn-unique rows zero (suc m) k j same h (q, e, g) = cc
EndsIn-unique rows (suc n) zero k j same (p, e, h) g = cc
EndsIn-unique rows (suc n) (suc m) k j same (p, e, h) (q, e', g) =
    ap suc (EndsIn-unique rows n m p q (same_parent rows k j p q same e e') h g)

-- every id that the walk has seen has a longer chain
abbrev Above : List Device → ℕ → List ℕ → Type 0
Above rows n seen = All (λ s. (m : ℕ) × (n < m) × EndsIn rows m s) seen

Above-suc :
    (rows : List Device) (n : ℕ) (seen : List ℕ) → Above rows (suc n) seen → Above rows n seen
Above-suc rows n [] h = tt
Above-suc rows n (s ∷ seen) ((m, lt, e), hs) = ((m, omega arith, e), Above-suc rows n seen hs)

-- so the walk meets no id again
contains-Above :
    (rows : List Device) (n c : ℕ) (seen : List ℕ)
    → EndsIn rows n c
    → Above rows n seen
    → contains c seen ≡ false
contains-Above rows n c [] h hs = refl
contains-Above rows n c (s ∷ seen) h ((m, lt, e), hs) =
    ground (arith, EndsIn-unique rows n m c s, contains-Above rows n c seen h hs)

walk-ne :
    (fuel : ℕ) (rows : List Device) (k parent : ℕ) (seen : List ℕ) (c : ℕ)
    → walk fuel rows (some k) parent seen (some c) ≡ some none
    → c ≢ k
unfolding walk
walk-ne zero rows k parent seen c h = cc
walk-ne (suc fuel) rows k parent seen c h = ground arith

walk-next :
    (fuel : ℕ) (rows : List Device) (k parent : ℕ) (seen : List ℕ) (c q : ℕ)
    → contains c seen ≡ false
    → up rows c ≡ some q
    → walk (suc fuel) rows (some k) parent seen (some c) ≡ some none
    → walk fuel rows (some k) parent (c ∷ seen) (some q) ≡ some none
unfolding walk
walk-next fuel rows k parent seen c q new e h = elim (Option-cases (Table.find device_id c rows)) [
  | inl f ↦ ground (arith, f)
  | inr (a, f) ↦ ground (arith, f)
]

-- An accepted parent keeps its chain in any table that differs in the parent of k alone.
walk-EndsIn :
    (fuel : ℕ) (rows new : List Device) (k parent : ℕ) (seen : List ℕ) (n c : ℕ)
    → ((j : ℕ) → j ≢ k → up new j ≡ up rows j)
    → EndsIn rows n c
    → Above rows n seen
    → walk fuel rows (some k) parent seen (some c) ≡ some none
    → EndsIn new n c
unfolding walk
walk-EndsIn zero rows new k parent seen n c agree h above w = cc
walk-EndsIn (suc fuel) rows new k parent seen zero c agree h above w =
    agree c (walk-ne (suc fuel) rows k parent seen c w) ∙ h
walk-EndsIn (suc fuel) rows new k parent seen (suc n) c agree (q, e, h) above w = (
  q,
  agree c (walk-ne (suc fuel) rows k parent seen c w) ∙ e,
  walk-EndsIn fuel rows new k parent (c ∷ seen) n q agree h
      ((suc n, omega arith, (q, e, h)), Above-suc rows n seen above)
      (walk-next fuel rows k parent seen c q (contains-Above rows (suc n) c seen (q, e, h) above) e
        w),
)

-- Chains that end, with the exception of k's, end as well if k's chain does.
pub EndsIn-all :
    (rows new : List Device) (k m : ℕ)
    → ((j : ℕ) → j ≢ k → up new j ≡ up rows j)
    → EndsIn new m k
    → (n j : ℕ) → EndsIn rows n j
    → (i : ℕ) × EndsIn new i j
EndsIn-all rows new k m agree end zero j h = elim (Bool-cases (nat_beq j k)) [
  | inl e ↦ (m, rw ((nat_beq_iff j k).0 e) end)
  | inr e ↦ (0, agree j (ground arith) ∙ h)
]
EndsIn-all rows new k m agree end (suc n) j (q, e, h) = elim (Bool-cases (nat_beq j k)) [
  | inl b ↦ (m, rw ((nat_beq_iff j k).0 b) end)
  | inr b ↦
      let (i, g) = EndsIn-all rows new k m agree end n q h in
      (suc i, (q, agree j (ground arith) ∙ e, g))
]

up-replace :
    (d : Device) (rows : List Device) (j : ℕ)
    → j ≢ d.id
    → up (Table.replace device_id d rows) j ≡ up rows j
up-replace d rows j ne = rw (Table.find-replace_ne device_id j d rows ne) refl

validate_parent-walk :
    (rows : List Device) (k p : ℕ) (o : Option ℕ)
    → o ≡ some p
    → validate_parent rows (some k) o ≡ some none
    → walk (suc (length rows)) rows (some k) p [] (some p) ≡ some none
unfolding validate_parent
validate_parent-walk rows k p none e h = cc
validate_parent-walk rows k p (some q) e h = ground arith

-- A forest stays a forest when the row of a device is written with a parent that the check accepts.
pub replace-IsForest :
    (rows : List Device) (d old : Device)
    → IsForest rows
    → Table.find device_id d.id rows ≡ some old
    → validate_parent rows (some d.id) d.parent_id ≡ some none
    → IsForest (Table.replace device_id d rows)
replace-IsForest rows d old forest found ok = λ j.
    let new = Table.replace device_id d rows in
    let agree = up-replace d rows in
    let here = Table.find-replace_self device_id d old rows found in
    let (n, h) = forest j in
    elim (Option-cases d.parent_id) [
      | inl e ↦ EndsIn-all rows new d.id 0 agree (rw here e) n j h
      | inr (p, e) ↦
          let (m, g) = forest p in
          EndsIn-all rows new d.id (suc m) agree
            (
              p,
              rw here e,
              walk-EndsIn (suc (length rows)) rows new d.id p [] m p agree g tt
                  (validate_parent-walk rows d.id p d.parent_id e ok),
            )
            n j h
    ]
