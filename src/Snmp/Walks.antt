-- ===== src/Snmp/Walks.antt =====
-- How much a walk of an SNMP subtree collects (backend/app/services/snmp_collector.py).
use network_monitoring.Prelude.{
  ℕ, String, inl, inr, Bool, true, false, Option, some, List, [], arith, leb, Bool-cases,
  Option-cases, Eq, length, All, ◌+◌, ◌≤◌, ◌<◌, ◌≡◌, ◌||◌, ◌∷◌, nat_eq, string_eq,
}
use network_monitoring.Dict
use network_monitoring.Dict.{Dict, length-put-le}
use network_monitoring.Snmp.{
  Poll, Value, Response, Agent, raised, add_binds, walk_rows, suffix_of, walk_full,
}

-- a walk that was answered has at most so many rows
abbrev pub IsWithin : {K : Type 0} → ℕ → Poll (Dict K Value) → Type 0
IsWithin rows (inl f) = Unit
IsWithin rows (inr d) = length d ≤ rows

not_enough : (left : Bool) (rows n : ℕ) → (left || leb rows n) ≡ false → n < rows
not_enough false rows n h = ground arith
not_enough true rows n h = cc

module _ {K : Type 0} ⦃e : Eq K⦄ (index : String → Option K) where
  length-add_binds-le :
      (binds : List (String × Value)) (out : Dict K Value)
      → length (add_binds index binds out).0 ≤ length out + length binds
  unfolding add_binds
  length-add_binds-le [] out = omega arith
  length-add_binds-le ((name, value) ∷ binds) out = elim (Option-cases (index name)) [
    | inl e ↦ rw (e, add_binds) (omega arith)
    | inr (i, e) ↦
        rw (e, add_binds)
          (omega
            (arith, length-add_binds-le binds (Dict.put i value out), length-put-le i value out))
  ]

  walk_rows-IsWithin :
      (rows : ℕ) (rs : List Response) (out : Dict K Value)
      → All (λ r. length r.var_binds ≤ 1) rs
      → length out < rows
      → IsWithin rows (walk_rows index (some rows) rs out)
  unfolding walk_rows
  walk_rows-IsWithin rows [] out one few = omega arith
  walk_rows-IsWithin rows (r ∷ rs) out one few = elim (Option-cases (raised r)) [
    | inr (f, e) ↦ rw (e, walk_rows) tt
    | inl e ↦
        let (out', left) = add_binds index r.var_binds out in
        let grown = length-add_binds-le r.var_binds out in
        elim (Bool-cases (left || leb rows (length out'))) [
          | inl stop ↦ rw (e, stop, walk_rows) (omega (arith, grown, one.0))
          | inr more ↦
              rw (e, more, walk_rows)
                (walk_rows-IsWithin rows rs out' one.1 (not_enough left rows (length out') more))
        ]
  ]

-- A walk with a row limit collects at most that many rows, however many answers the agent gives, if
-- an answer carries at most one row (the walk asks for one column).
pub walk_full-IsWithin :
    (a : Agent) (base : String) (rows : ℕ)
    → All (λ r. length r.var_binds ≤ 1) (a.walked base)
    → 0 < rows
    → IsWithin rows (walk_full a base (some rows))
unfolding walk_full
walk_full-IsWithin a base rows one some_rows =
    walk_rows-IsWithin (suffix_of base) rows (a.walked base) [] one some_rows
