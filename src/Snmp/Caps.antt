-- ===== src/Snmp/Caps.antt =====
-- How large the tables of an inventory get (backend/app/services/snmp_collector.py).
use network_monitoring.Prelude.{
  ℕ, suc, String, refl, ap, inl, inr, Option, none, some, List, [], arith, ltb, Bool-cases,
  Sum-cases, length, take, All, ◌≤◌, ◌<◌, ◌≡◌, ◌⊎◌, ◌∷◌, nat_eq, string_eq,
}
use network_monitoring.Dict.{Dict}
use network_monitoring.Text.{split_on}
use network_monitoring.Snmp.{Poll, Value, Response, Agent, ◌>>=◌, walk_full}
use network_monitoring.Snmp.Walks.{walk_full-IsWithin, IsWithin}
use network_monitoring.Snmp.Decode.{safe_walk, safe_walk_full}
use network_monitoring.Snmp.Tables.{
  arp_row, with_row, rows_of, inv_mac_table, inv_arp, inv_routes, arp_rows, cidr_rows, plain_rows,
  dot1q_row, mac_row,
}
use network_monitoring.Snmp.Inventory.{cat}
use network_monitoring.Snmp.Oids.{
  oid_arp_phys, oid_dot1d_base_port_if, oid_dot1d_fdb_port, oid_dot1q_fdb_port,
  oid_ipcidr_route_ifindex, oid_ipcidr_route_proto, oid_iproute_ifindex, oid_iproute_mask,
  oid_iproute_nexthop,
}

-- Every answer of the agent to a walk carries at most one row: a walk asks for one column.
abbrev pub OneRow : Agent → Type 0
OneRow a = (oid : String) → All (λ (r : Response). length r.var_binds ≤ 1) (a.walked oid)

within-length :
    (rows : ℕ) (p : Poll (Dict String Value)) (d : Dict String Value)
    → p ≡ inr d
    → IsWithin rows p
    → length d ≤ rows
within-length rows (inl f) d e h = cc
within-length rows (inr d') d e h = ground (arith, e, h)

safe_walk_full-le :
    (a : Agent) (oid : String) (rows : ℕ)
    → OneRow a
    → 0 < rows
    → length (safe_walk_full a oid (some rows)) ≤ rows
unfolding safe_walk_full
safe_walk_full-le a oid rows one some_rows =
    let within = walk_full-IsWithin a oid rows (one oid) some_rows in
    elim (Sum-cases (walk_full a oid (some rows))) [
      | inl (f, e) ↦ rw (e, safe_walk_full) (omega arith)
      | inr (d, e) ↦
          rw (e, safe_walk_full) (within-length rows (walk_full a oid (some rows)) d e within)
    ]

row-le :
    {A : Type 0} (r : Poll A) (rest : Poll (List A)) (n : ℕ)
    → length (cat rest) ≤ n
    → length (cat (do x ← r; xs ← rest; inr (x ∷ xs))) ≤ suc n
row-le (inl f) rest n h = omega arith
row-le (inr x) (inl f) n h = omega arith
row-le (inr x) (inr xs) n h = omega arith

with_row-le :
    {A : Type 0} (r : Poll (Option A)) (rest : Poll (List A)) (n : ℕ)
    → length (cat rest) ≤ n
    → length (cat (with_row r rest)) ≤ suc n
with_row-le (inl f) rest n h = omega arith
with_row-le (inr none) rest n h = omega arith
with_row-le (inr (some x)) (inl f) n h = omega arith
with_row-le (inr (some x)) (inr xs) n h = omega arith

rows_of-le :
    {A : Type 0} (least : ℕ) (row : List String → Value → Poll A) (rows : Dict String Value)
    → length (cat (rows_of least row rows)) ≤ length rows
rows_of-le least row [] = omega arith
rows_of-le least row ((suffix, v) ∷ rows) =
    elim (Bool-cases (ltb (length (split_on b'.' suffix)) least)) [
      | inl e ↦ rw (e) (omega (arith, rows_of-le least row rows))
      | inr e ↦ rw (e) (
          row-le (row (split_on b'.' suffix) v) (rows_of least row rows) (length rows)
            (rows_of-le least row rows))
    ]

arp_rows-le :
    (hex : ℕ → String) (rows : Dict String Value) → length (cat (arp_rows hex rows)) ≤ length rows
unfolding arp_rows
arp_rows-le hex [] = omega arith
arp_rows-le hex ((suffix, v) ∷ rows) =
    with_row-le (arp_row hex (split_on b'.' suffix) v) (arp_rows hex rows) (length rows)
      (arp_rows-le hex rows)

cidr_rows-le :
    (show : ℕ → String) (protos rows : Dict String Value)
    → length (cidr_rows show protos rows) ≤ length rows
unfolding cidr_rows
cidr_rows-le show protos [] = omega arith
cidr_rows-le show protos ((suffix, v) ∷ rows) = ground (arith, cidr_rows-le show protos rows)

length-plain_rows :
    (show : ℕ → String) (nexthops masks rows : Dict String Value)
    → length (plain_rows show nexthops masks rows) ≡ length rows
unfolding plain_rows
length-plain_rows show nexthops masks [] = refl
length-plain_rows show nexthops masks ((suffix, v) ∷ rows) =
    ap suc (length-plain_rows show nexthops masks rows)

List-cases : {A : Type 0} (l : List A) → (l ≡ []) ⊎ ((x : A) × (xs : List A) × (l ≡ x ∷ xs))
List-cases [] = inl refl
List-cases (x ∷ xs) = inr (x, xs, refl)

length-same : {A : Type 0} (n : ℕ) (l m : List A) → l ≡ m → length l ≤ n → length m ≤ n
length-same n l m e h = ground (arith, e, h)

arp-le : (hex : ℕ → String) (a : Agent) → OneRow a → length (cat (inv_arp hex a)) ≤ 1000
unfolding inv_arp
arp-le hex a one = omega (
  arith,
  arp_rows-le hex (safe_walk_full a oid_arp_phys (some 1000)),
  safe_walk_full-le a oid_arp_phys 1000 one (omega arith),
)

mac_table-le : (hex : ℕ → String) (a : Agent) → OneRow a → length (cat (inv_mac_table hex a)) ≤ 1000
unfolding inv_mac_table
mac_table-le hex a one =
    let base_if = safe_walk a oid_dot1d_base_port_if in
    let q = safe_walk_full a oid_dot1q_fdb_port (some 1000) in
    let d = safe_walk_full a oid_dot1d_fdb_port (some 1000) in
    elim (List-cases q) [
      | inl e ↦
          rw (e, inv_mac_table)
            (omega (
              arith,
              rows_of-le 6 (λ parts v. mac_row hex base_if none (take 6 parts) v) d,
              safe_walk_full-le a oid_dot1d_fdb_port 1000 one (omega arith),
            ))
      | inr (x, xs, e) ↦
          rw (e, inv_mac_table)
            (omega (
              arith,
              rows_of-le 7 (dot1q_row hex base_if) (x ∷ xs),
              length-same 1000 q (x ∷ xs) e
                  (safe_walk_full-le a oid_dot1q_fdb_port 1000 one (omega arith)),
            ))
    ]

routes-le : (show : ℕ → String) (a : Agent) → OneRow a → length (inv_routes show a) ≤ 500
unfolding inv_routes
routes-le show a one =
    let first = safe_walk_full a oid_ipcidr_route_ifindex (some 500) in
    let protos = safe_walk_full a oid_ipcidr_route_proto (some 500) in
    let nexthops = safe_walk_full a oid_iproute_nexthop (some 500) in
    let masks = safe_walk_full a oid_iproute_mask (some 500) in
    let plain = safe_walk_full a oid_iproute_ifindex (some 500) in
    elim (List-cases first) [
      | inl e ↦
          rw (e, inv_routes)
            (omega (
              arith,
              length-plain_rows show nexthops masks plain,
              safe_walk_full-le a oid_iproute_ifindex 500 one (omega arith),
            ))
      | inr (x, xs, e) ↦
          rw (e, inv_routes)
            (omega (
              arith,
              cidr_rows-le show protos (x ∷ xs),
              length-same 500 first (x ∷ xs) e
                  (safe_walk_full-le a oid_ipcidr_route_ifindex 500 one (omega arith)),
            ))
    ]

-- However large the tables of an agent are, an inventory of it has at most 1000 forwarding entries,
-- 1000 neighbours and 500 routes, if every answer to a walk carries at most one row.
pub inventory_within :
    (show hex : ℕ → String) (a : Agent)
    → OneRow a
    → (length (cat (inv_mac_table hex a)) ≤ 1000)
      × (length (cat (inv_arp hex a)) ≤ 1000)
      × (length (inv_routes show a) ≤ 500)
inventory_within show hex a one = (mac_table-le hex a one, arp-le hex a one, routes-le show a one)
