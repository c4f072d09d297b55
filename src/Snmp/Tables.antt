-- ===== src/Snmp/Tables.antt =====
-- VLANs, forwarding, neighbours, routes and the name tables of the inventory
-- (backend/app/services/snmp_collector.py). `hex` prints a number with two hexadecimal digits or more,
-- `show` in decimal.
use network_monitoring.Prelude.{
  ℕ, String, inl, inr, Option, none, some, List, [], map, ltb, nat_beq, length, take, drop, ◌∷◌,
  ◌++◌, if◌then◌else◌, nat_eq, string_eq,
}
use network_monitoring.Dict
use network_monitoring.Dict.{Dict}
use network_monitoring.Text.{concat, join, split_on}
use network_monitoring.Snmp.{failure, Poll, ◌>>=◌, Value, Agent}
use network_monitoring.Snmp.Facts.{by_index}
use network_monitoring.Snmp.Decode.{
  as_int, as_str, mac, int_text, prefix_len, safe_walk, safe_walk_full,
}
use network_monitoring.Snmp.Oids.{
  oid_arp_phys, oid_cbqos_cm_name, oid_cbqos_policymap_name, oid_cisco_ap_name,
  oid_cisco_vtp_vlan_name, oid_dot1d_base_port_if, oid_dot1d_fdb_port, oid_dot1q_fdb_port,
  oid_dot1q_vlan_name, oid_ipcidr_route_ifindex, oid_ipcidr_route_proto, oid_iproute_ifindex,
  oid_iproute_mask, oid_iproute_nexthop, oid_ipsec_tun_peer, oid_ipsec_tun_status,
}

abbrev pub or_rows : {A : Type 0} → List A → List A → List A
or_rows [] b = b
or_rows (x ∷ xs) b = x ∷ xs

abbrev named : ℕ × Value → ℕ × Option String
named (i, v) = (i, as_str (some v))

unfoldable pub inv_vlans : Agent → List (ℕ × Option String)
unfolding safe_walk
inv_vlans a =
    map named
      (by_index (or_rows (safe_walk a oid_dot1q_vlan_name) (safe_walk a oid_cisco_vtp_vlan_name)))

-- int(part) of an index
unfoldable pub part_int : String → Poll ℕ
unfolding int_text
part_int s = elim (int_text s) [ none ↦ inl (failure "ValueError" s) | some n ↦ inr n ]

hex_parts : (ℕ → String) → List String → Poll (List String)
unfolding part_int
hex_parts hex [] = inr []
hex_parts hex (p ∷ ps) = do n ← part_int p; rest ← hex_parts hex ps; inr (hex n ∷ rest)

pub record MacRow : Type 0 where
  pub vlan : Option ℕ
  pub mac_address : String
  pub port : Option ℕ
  pub ifindex : Option ℕ

abbrev ifindex_of : Dict ℕ Value → Option ℕ → Option ℕ
ifindex_of base_if none = none
ifindex_of base_if (some port) = if nat_beq port 0 then none else as_int (Dict.get port base_if)

unfoldable pub mac_row : (ℕ → String) → Dict ℕ Value → Option ℕ → List String → Value → Poll MacRow
unfolding hex_parts Dict.get
mac_row hex base_if vlan parts port = do
  octets ← hex_parts hex parts
  inr record {
    vlan = vlan;
    mac_address = join ":" octets;
    port = port.number;
    ifindex = ifindex_of base_if port.number;
  }

-- index vlan.mac
unfoldable pub dot1q_row : (ℕ → String) → Dict ℕ Value → List String → Value → Poll MacRow
unfolding part_int mac_row
dot1q_row hex base_if [] port = inl (failure "IndexError" "")
dot1q_row hex base_if (first ∷ parts) port = do
  vlan ← part_int first
  mac_row hex base_if (some vlan) (take 6 parts) port

-- the rows whose index has enough parts, with the exception of the first one that fails
abbrev pub rows_of :
    {A : Type 0} → ℕ → (List String → Value → Poll A) → Dict String Value → Poll (List A)
rows_of least row [] = inr []
rows_of least row ((suffix, v) ∷ rows) =
    let parts = split_on b'.' suffix in
    let rest = rows_of least row rows in
    if ltb (length parts) least then rest else do r ← row parts v; rs ← rest; inr (r ∷ rs)

unfoldable pub inv_mac_table : (ℕ → String) → Agent → Poll (List MacRow)
unfolding safe_walk safe_walk_full split_on dot1q_row mac_row
inv_mac_table hex a =
    let base_if = safe_walk a oid_dot1d_base_port_if in
    elim (safe_walk_full a oid_dot1q_fdb_port (some 1000)) [
      | [] ↦
          rows_of 6 (λ parts v. mac_row hex base_if none (take 6 parts) v)
            (safe_walk_full a oid_dot1d_fdb_port (some 1000))
      | q ∷ qs ↦ rows_of 7 (dot1q_row hex base_if) (q ∷ qs)
    ]

pub record ArpRow : Type 0 where
  pub ip : String
  pub mac_address : String
  pub ifindex : ℕ

-- one row, or none for an index that is too short or an address that is none
unfoldable pub arp_row : (ℕ → String) → List String → Value → Poll (Option ArpRow)
unfolding mac part_int
arp_row hex [] v = inr none
arp_row hex (first ∷ parts) v = if ltb (length parts) 4 then inr none else elim (mac hex (some v)) [
  | none ↦ inr none
  | some m ↦ do
    i ← part_int first
    inr (some record { ip = join "." (take 4 parts); mac_address = m; ifindex = i })
]

abbrev pub with_row : {A : Type 0} → Poll (Option A) → Poll (List A) → Poll (List A)
with_row (inl f) rest = inl f
with_row (inr none) rest = rest
with_row (inr (some r)) (inl f) = inl f
with_row (inr (some r)) (inr rs) = inr (r ∷ rs)

unfoldable pub arp_rows : (ℕ → String) → Dict String Value → Poll (List ArpRow)
unfolding split_on arp_row
arp_rows hex [] = inr []
arp_rows hex ((suffix, v) ∷ rows) =
    with_row (arp_row hex (split_on b'.' suffix) v) (arp_rows hex rows)

unfoldable pub inv_arp : (ℕ → String) → Agent → Poll (List ArpRow)
unfolding safe_walk_full arp_rows
inv_arp hex a = arp_rows hex (safe_walk_full a oid_arp_phys (some 1000))

pub record Route : Type 0 where
  pub dest : String
  pub nexthop : Option String
  pub ifindex : Option ℕ
  pub proto : Option ℕ

-- index dest.mask.tos.nexthop
unfoldable pub cidr_rows : (ℕ → String) → Dict String Value → Dict String Value → List Route
unfolding split_on prefix_len Dict.get
cidr_rows show protos [] = []
cidr_rows show protos ((suffix, iface) ∷ rows) =
    let parts = split_on b'.' suffix in
    let rest = cidr_rows show protos rows in
    if ltb (length parts) 13
    then rest
    else record {
      dest =
          concat (join "." (take 4 parts) ∷ "/" ∷ show (prefix_len (take 4 (drop 4 parts))) ∷ []);
      nexthop = some (join "." (take 4 (drop 9 parts)));
      ifindex = iface.number;
      proto = as_int (Dict.get suffix protos);
    }
      ∷ rest

route_dest : (ℕ → String) → String → Option String → String
unfolding split_on prefix_len
route_dest show suffix none = suffix
route_dest show suffix (some mask) =
    concat (suffix ∷ "/" ∷ show (prefix_len (split_on b'.' mask)) ∷ [])

unfoldable pub plain_rows :
    (ℕ → String) → Dict String Value → Dict String Value → Dict String Value → List Route
unfolding as_str Dict.get route_dest
plain_rows show nexthops masks [] = []
plain_rows show nexthops masks ((suffix, iface) ∷ rows) =
    record {
      dest = route_dest show suffix (as_str (Dict.get suffix masks));
      nexthop = as_str (Dict.get suffix nexthops);
      ifindex = iface.number;
      proto = none;
    }
    ∷ plain_rows show nexthops masks rows

unfoldable pub inv_routes : (ℕ → String) → Agent → List Route
unfolding safe_walk_full cidr_rows plain_rows
inv_routes show a = elim (safe_walk_full a oid_ipcidr_route_ifindex (some 500)) [
  | [] ↦
      plain_rows show (safe_walk_full a oid_iproute_nexthop (some 500))
        (safe_walk_full a oid_iproute_mask (some 500))
        (safe_walk_full a oid_iproute_ifindex (some 500))
  | r ∷ rs ↦ cidr_rows show (safe_walk_full a oid_ipcidr_route_proto (some 500)) (r ∷ rs)
]

abbrev text_in : ℕ × Value → Option String
text_in (i, v) = as_str (some v)

abbrev tagged : String → ℕ × Value → String × Option String
tagged kind row = (kind, text_in row)

unfoldable pub inv_qos : Agent → List (String × Option String)
unfolding safe_walk as_str
inv_qos a =
    map (tagged "policy-map") (by_index (safe_walk a oid_cbqos_policymap_name))
    ++ map (tagged "class-map") (by_index (safe_walk a oid_cbqos_cm_name))

abbrev tunnel : Dict ℕ Value → ℕ × Value → Option String × String
tunnel status (i, p) = (
  as_str (some p),
  elim (as_int (Dict.get i status)) [
    | none ↦ "inactive"
    | some n ↦ if nat_beq n 1 then "active" else "inactive"
  ],
)

unfoldable pub inv_vpn : Agent → List (Option String × String)
unfolding safe_walk as_str Dict.get
inv_vpn a =
    map (tunnel (safe_walk a oid_ipsec_tun_status)) (by_index (safe_walk a oid_ipsec_tun_peer))

unfoldable pub inv_wireless : Agent → List (Option String)
unfolding safe_walk as_str
inv_wireless a = map text_in (by_index (safe_walk a oid_cisco_ap_name))
