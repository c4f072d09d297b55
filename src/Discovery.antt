-- ===== src/Discovery.antt =====
-- backend/app/services/discovery.py: the sweep of the configured subnets. `ip_network` is Python's: the
-- addresses of the hosts of a subnet, or none where it raises ValueError. `ping` is the probe of the
-- ping scheduler (none where it raises), `reverse_dns` the name of an address, `new_id` the fresh
-- uuid4 of the row of an address.
pub mod Sweep
pub mod Distinct
pub mod Proposals
pub mod Routes
use network_monitoring.Prelude.{
  ℕ, String, inl, inr, Bool, true, not, Option, none, some, List, [], map, ltb, nat_beq, length,
  keep, contains, ◌⊎◌, ◌&&◌, ◌∷◌, ◌++◌, ◌==◌, if◌then◌else◌, nat_eq, string_eq,
}
use network_monitoring.Settings.{Settings}
use network_monitoring.Device.{Device}
use network_monitoring.World.{World, DiscoveredDevice}
use network_monitoring.Text.{comma_list, first_chars}
use network_monitoring.Ping.Probe.{Reply}

pub record Hit : Type 0 where
  pub ip : String
  pub rtt : Option ℕ
  pub hostname : Option String

-- the exception of a commit: a unique column with the same value twice
pub data SweepError : Type 0 where
  integrity_error : SweepError

pub record Counters : Type 0 where
  pub swept : ℕ
  pub alive : ℕ
  pub new : ℕ

abbrev pub device_ip : Device → String
device_ip d = d.ip_address

abbrev pub row_ip : DiscoveredDevice → String
row_ip r = r.ip_address

abbrev pub hit_ip : Hit → String
hit_ip h = h.ip

abbrev pub valid : {A B : Type 0} → (A → Option B) → List A → List B
valid f [] = []
valid f (x ∷ xs) = elim (f x) [ none ↦ valid f xs | some y ↦ y ∷ valid f xs ]

unfoldable pub subnets : (String → Option (List String)) → Settings → List (List String)
unfolding comma_list
subnets ip_network s = valid ip_network (comma_list s.discovery_subnets)

abbrev pub probe : (String → Option Reply) → String → Option (String × Option ℕ)
probe ping ip = elim (ping ip) [
  | none ↦ none
  | some reply ↦ if reply.alive then some (ip, reply.rtt) else none
]

-- the hosts of a subnet that are probed: none of one that is too large
abbrev pub targets : Settings → List String → List String → List String
targets s known_ips hosts =
    if ltb s.discovery_max_hosts_per_subnet (length hosts)
    then []
    else keep (λ ip. not (contains ip known_ips)) hosts

abbrev pub all_targets : Settings → List String → List (List String) → List String
all_targets s known_ips [] = []
all_targets s known_ips (hosts ∷ nets) = targets s known_ips hosts ++ all_targets s known_ips nets

abbrev pub named : (String → Option String) → String × Option ℕ → Hit
named reverse_dns (ip, rtt) = record {
  ip = ip;
  rtt = rtt;
  hostname = elim (reverse_dns ip) [ none ↦ none | some name ↦ some (first_chars 255 name) ];
}

-- the row that `pending` has for an address, seen again
unfoldable pub touch : ℕ → Hit → List DiscoveredDevice → List DiscoveredDevice
touch now h [] = []
touch now h (r ∷ rows) =
    (if r.ip_address == h.ip then record r { last_seen = now; rtt = h.rtt } else r)
    ∷ touch now h rows

abbrev pub proposed : (String → ℕ) → ℕ → Hit → DiscoveredDevice
proposed new_id now h = record {
  id = new_id h.ip;
  ip_address = h.ip;
  hostname = h.hostname;
  rtt = h.rtt;
  status = "new";
  first_seen = now;
  last_seen = now;
}

-- the rows that were there, and those that the session adds
unfoldable pub record_hits :
    (String → ℕ)
    → ℕ
    → List Hit
    → List DiscoveredDevice
    → List DiscoveredDevice × List DiscoveredDevice
unfolding touch
record_hits new_id now [] rows = (rows, [])
record_hits new_id now (h ∷ hits) rows =
    let seen = record_hits new_id now hits (touch now h rows) in
    let (rows', added) = record_hits new_id now hits rows in
    if contains h.ip (map row_ip rows) then seen else (rows', proposed new_id now h ∷ added)

-- `ip_address` of discovered_devices is unique
abbrev pub distinct : List String → Bool
distinct [] = true
distinct (x ∷ xs) = not (contains x xs) && distinct xs

unfoldable pub record_sweep :
    (String → ℕ) → ℕ → ℕ → List Hit → World → (SweepError ⊎ Counters) × World
unfolding record_hits
record_sweep new_id now swept hits w =
    let (rows, added) = record_hits new_id now hits w.discovered in
    if distinct (map row_ip (rows ++ added))
    then (
      inr record { swept = swept; alive = length hits; new = length added },
      record w { discovered = rows ++ added },
    )
    else (inl integrity_error, w)

-- the probing holds no connection, and `meanwhile` is what other tasks write during it
unfoldable pub run_sweep :
    (String → Option (List String))
    → (String → Option Reply)
    → (String → Option String)
    → (String → ℕ)
    → Settings
    → ℕ
    → (World → World)
    → World
    → (SweepError ⊎ Counters) × World
unfolding subnets record_sweep
run_sweep ip_network ping reverse_dns new_id s now meanwhile w =
    let nets = subnets ip_network s in
    let probed = all_targets s (map device_ip w.devices) nets in
    let hits = map (named reverse_dns) (valid (probe ping) probed) in
    if nat_beq (length nets) 0
    then (inr record { swept = 0; alive = 0; new = 0 }, w)
    else record_sweep new_id now (length probed) hits (meanwhile w)
