-- ===== src/Discovery/Proposals.antt =====
-- What a sweep proposes, and what it leaves of the decisions that were taken
-- (backend/app/services/discovery.py).
use network_monitoring.Prelude.{
  ℕ, String, refl, sym, ap, inl, inr, Bool, true, false, not, Option, some, List, [], map, arith,
  nat_beq, Bool-cases, Option-cases, length, keep, all, All, contains, ◌≡◌, ◌∙◌, ◌&&◌, ◌∷◌, ◌++◌,
  nat_eq, string_eq,
}
use mathlib.Core.List.{map-append, append-nil}
use network_monitoring.Settings.{Settings}
use network_monitoring.World.{World, DiscoveredDevice}
use network_monitoring.Ping.Probe.{Reply}
use network_monitoring.Discovery.{
  Hit, device_ip, row_ip, hit_ip, valid, subnets, probe, targets, all_targets, named, record_hits,
  distinct, record_sweep, run_sweep,
}
use network_monitoring.Discovery.Sweep.{
  entry, record_hits-entries, record_hits-fresh, record_hits-new,
}

module _ (p : String → Bool) where
  all-append : (xs ys : List String) → all p (xs ++ ys) ≡ (all p xs && all p ys)
  all-append [] ys = refl
  all-append (x ∷ xs) ys = ground (arith, all-append xs ys)

  all-keep_self : (xs : List String) → all p (keep p xs) ≡ true
  all-keep_self [] = refl
  all-keep_self (x ∷ xs) = ground (arith, all-keep_self xs)

  all-keep : (q : String → Bool) (xs : List String) → all p xs ≡ true → all p (keep q xs) ≡ true
  all-keep q [] h = refl
  all-keep q (x ∷ xs) h = ground (arith, all-keep q xs)

-- an address that is none of the monitored ones
abbrev pub unknown_to : List String → String → Bool
unknown_to known ip = not (contains ip known)

all-targets :
    (s : Settings) (known hosts : List String)
    → all (unknown_to known) (targets s known hosts) ≡ true
all-targets s known hosts = ground (arith, all-keep_self (unknown_to known) hosts)

all-all_targets :
    (s : Settings) (known : List String) (nets : List (List String))
    → all (unknown_to known) (all_targets s known nets) ≡ true
all-all_targets s known [] = refl
all-all_targets s known (hosts ∷ nets) = ground (
  arith,
  all-append (unknown_to known) (targets s known hosts) (all_targets s known nets),
  all-targets s known hosts,
  all-all_targets s known nets,
)

ip-probe :
    (ping : String → Option Reply) (ip : String) (hit : String × Option ℕ)
    → probe ping ip ≡ some hit
    → hit.0 ≡ ip
ip-probe ping ip hit h = elim (Option-cases (ping ip)) [
  | inl e ↦ ground (arith, e, h)
  | inr (reply, e) ↦ elim (Bool-cases reply.alive) [
    | inl f ↦ ground (arith, e, f, h)
    | inr f ↦ ground (arith, e, f, h)
  ]
]

all-tail :
    (p : String → Bool) (x : String) (xs : List String) → all p (x ∷ xs) ≡ true → all p xs ≡ true
all-tail p x xs h = ground arith

-- The addresses that answered are some of those that were probed.
all-hits :
    (ping : String → Option Reply) (reverse_dns : String → Option String) (p : String → Bool)
    (probed : List String)
    → all p probed ≡ true
    → all p (map hit_ip (map (named reverse_dns) (valid (probe ping) probed))) ≡ true
all-hits ping reverse_dns p [] h = refl
all-hits ping reverse_dns p (ip ∷ probed) h = elim (Option-cases (probe ping ip)) [
  | inl e ↦ rw (e, valid, all) (all-hits ping reverse_dns p probed (all-tail p ip probed h))
  | inr (hit, e) ↦
      rw (e, valid, all)
        (ground (arith, ip-probe ping ip hit e, all-hits ping reverse_dns p probed))
]

-- What a sweep adds to the table: new entries of addresses for which `p` holds.
abbrev pub IsProposal : ℕ → (String → Bool) → List DiscoveredDevice → List DiscoveredDevice → Type 0
IsProposal now p before after =
    (added : List DiscoveredDevice) × (map entry after ≡ map entry before ++ map entry added)
    × All (λ (r : DiscoveredDevice). (r.status ≡ "new") × (r.last_seen ≡ now)) added
    × (all p (map row_ip added) ≡ true)

record_sweep-IsProposal :
    (new_id : String → ℕ) (now swept : ℕ) (hits : List Hit) (w : World) (p : String → Bool)
    → all p (map hit_ip hits) ≡ true
    → IsProposal now p w.discovered (record_sweep new_id now swept hits w).1.discovered
unfolding record_sweep
record_sweep-IsProposal new_id now swept hits w p h =
    let rows = (record_hits new_id now hits w.discovered).0 in
    let added = (record_hits new_id now hits w.discovered).1 in
    elim (Bool-cases (distinct (map row_ip (rows ++ added)))) [
      | inl e ↦
          rw (e, record_sweep)
            (
              added,
              map-append entry rows added
                  ∙ ap (λ l. l ++ map entry added)
                      (record_hits-entries new_id now hits w.discovered),
              record_hits-new new_id now hits w.discovered,
              rw (record_hits-fresh new_id now hits w.discovered) (
                  all-keep p (λ ip. not (contains ip (map row_ip w.discovered))) (map hit_ip hits)
                    h),
            )
      | inr e ↦ rw (e, record_sweep) ([], sym (append-nil (map entry w.discovered)), tt, refl)
    ]

-- A sweep, committed or not, leaves every entry of the table as it was but for its last contact (an
-- ignored address stays ignored), and adds only new entries, none of an address that a device had
-- when the sweep began, if any subnet is configured.
pub run_sweep-IsProposal :
    (ip_network : String → Option (List String)) (ping : String → Option Reply)
    (reverse_dns : String → Option String) (new_id : String → ℕ) (s : Settings) (now : ℕ)
    (meanwhile : World → World) (w : World)
    → nat_beq (length (subnets ip_network s)) 0 ≡ false
    → IsProposal now
        (unknown_to (map device_ip w.devices))
        (meanwhile w).discovered
        (run_sweep ip_network ping reverse_dns new_id s now meanwhile w).1.discovered
unfolding run_sweep
run_sweep-IsProposal ip_network ping reverse_dns new_id s now meanwhile w some_nets =
    let known = map device_ip w.devices in
    let probed = all_targets s known (subnets ip_network s) in
    rw (some_nets, run_sweep)
      (record_sweep-IsProposal new_id now (length probed)
        (map (named reverse_dns) (valid (probe ping) probed)) (meanwhile w) (unknown_to known)
        (all-hits ping reverse_dns (unknown_to known) probed
          (all-all_targets s known (subnets ip_network s))))
