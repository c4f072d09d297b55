-- ===== src/Tests/Telemetry.antt =====
-- The collectors, the sweep and the reports at concrete inputs.
use network_monitoring.Prelude.{
  ℕ, String, refl, ap, inl, inr, true, false, Option, none, some, List, [], map, arith, length, ◌+◌,
  ◌≤◌, ◌<◌, ◌≡◌, ◌≢◌, ◌⊎◌, ◌∷◌, ◌++◌, nat_eq, string_eq,
}
use Prim.Native.Char.{char}
use network_monitoring.Dict
use network_monitoring.Dict.{Dict}
use network_monitoring.Table
use network_monitoring.Settings.{Settings, default_settings}
use network_monitoring.DeviceFields.{set_snmp_enabled, set_snmp_community, set_vendor_name}
use network_monitoring.World.{World}
use network_monitoring.StateCache.Coherence.{IsCoherent, IsLive, live}
use network_monitoring.Devices.{DeviceCreate, update_device}
use network_monitoring.Devices.Snapshot.{update_device-IsCoherent}
use network_monitoring.Devices.Requests.{
  DeviceRequest, create, mute, update, handle_all, handle_all-IsCoherent,
}
use network_monitoring.Crypto.{
  process_bind_param, process_result_value, is_protected, process_result_value-process_bind_param,
}
use network_monitoring.Snmp.{Agent, Response}
use network_monitoring.Snmp.Rates.{Sample, passed, get-passed}
use network_monitoring.Snmp.Session.{V3, Usm, usm_of, sha, aes}
use network_monitoring.Snmp.Session.Protection.{IsProtected, LacksKey, usm_of-IsProtected}
use network_monitoring.Snmp.{Failure}
use network_monitoring.Snmp.Loop.{snmp_tick, snmp_tick-IsLive}
use network_monitoring.Snmp.Tables.{inv_mac_table, inv_arp, inv_routes}
use network_monitoring.Snmp.Inventory.{cat}
use network_monitoring.Snmp.Caps.{inventory_within}
use network_monitoring.Discovery.{
  Hit, device_ip, row_ip, hit_ip, distinct, subnets, record_sweep, run_sweep, integrity_error,
}
use network_monitoring.Discovery.Sweep.{fresh}
use network_monitoring.Discovery.Distinct.{record_sweep-distinct}
use network_monitoring.Discovery.Proposals.{IsProposal, unknown_to, run_sweep-IsProposal}
use network_monitoring.Ping.Probe.{Reply}
use network_monitoring.Admin.{text_less}
use network_monitoring.Sla.{DeviceSla, RegionSla, compute}
use network_monitoring.Sla.Totals.{sum_of, compute-sums}
use network_monitoring.Tests.Fixtures.{site, site-IsCoherent}

-- every host is an address already, and every number prints alike
abbrev known_host : String → String ⊎ String
known_host host = inr host

abbrev shown : ℕ → String
shown n = "n"

abbrev router : DeviceCreate
router = record { vendor_name = "router"; ip_address = "10.0.0.3"; others = [] }

abbrev morning : List (ℕ × ℕ × DeviceRequest)
morning =
    (7, 100, create 3 router)
    ∷ (7, 101, mute 1 true)
    ∷ (8, 102, update 2 (set_vendor_name "rack" ∷ []))
    ∷ []

handle_all-IsCoherent_example :
    IsCoherent (handle_all known_host shown shown default_settings morning site)
unfolding Table.find
handle_all-IsCoherent_example =
    handle_all-IsCoherent known_host shown shown default_settings morning site
      (refl, (tt, (tt, tt))) site-IsCoherent

-- a cipher that puts a letter in front
abbrev sealed : String → String
sealed p = String.◌∷◌ (char 120 tt) p

abbrev unsealed : String → Option String
unsealed String.[] = none
unsealed (String.◌∷◌ c p) = some p

process_result_value-process_bind_param_example :
    (is_protected (process_bind_param sealed unsealed (some "enc::public")) ≡ true)
    × (process_result_value sealed unsealed
          (process_bind_param sealed unsealed (some "enc::public"))
        ≡ some "enc::public")
process_result_value-process_bind_param_example =
    process_result_value-process_bind_param sealed unsealed (λ p. refl) (some "enc::public")

-- a 32-bit counter that wraps between two polls
abbrev earlier : Sample
earlier = record { t = 0; hc = false; octets = (2, (4294967290, 10)) ∷ [] }

get-passed_example :
    ((false ≡ false)
      × (earlier.t < 30000000)
      × (30000000 < earlier.t + 3600000000)
      × (Dict.get 2 (passed (some earlier) 30000000 false ((2, (4, 40)) ∷ [])) ≡ some (10, 30)))
    ⊎ (((false ≢ false) ⊎ ((30000000 ≤ earlier.t) ⊎ (earlier.t + 3600000000 ≤ 30000000)))
        × (passed (some earlier) 30000000 false ((2, (4, 40)) ∷ []) ≡ []))
unfolding Dict.get
get-passed_example =
    get-passed earlier 30000000 false ((2, (4, 40)) ∷ []) 2 4294967290 10 10 30 (omega arith)
      (omega arith) refl refl

abbrev secured : V3
secured = record {
  user = "noc";
  auth_proto = "sha";
  auth_key = some "secret";
  priv_proto = "aes";
  priv_key = none;
}

abbrev quoted : String → String
quoted s = s

usm_of-IsProtected_example :
    ((u : Usm) × (usm_of quoted secured ≡ inr u) × IsProtected sha aes secured u)
    ⊎ (LacksKey sha aes secured
        × ((f : Failure) × (usm_of quoted secured ≡ inl f) × (f.kind ≡ "ValueError")))
usm_of-IsProtected_example = usm_of-IsProtected quoted secured sha aes refl refl

-- an agent that never answers, and one with one row in every table
abbrev silence : Response
silence = record { err_ind = some "No SNMP response"; err_status = none; var_binds = [] }

abbrev silent_agent : Agent
silent_agent = record { got = λ oids. silence; walked = λ oid. silence ∷ [] }

abbrev one_row : Response
one_row = record {
  err_ind = none;
  err_status = none;
  var_binds =
      (
        "1.3.6.1.2.1.4.22.1.2.1.10.0.0.9",
        record { number = none; text = ""; octets = some (1 ∷ 2 ∷ 3 ∷ []); is_missing = false },
      )
      ∷ [];
}

abbrev small_agent : Agent
small_agent = record { got = λ oids. one_row; walked = λ oid. one_row ∷ [] }

inventory_within_example :
    (length (cat (inv_mac_table shown small_agent)) ≤ 1000)
    × (length (cat (inv_arp shown small_agent)) ≤ 1000)
    × (length (inv_routes shown small_agent) ≤ 500)
inventory_within_example = inventory_within shown shown small_agent (λ oid. (omega arith, tt))

abbrev polled : World
polled =
    (update_device known_host 7 9 1
      (set_snmp_enabled true ∷ set_snmp_community (some "public") ∷ []) site).1

-- a collector that polls by SNMP
abbrev polling : Settings
polling = record default_settings { snmp_enabled = true }

snmp_tick-IsLive_example :
    IsLive
      (snmp_tick quoted shown
        (λ f. "{}")
        (λ session. silent_agent)
        (λ id. 60)
        (λ id. 70)
        (λ id w. w)
        polling
        (polled, [])).0
snmp_tick-IsLive_example =
    snmp_tick-IsLive quoted shown (λ f. "{}") (λ session. silent_agent) (λ id. 60) (λ id. 70)
      (λ id w. w) polling polled [] (λ id v h. h)
      (λ k. ap live (
        update_device-IsCoherent known_host 7 9 1
          (set_snmp_enabled true ∷ set_snmp_community (some "public") ∷ []) site site-IsCoherent k))

-- a subnet with the switch and another host, both of which answer
abbrev sweeping : Settings
sweeping = record default_settings { discovery_subnets = "10.0.0.0/30" }

abbrev two_hosts : String → Option (List String)
two_hosts part = some ("10.0.0.1" ∷ "10.0.0.9" ∷ [])

abbrev answers : String → Option Reply
answers ip = some record { alive = true; rtt = some 900; sent = 3; received = 3 }

run_sweep-IsProposal_example :
    IsProposal 50
      (unknown_to (map device_ip site.devices))
      site.discovered
      (run_sweep two_hosts answers (λ ip. none) (λ ip. 77) sweeping 50 (λ w. w) site).1.discovered
unfolding subnets
run_sweep-IsProposal_example =
    run_sweep-IsProposal two_hosts answers (λ ip. none) (λ ip. 77) sweeping 50 (λ w. w) site refl

-- the same host in two overlapping subnets
abbrev seen : Hit
seen = record { ip = "10.0.0.9"; rtt = some 900; hostname = none }

record_sweep-distinct_example :
    ((distinct (fresh (map hit_ip (seen ∷ seen ∷ [])) (map row_ip site.discovered)) ≡ true)
      × ((record_sweep (λ ip. 77) 50 2 (seen ∷ seen ∷ []) site).0
          ≡ inr record {
            swept = 2;
            alive = length (seen ∷ seen ∷ []);
            new = length (fresh (map hit_ip (seen ∷ seen ∷ [])) (map row_ip site.discovered));
          })
      × (map row_ip (record_sweep (λ ip. 77) 50 2 (seen ∷ seen ∷ []) site).1.discovered
          ≡ map row_ip site.discovered
            ++ fresh (map hit_ip (seen ∷ seen ∷ [])) (map row_ip site.discovered)))
    ⊎ ((distinct (fresh (map hit_ip (seen ∷ seen ∷ [])) (map row_ip site.discovered)) ≡ false)
        × (record_sweep (λ ip. 77) 50 2 (seen ∷ seen ∷ []) site ≡ (inl integrity_error, site)))
record_sweep-distinct_example = record_sweep-distinct (λ ip. 77) 50 2 (seen ∷ seen ∷ []) site refl

abbrev probed : World
probed = record site {
  ping_history =
      record { ts = 40; device_id = 1; success = true; rtt = none; sent = 3; received = 3 }
      ∷ record { ts = 41; device_id = 2; success = false; rtt = none; sent = 3; received = 0 }
      ∷ [];
}

compute-sums_example :
    (sum_of (λ (r : RegionSla). r.samples) (compute text_less 30 "week" probed).regions
      ≡ sum_of (λ (d : DeviceSla). d.samples) (compute text_less 30 "week" probed).devices)
    × (sum_of (λ (r : RegionSla). r.devices) (compute text_less 30 "week" probed).regions
        ≡ length probed.devices)
compute-sums_example = compute-sums text_less 30 "week" probed
