-- ===== src/Ping.antt =====
-- backend/app/services/ping_scheduler.py: one check of one device. The parts that run on their own
-- have modules of their own: the probe, the schedule, and the proofs.
pub mod Probe
pub mod Schedule
pub mod Verdict
pub mod Outages
pub mod Snapshot
use network_monitoring.Dict
use network_monitoring.Dict.{Dict}
use network_monitoring.Table
use network_monitoring.Text.{first_chars, join, truthy, nonzero, number_or}
use network_monitoring.Settings.{Settings, seconds}
use network_monitoring.Device.{
  Device, DeviceStatus, online, offline, unknown, is_online, same_status, serialize_device,
}
use network_monitoring.World.{World, EventType, came_online, went_offline}
use network_monitoring.StateCache.{upsert_device, update_and_publish}
use network_monitoring.StateCache.Coherence.{device_id}
use network_monitoring.Prelude.{
  ℕ, String, Bool, true, false, not, Option, none, some, List, [], map, leb, all, ◌+◌, ◌||◌, ◌∷◌,
  ◌++◌, ◌==◌, if◌then◌else◌, nat_eq, string_eq,
}

-- `_schedule` and `_volatile_until`
pub record Cadence : Type 0 where
  pub schedule : Dict ℕ ℕ
  pub volatile_until : Dict ℕ ℕ

-- What phase 1 reads before the connection is released.
pub record CheckConfig : Type 0 where
  pub ip : String
  pub check_tcp_port : Option ℕ
  pub check_http_url : Option String
  pub check_http_expect : Option ℕ

unfoldable pub config_of : Device → CheckConfig
config_of d = record {
  ip = d.ip_address;
  check_tcp_port = d.check_tcp_port;
  check_http_url = d.check_http_url;
  check_http_expect = d.check_http_expect;
}

-- device is None or not device.is_enabled
abbrev pub enabled_row : Option Device → Option Device
enabled_row none = none
enabled_row (some d) = if d.is_enabled then some d else none

-- What phase 2 found out, and the two clocks as phase 3 reads them.
pub record Check : Type 0 where
  pub alive : Bool
  pub rtt : Option ℕ
  pub sent : ℕ
  pub received : ℕ
  pub has_service_check : Bool
  pub service_ok : Option Bool
  pub service_detail : Option String
  pub now : ℕ
  pub mono : ℕ

-- The TCP and HTTP conditions; `tcp` and `http` are the answers of services/checks.py.
service_results :
    (String → ℕ → Bool × String) → (String → ℕ → Bool × String) → CheckConfig → List (Bool × String)
service_results tcp http c =
    (if nonzero c.check_tcp_port then tcp c.ip (number_or c.check_tcp_port 0) ∷ [] else [])
    ++ elim c.check_http_url [
      | none ↦ []
      | some url ↦ if url == "" then [] else http url (number_or c.check_http_expect 200) ∷ []
    ]

unfoldable pub service_check :
    (String → ℕ → Bool × String)
    → (String → ℕ → Bool × String)
    → CheckConfig
    → Bool × Option Bool × Option String
unfolding service_results
service_check tcp http c =
    let results = service_results tcp http c in
    if nonzero c.check_tcp_port || truthy c.check_http_url
    then (
      true,
      some (all (λ r. r.0) results),
      some (first_chars 255 (join "; " (map (λ r. r.1) results))),
    )
    else (false, none, none)

-- The state machine: the new failure count and the new status.
unfoldable pub judge : Settings → Bool → ℕ → ℕ × DeviceStatus
judge s true failures = (0, online)
judge s false failures =
    (failures + 1, if leb s.flap_threshold (failures + 1) then offline else unknown)

-- Only the hard edges are events.
abbrev pub edge_event : DeviceStatus → List EventType
edge_event online = came_online ∷ []
edge_event offline = went_offline ∷ []
edge_event unknown = []

abbrev pub same_service : Option Bool → Option Bool → Bool
same_service none none = true
same_service (some true) (some true) = true
same_service (some false) (some false) = true
same_service _ _ = false

-- The attributes that phase 3 sets on the row, and the events that it adds.
unfoldable pub observe : Settings → Check → Device → Device × List EventType
unfolding judge
observe s c d =
    let (failures, new_status) = judge s c.alive d.consecutive_failures in
    let d' = record d {
      last_checked_at = some c.now;
      consecutive_failures = failures;
      service_ok = if c.has_service_check then c.service_ok else none;
      service_detail = if c.has_service_check then c.service_detail else none;
      alarm_acked_at = if is_online new_status then none else d.alarm_acked_at;
      updated_at = c.now;
    } in
    if same_status new_status d.current_status
    then (d', [])
    else (record d' { current_status = new_status }, edge_event new_status)

-- The device is probed fast while it is unsettled or has just changed.
unfoldable pub unsettle : Settings → Check → DeviceStatus → DeviceStatus → ℕ → Cadence → Cadence
unsettle s c new_status prev_status id cad =
    if not (is_online new_status) || not (same_status new_status prev_status)
    then record cad {
      volatile_until =
          Dict.put id (c.mono + seconds s.ping_volatile_window_seconds) cad.volatile_until;
    }
    else cad

-- Phase 3 on a row that is there and enabled.
unfoldable pub write_check : Settings → Check → Device → World → World
unfolding observe
write_check s c d w =
    let (d', events) = observe s c d in
    let saved = record w {
      devices = Table.replace device_id d' w.devices;
      ping_history =
          w.ping_history
          ++ record {
            ts = c.now;
            device_id = d.id;
            success = c.alive;
            rtt = c.rtt;
            sent = c.sent;
            received = c.received;
          }
            ∷ [];
      event_logs =
          w.event_logs
          ++ map (λ t. record { device_id = d.id; event_type = t; created_at = c.now }) events;
    } in
    if same_status d'.current_status d.current_status
    then (if same_service d'.service_ok d.service_ok
        then saved
        else upsert_device (serialize_device d') saved)
    else update_and_publish (serialize_device d') d'.current_status (some c.now) saved

unfoldable pub persist : Settings → Check → ℕ → World × Cadence → World × Cadence
unfolding write_check unsettle
persist s c id (w, cad) = elim (enabled_row (Table.find device_id id w.devices)) [
  | none ↦ (w, cad)
  | some d ↦
      (write_check s c d w, unsettle s c (observe s c d).0.current_status d.current_status id cad)
]

-- `_check_one`: phase 2 holds no connection, and `meanwhile` is what other tasks write during it.
unfoldable pub check_one :
    Settings → (CheckConfig → Check) → (World → World) → ℕ → World × Cadence → World × Cadence
unfolding persist config_of
check_one s probe meanwhile id (w, cad) = elim (enabled_row (Table.find device_id id w.devices)) [
  | none ↦ (w, cad)
  | some d ↦ persist s (probe (config_of d)) id (meanwhile w, cad)
]
