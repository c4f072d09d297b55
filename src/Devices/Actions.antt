-- ===== src/Devices/Actions.antt =====
-- The actions on one device of backend/app/api/routes/devices.py: simulate, acknowledge, mute,
-- maintenance and delete, the manual ping and the traceroute.
use network_monitoring.Table
use network_monitoring.Text.{concat}
use network_monitoring.Settings.{Settings, seconds}
use network_monitoring.Device.{
  Device, DeviceStatus, online, offline, unknown, serialize_device, is_online, same_status,
}
use network_monitoring.World.{World, EventLog, came_online, went_offline, add_audit}
use network_monitoring.StateCache.{upsert_device, remove_device, update_and_publish}
use network_monitoring.StateCache.Coherence.{device_id}
use network_monitoring.Devices.{Answer, not_found, shown_name, save}
use network_monitoring.Prelude.{
  ℕ, zero, suc, String, inl, inr, Bool, not, Option, none, some, List, [], map, nat_beq, keep, ◌+◌,
  ◌-◌, ◌*◌, ◌||◌, ◌∷◌, ◌++◌, if◌then◌else◌, nat_eq, string_eq,
}

abbrev status_name : DeviceStatus → String
status_name online = "online"
status_name offline = "offline"
status_name unknown = "unknown"

-- the row after the simulation
unfoldable pub simulated : Settings → ℕ → DeviceStatus → Device → Device
simulated s now status d = record d {
  last_checked_at = some now;
  current_status = status;
  consecutive_failures = if is_online status then 0 else s.flap_threshold;
  updated_at = now;
}

-- the event of a change of status
abbrev edge : ℕ → DeviceStatus → Device → List EventLog
edge now status d =
    if same_status status d.current_status
    then []
    else record {
      device_id = d.id;
      event_type = if is_online status then came_online else went_offline;
      created_at = now;
    }
      ∷ []

-- the row, the event and the audit row of one commit, then the snapshot, and the bus on a change
unfoldable pub simulate_row : Settings → ℕ → ℕ → DeviceStatus → Device → World → World
unfolding simulated add_audit upsert_device update_and_publish
simulate_row s user now status d w =
    let d' = simulated s now status d in
    let logged =
      add_audit (some user) "device.simulate" (some "device") (some d.id)
        (some (concat ("→ " ∷ status_name status ∷ []))) w in
    let saved = record logged {
      devices = Table.replace device_id d' w.devices;
      event_logs = w.event_logs ++ edge now status d;
    } in
    if same_status status d.current_status
    then upsert_device (serialize_device d') saved
    else update_and_publish (serialize_device d') status (some now) saved

unfoldable pub simulate_device_status :
    Settings → ℕ → ℕ → ℕ → DeviceStatus → World → Answer Device × World
unfolding simulate_row
simulate_device_status s user now k status w = elim (Table.find device_id k w.devices) [
  | none ↦ (inl not_found, w)
  | some d ↦ (inr (simulated s now status d), simulate_row s user now status d w)
]

-- `_get_or_404`, a change of the row, its audit row, the commit and the snapshot
unfoldable pub edit_row :
    ℕ → String → Option String → (Device → Device) → ℕ → World → Answer Device × World
unfolding save
edit_row user action detail change k w = elim (Table.find device_id k w.devices) [
  | none ↦ (inl not_found, w)
  | some d ↦ (inr (change d), save (some user) action detail (change d) w)
]

abbrev pub acked : ℕ → Device → Device
acked now d = record d { alarm_acked_at = some now; updated_at = now }

unfoldable pub ack_device : ℕ → ℕ → ℕ → World → Answer Device × World
unfolding edit_row
ack_device user now k w = edit_row user "device.ack" none (acked now) k w

abbrev pub muted_as : Bool → ℕ → Device → Device
muted_as muted now d = record d { is_muted = muted; updated_at = now }

unfoldable pub mute_device : ℕ → ℕ → ℕ → Bool → World → Answer Device × World
unfolding edit_row
mute_device user now k muted w =
    edit_row user "device.mute" (some (if muted then "muted" else "unmuted")) (muted_as muted now) k
      w

-- `minutes` above 0; null, zero and a negative number clear the maintenance
abbrev pub maintained : Option ℕ → ℕ → Device → Device
maintained minutes now d = record d {
  maintenance_until = elim minutes [
    | none ↦ none
    | some m ↦ if nat_beq m 0 then none else some (now + seconds (60 * m))
  ];
  updated_at = now;
}

-- `show` prints a number
abbrev pub maintenance_detail : (ℕ → String) → Option ℕ → String
maintenance_detail show none = "cleared"
maintenance_detail show (some m) = if nat_beq m 0 then "cleared" else concat (show m ∷ "m" ∷ [])

unfoldable pub maintenance_device :
    (ℕ → String) → ℕ → ℕ → ℕ → Option ℕ → World → Answer Device × World
unfolding edit_row
maintenance_device show user now k minutes w =
    edit_row user "device.maintenance" (some (maintenance_detail show minutes))
      (maintained minutes now) k w

-- ondelete="SET NULL" of devices.parent_id
abbrev pub orphaned : ℕ → Device → Device
orphaned k d = record d {
  parent_id = elim d.parent_id [ none ↦ none | some p ↦ if nat_beq p k then none else some p ];
}

-- The deletion of the row: its events and links go with it, its children lose their parent.
unfoldable pub delete_row : ℕ → World → World
delete_row k w = record w {
  devices = map (orphaned k) (Table.delete device_id k w.devices);
  event_logs = keep (λ e. not (nat_beq e.device_id k)) w.event_logs;
  device_links = keep (λ l. not (nat_beq l.source_id k || nat_beq l.target_id k)) w.device_links;
}

unfoldable pub delete_device : ℕ → ℕ → World → Answer Unit × World
unfolding add_audit delete_row remove_device
delete_device user k w = elim (Table.find device_id k w.devices) [
  | none ↦ (inl not_found, w)
  | some d ↦ (
    inr tt,
    remove_device k (
        delete_row k
          (add_audit (some user) "device.delete" (some "device") (some k) (some (shown_name d)) w)),
  )
]

-- a hop that icmplib reports: its distance, its address, if it answered, and its average
-- round trip as `round(…, 2)` gives it
pub record Hop : Type 0 where
  pub distance : ℕ
  pub address : String
  pub is_alive : Bool
  pub avg_rtt : ℕ

pub record TraceHop : Type 0 where
  pub distance : ℕ
  pub address : Option String
  pub rtt : Option ℕ

-- range(first, first + count), each with no address
abbrev gaps : ℕ → ℕ → List TraceHop
gaps first zero = []
gaps first (suc count) =
    record { distance = first; address = none; rtt = none } ∷ gaps (suc first) count

-- the loop of `traceroute_device`
unfoldable pub fill_hops : ℕ → List Hop → List TraceHop
fill_hops last [] = []
fill_hops last (h ∷ hs) =
    gaps (last + 1) (h.distance - (last + 1))
    ++ record {
      distance = h.distance;
      address = some h.address;
      rtt = if h.is_alive then some h.avg_rtt else none;
    }
      ∷ fill_hops h.distance hs
