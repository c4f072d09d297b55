-- ===== src/Tests/Devices.antt =====
-- The device routes and the snapshot on the two devices of the fixtures.
use network_monitoring.Dict
use network_monitoring.Table
use network_monitoring.World.{World, went_offline}
use network_monitoring.Settings.{Settings, seconds}
use network_monitoring.Settings.{seconds, default_settings}
use network_monitoring.Device.{serialize_device}
use network_monitoring.DeviceFields.{
  set_field, set_fields, set_parent_id, set_vendor_name, set_ip_address,
}
use network_monitoring.StateCache.Coherence.{device_id, IsCoherent, IsLive}
use network_monitoring.Parents.{refuse, walk, validate_parent, validate_parent-is_some}
use network_monitoring.Parents.Forest.{IsForest}
use network_monitoring.Devices.{DeviceCreate, create_device, update_device}
use network_monitoring.Devices.Actions.{delete_device}
use network_monitoring.Devices.Forest.{update_device-IsForest}
use network_monitoring.Devices.Growth.{create_device-IsForest}
use network_monitoring.Devices.Deletion.{delete_device-IsLive, delete_device_stale_parent}
use network_monitoring.Alerts.{
  outage_started_at, Notice, too_early, parent_down, in_alarm, carry_out, marked, decide,
  alert_rows, alert_tick,
}
use network_monitoring.Alerts.Snapshot.{alert_tick-IsCoherent}
use network_monitoring.Tests.Fixtures.{
  switch, server, site, site-IsCoherent, site-IsLive, site-IsForest, site-HasParents,
}
use network_monitoring.Prelude.{
  ℕ, String, refl, inr, true, false, none, some, [], map, arith, is_some, ◌≡◌, ◌⊎◌, ◌∷◌, nat_eq,
  string_eq,
}

-- every host is an address already
abbrev literal : String → String ⊎ String
literal host = inr host

abbrev shown_number : ℕ → String
shown_number n = "15"

abbrev camera : DeviceCreate
camera = record {
  vendor_name = "camera";
  ip_address = "10.0.0.3";
  others = set_parent_id (some 2) ∷ [];
}

-- the switch may not go behind the server, which stands behind it
cycle_refused :
    validate_parent site.devices (some 1) (some 2)
    ≡ some (some (refuse 422 "This parent would create a dependency cycle"))
unfolding validate_parent walk Table.find
cycle_refused = refl

cycle_kept_out : (update_device literal 7 60 1 (set_parent_id (some 2) ∷ []) site).1 ≡ site
unfolding update_device validate_parent walk Table.find set_fields
cycle_kept_out = refl

address_taken :
    (update_device literal 7 60 1 (set_ip_address "10.0.0.2" ∷ []) site).1.devices ≡ site.devices
unfolding update_device Table.find set_fields set_field
address_taken = refl

validate_parent-is_some_example : is_some (validate_parent site.devices (some 1) (some 2)) ≡ true
validate_parent-is_some_example = validate_parent-is_some site.devices (some 1) (some 2)

update_device-IsForest_example :
    IsForest
      (update_device literal 7 60 1
        (set_parent_id (some 2) ∷ set_vendor_name "core" ∷ [])
        site).1.devices
update_device-IsForest_example =
    update_device-IsForest literal 7 60 1 (set_parent_id (some 2) ∷ set_vendor_name "core" ∷ [])
      site site-IsForest

create_device-IsForest_example : IsForest (create_device literal 7 60 3 camera site).1.devices
unfolding Table.find
create_device-IsForest_example =
    create_device-IsForest literal 7 60 3 camera site site-HasParents refl site-IsForest

delete_device-IsLive_example : IsLive (delete_device 7 1 site).1
delete_device-IsLive_example = delete_device-IsLive 7 1 site site-IsLive

delete_device_stale_parent_example :
    (let w' = (delete_device 7 1 site).1 in
      (Dict.get 2 w'.cache ≡ some (serialize_device server))
      × ((serialize_device server).parent_id ≡ some 1)
      × (Table.find device_id 2 w'.devices ≡ some (record server { parent_id = none })))
unfolding Table.find
delete_device_stale_parent_example =
    delete_device_stale_parent 7 1 2 site switch server site-IsCoherent refl refl (omega arith) refl

-- the server went down at the start, and its alarm is sent
abbrev outage : World
outage = record site {
  event_logs = record { device_id = 2; event_type = went_offline; created_at = 0 } ∷ [];
}

abbrev every_device : Settings
every_device = record default_settings { alert_critical_only = false }

outage_alarmed :
    map
      (λ (n : Notice). n.kind)
      (alert_tick every_device (λ c. some true) (seconds 600) (outage, [])).1
    ≡ "alarm" ∷ []
unfolding alert_tick alert_rows decide marked carry_out in_alarm parent_down too_early
    outage_started_at seconds Table.find
outage_alarmed = refl

alert_tick-IsCoherent_example :
    IsCoherent (alert_tick every_device (λ c. some true) (seconds 600) (outage, [])).0
alert_tick-IsCoherent_example =
    alert_tick-IsCoherent every_device (λ c. some true) (seconds 600) outage [] site-IsCoherent
