-- ===== src/Snmp/Inventory.antt =====
-- `inventory_device` of backend/app/services/snmp_collector.py. `repr`, `show` and `hex` print texts and
-- numbers, `network` is the agent that a session reaches.
use network_monitoring.Prelude.{
  ℕ, String, inl, inr, Option, none, some, List, [], ◌∷◌, ◌++◌, ◌==◌, if◌then◌else◌, nat_eq,
  string_eq,
}
use network_monitoring.Device.{Device}
use network_monitoring.Snmp.{Poll, Agent}
use network_monitoring.Snmp.Session.{Session, device_session, lacks_credentials}
use network_monitoring.Snmp.Collect.{explained, snmp_row}
use network_monitoring.Snmp.System.{
  System, Resources, Storage, inv_system, inv_resources, inv_storage,
}
use network_monitoring.Snmp.Hardware.{
  InvInterface, Sensor, Ups, inv_interfaces, inv_sensors, inv_ups,
}
use network_monitoring.Snmp.Tables.{
  MacRow, ArpRow, Route, inv_vlans, inv_mac_table, inv_arp, inv_routes, inv_qos, inv_vpn,
  inv_wireless,
}

pub record Data : Type 0 where
  pub system : System
  pub resources : Resources
  pub storage : List Storage
  pub interfaces : List InvInterface
  pub sensors : List Sensor
  pub vlans : List (ℕ × Option String)
  pub mac_table : List MacRow
  pub arp : List ArpRow
  pub routes : List Route
  pub qos : List (String × Option String)
  pub vpn : List (Option String × String)
  pub wireless : List (Option String)
  pub ups : Option Ups

pub record Inventory : Type 0 where
  pub status : String
  pub detail : Option String
  pub data_ : Option Data
  pub categories_with_data : List String

-- `await cat(...) or []`
abbrev pub cat : {A : Type 0} → Poll (List A) → List A
cat (inl f) = []
cat (inr rows) = rows

abbrev listed : {A : Type 0} → String → List A → List String
listed key [] = []
listed key (x ∷ xs) = key ∷ []

abbrev ups_listed : Option Ups → List String
ups_listed none = []
ups_listed (some u) = "ups" ∷ []

-- the resources are a dict with three keys, which is never empty
unfoldable pub present : Data → List String
present d =
    "system"
    ∷ "resources"
    ∷ (listed "storage" d.storage
        ++ (listed "interfaces" d.interfaces
            ++ (listed "sensors" d.sensors
                ++ (listed "vlans" d.vlans
                    ++ (listed "mac_table" d.mac_table
                        ++ (listed "arp" d.arp
                            ++ (listed "routes" d.routes
                                ++ (listed "qos" d.qos
                                    ++ (listed "vpn" d.vpn
                                        ++ (listed "wireless" d.wireless
                                            ++ ups_listed d.ups))))))))))

abbrev failed : String → String → Inventory
failed status detail = record {
  status = status;
  detail = some detail;
  data_ = none;
  categories_with_data = [];
}

module _ (repr : String → String) (show hex : ℕ → String) where
  unfoldable pub gather : Agent → System → Data
  unfolding inv_resources inv_storage inv_interfaces inv_sensors inv_vlans inv_mac_table inv_arp
      inv_routes inv_qos inv_vpn inv_wireless inv_ups
  gather a system = record {
    system = system;
    resources = inv_resources a;
    storage = cat (inv_storage a);
    interfaces = cat (inv_interfaces hex a);
    sensors = inv_sensors show a;
    vlans = inv_vlans a;
    mac_table = cat (inv_mac_table hex a);
    arp = cat (inv_arp hex a);
    routes = inv_routes show a;
    qos = inv_qos a;
    vpn = inv_vpn a;
    wireless = inv_wireless a;
    ups = inv_ups a;
  }

  unfoldable pub inventory_of : Agent → Inventory
  unfolding inv_system gather present
  inventory_of a = elim (inv_system show a) [
    | inl f ↦ failed (if f.kind == "TimeoutError" then "timeout" else "error") (explained f)
    | inr system ↦
        let found = gather a system in
        record {
          status = "ok";
          detail = none;
          data_ = some found;
          categories_with_data = present found;
        }
  ]

  -- a ValueError of the constructor is answered, any other leaves the function
  unfoldable pub inventory_device : (Session → Agent) → Option Device → Poll (Option Inventory)
  unfolding snmp_row lacks_credentials device_session inventory_of
  inventory_device network row = elim (snmp_row row) [
    | none ↦ inr none
    | some d ↦
        if lacks_credentials d
        then inr (some (failed "error" "SNMP credentials not set"))
        else elim (device_session repr d) [
          | inl f ↦ if f.kind == "ValueError" then inr (some (failed "error" f.text)) else inl f
          | inr session ↦ inr (some (inventory_of (network session)))
        ]
  ]
