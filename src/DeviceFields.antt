-- ===== src/DeviceFields.antt =====
-- DeviceCreate and DeviceUpdate of backend/app/schemas/device.py: the fields that a request sets, in
-- the order of the schema (`model_dump(exclude_unset=True)`), and `setattr` of each. A null for a
-- column that takes none fails the commit and is no value here.
use network_monitoring.Prelude.Int.{ℤ}
use network_monitoring.Device.{Device, DeviceType, unknown, other}
use network_monitoring.Prelude.{
  ℕ, String, Bool, true, false, Option, none, some, List, [], ◌∷◌, nat_eq, string_eq,
}

pub data Field : Type 0 where
  set_vendor_name : String → Field
  set_ip_address : String → Field
  set_model_name : Option String → Field
  set_description : Option String → Field
  set_location_text : Option String → Field
  set_device_type : DeviceType → Field
  set_is_critical : Bool → Field
  set_is_enabled : Bool → Field
  set_latitude : Option ℤ → Field
  set_longitude : Option ℤ → Field
  set_ssh_enabled : Bool → Field
  set_ssh_port : ℕ → Field
  set_ssh_username : Option String → Field
  set_ssh_password : Option String → Field
  set_snmp_enabled : Bool → Field
  set_snmp_port : ℕ → Field
  set_snmp_community : Option String → Field
  set_snmp_version : String → Field
  set_snmp_v3_user : Option String → Field
  set_snmp_v3_auth_proto : String → Field
  set_snmp_v3_priv_proto : String → Field
  set_snmp_v3_auth_key : Option String → Field
  set_snmp_v3_priv_key : Option String → Field
  set_parent_id : Option ℕ → Field
  set_check_tcp_port : Option ℕ → Field
  set_check_http_url : Option String → Field
  set_check_http_expect : Option ℕ → Field

abbrev pub field_name : Field → String
field_name (set_vendor_name _) = "vendor_name"
field_name (set_ip_address _) = "ip_address"
field_name (set_model_name _) = "model_name"
field_name (set_description _) = "description"
field_name (set_location_text _) = "location_text"
field_name (set_device_type _) = "device_type"
field_name (set_is_critical _) = "is_critical"
field_name (set_is_enabled _) = "is_enabled"
field_name (set_latitude _) = "latitude"
field_name (set_longitude _) = "longitude"
field_name (set_ssh_enabled _) = "ssh_enabled"
field_name (set_ssh_port _) = "ssh_port"
field_name (set_ssh_username _) = "ssh_username"
field_name (set_ssh_password _) = "ssh_password"
field_name (set_snmp_enabled _) = "snmp_enabled"
field_name (set_snmp_port _) = "snmp_port"
field_name (set_snmp_community _) = "snmp_community"
field_name (set_snmp_version _) = "snmp_version"
field_name (set_snmp_v3_user _) = "snmp_v3_user"
field_name (set_snmp_v3_auth_proto _) = "snmp_v3_auth_proto"
field_name (set_snmp_v3_priv_proto _) = "snmp_v3_priv_proto"
field_name (set_snmp_v3_auth_key _) = "snmp_v3_auth_key"
field_name (set_snmp_v3_priv_key _) = "snmp_v3_priv_key"
field_name (set_parent_id _) = "parent_id"
field_name (set_check_tcp_port _) = "check_tcp_port"
field_name (set_check_http_url _) = "check_http_url"
field_name (set_check_http_expect _) = "check_http_expect"

-- setattr(device, field, value)
unfoldable pub set_field : Field → Device → Device
set_field (set_vendor_name v) d = record d { vendor_name = v }
set_field (set_ip_address v) d = record d { ip_address = v }
set_field (set_model_name v) d = record d { model_name = v }
set_field (set_description v) d = record d { description = v }
set_field (set_location_text v) d = record d { location_text = v }
set_field (set_device_type v) d = record d { device_type = v }
set_field (set_is_critical v) d = record d { is_critical = v }
set_field (set_is_enabled v) d = record d { is_enabled = v }
set_field (set_latitude v) d = record d { latitude = v }
set_field (set_longitude v) d = record d { longitude = v }
set_field (set_ssh_enabled v) d = record d { ssh_enabled = v }
set_field (set_ssh_port v) d = record d { ssh_port = v }
set_field (set_ssh_username v) d = record d { ssh_username = v }
set_field (set_ssh_password v) d = record d { ssh_password = v }
set_field (set_snmp_enabled v) d = record d { snmp_enabled = v }
set_field (set_snmp_port v) d = record d { snmp_port = v }
set_field (set_snmp_community v) d = record d { snmp_community = v }
set_field (set_snmp_version v) d = record d { snmp_version = v }
set_field (set_snmp_v3_user v) d = record d { snmp_v3_user = v }
set_field (set_snmp_v3_auth_proto v) d = record d { snmp_v3_auth_proto = v }
set_field (set_snmp_v3_priv_proto v) d = record d { snmp_v3_priv_proto = v }
set_field (set_snmp_v3_auth_key v) d = record d { snmp_v3_auth_key = v }
set_field (set_snmp_v3_priv_key v) d = record d { snmp_v3_priv_key = v }
set_field (set_parent_id v) d = record d { parent_id = v }
set_field (set_check_tcp_port v) d = record d { check_tcp_port = v }
set_field (set_check_http_url v) d = record d { check_http_url = v }
set_field (set_check_http_expect v) d = record d { check_http_expect = v }

unfoldable pub set_fields : List Field → Device → Device
unfolding set_field
set_fields [] d = d
set_fields (f ∷ fs) d = set_fields fs (set_field f d)

abbrev pub or_parent : Field → Option (Option ℕ) → Option (Option ℕ)
or_parent (set_parent_id p) none = some p
or_parent f rest = rest

-- `changes["parent_id"]`, if it is among the changes
abbrev pub parent_change : List Field → Option (Option ℕ)
parent_change [] = none
parent_change (f ∷ fs) = or_parent f (parent_change fs)

-- the row of a new device, with the defaults of the model
abbrev pub blank_device : ℕ → ℕ → ℕ → Device
blank_device id created_by now = record {
  id = id;
  vendor_name = "";
  ip_address = "";
  model_name = none;
  description = none;
  location_text = none;
  device_type = other;
  latitude = none;
  longitude = none;
  current_status = unknown;
  consecutive_failures = 0;
  last_checked_at = none;
  is_enabled = true;
  is_critical = false;
  ssh_enabled = false;
  ssh_port = 22;
  ssh_username = none;
  ssh_password = none;
  ssh_status = "unknown";
  ssh_hostname = none;
  ssh_uptime = none;
  ssh_facts = none;
  ssh_collected_at = none;
  snmp_enabled = false;
  snmp_port = 161;
  snmp_community = none;
  snmp_version = "2c";
  snmp_v3_user = none;
  snmp_v3_auth_proto = "sha";
  snmp_v3_auth_key = none;
  snmp_v3_priv_proto = "aes";
  snmp_v3_priv_key = none;
  snmp_status = "unknown";
  snmp_facts = none;
  snmp_collected_at = none;
  parent_id = none;
  maintenance_until = none;
  is_muted = false;
  alarm_acked_at = none;
  alert_notified_at = none;
  check_tcp_port = none;
  check_http_url = none;
  check_http_expect = none;
  service_ok = none;
  service_detail = none;
  created_by = created_by;
  created_at = now;
  updated_at = now;
}
