-- ===== src/Device.antt =====
-- backend/app/models/device.py and backend/app/schemas/device.py: the device row, and the shape in
-- which the API and the snapshot cache show it. Identifiers (UUIDs) are numbers; a latitude or
-- longitude is a number of millionths of a degree (Numeric(9, 6)).
use network_monitoring.Prelude.Int.{ℤ}
use network_monitoring.Prelude.{ℕ, String, Bool, true, false, Option, nat_eq, string_eq}

pub data DeviceStatus : Type 0 where
  online offline unknown : DeviceStatus

pub data DeviceType : Type 0 where
  router switch server firewall access_point other : DeviceType

pub record Device : Type 0 where
  pub id : ℕ
  pub vendor_name : String
  pub ip_address : String
  pub model_name : Option String
  pub description : Option String
  pub location_text : Option String
  pub device_type : DeviceType
  pub latitude : Option ℤ
  pub longitude : Option ℤ
  pub current_status : DeviceStatus
  pub consecutive_failures : ℕ
  pub last_checked_at : Option ℕ
  pub is_enabled : Bool
  pub is_critical : Bool
  pub ssh_enabled : Bool
  pub ssh_port : ℕ
  pub ssh_username : Option String
  pub ssh_password : Option String
  pub ssh_status : String
  pub ssh_hostname : Option String
  pub ssh_uptime : Option String
  pub ssh_facts : Option String
  pub ssh_collected_at : Option ℕ
  pub snmp_enabled : Bool
  pub snmp_port : ℕ
  pub snmp_community : Option String
  pub snmp_version : String
  pub snmp_v3_user : Option String
  pub snmp_v3_auth_proto : String
  pub snmp_v3_auth_key : Option String
  pub snmp_v3_priv_proto : String
  pub snmp_v3_priv_key : Option String
  pub snmp_status : String
  pub snmp_facts : Option String
  pub snmp_collected_at : Option ℕ
  pub parent_id : Option ℕ
  pub maintenance_until : Option ℕ
  pub is_muted : Bool
  pub alarm_acked_at : Option ℕ
  pub alert_notified_at : Option ℕ
  pub check_tcp_port : Option ℕ
  pub check_http_url : Option String
  pub check_http_expect : Option ℕ
  pub service_ok : Option Bool
  pub service_detail : Option String
  pub created_by : ℕ
  pub created_at : ℕ
  pub updated_at : ℕ

-- DeviceRead with the fields of DeviceBase
pub record DeviceRead : Type 0 where
  pub vendor_name : String
  pub ip_address : String
  pub model_name : Option String
  pub description : Option String
  pub location_text : Option String
  pub device_type : DeviceType
  pub is_critical : Bool
  pub is_enabled : Bool
  pub latitude : Option ℤ
  pub longitude : Option ℤ
  pub ssh_enabled : Bool
  pub ssh_port : ℕ
  pub ssh_username : Option String
  pub snmp_enabled : Bool
  pub snmp_port : ℕ
  pub snmp_version : String
  pub snmp_v3_user : Option String
  pub snmp_v3_auth_proto : String
  pub snmp_v3_priv_proto : String
  pub parent_id : Option ℕ
  pub check_tcp_port : Option ℕ
  pub check_http_url : Option String
  pub check_http_expect : Option ℕ
  pub id : ℕ
  pub current_status : DeviceStatus
  pub last_checked_at : Option ℕ
  pub maintenance_until : Option ℕ
  pub is_muted : Bool
  pub alarm_acked_at : Option ℕ
  pub service_ok : Option Bool
  pub service_detail : Option String
  pub ssh_status : String
  pub ssh_hostname : Option String
  pub ssh_uptime : Option String
  pub ssh_facts : Option String
  pub ssh_collected_at : Option ℕ
  pub snmp_status : String
  pub snmp_facts : Option String
  pub snmp_collected_at : Option ℕ
  pub created_by : ℕ
  pub created_at : ℕ
  pub updated_at : ℕ

unfoldable pub serialize_device : Device → DeviceRead
serialize_device d = record {
  vendor_name = d.vendor_name;
  ip_address = d.ip_address;
  model_name = d.model_name;
  description = d.description;
  location_text = d.location_text;
  device_type = d.device_type;
  is_critical = d.is_critical;
  is_enabled = d.is_enabled;
  latitude = d.latitude;
  longitude = d.longitude;
  ssh_enabled = d.ssh_enabled;
  ssh_port = d.ssh_port;
  ssh_username = d.ssh_username;
  snmp_enabled = d.snmp_enabled;
  snmp_port = d.snmp_port;
  snmp_version = d.snmp_version;
  snmp_v3_user = d.snmp_v3_user;
  snmp_v3_auth_proto = d.snmp_v3_auth_proto;
  snmp_v3_priv_proto = d.snmp_v3_priv_proto;
  parent_id = d.parent_id;
  check_tcp_port = d.check_tcp_port;
  check_http_url = d.check_http_url;
  check_http_expect = d.check_http_expect;
  id = d.id;
  current_status = d.current_status;
  last_checked_at = d.last_checked_at;
  maintenance_until = d.maintenance_until;
  is_muted = d.is_muted;
  alarm_acked_at = d.alarm_acked_at;
  service_ok = d.service_ok;
  service_detail = d.service_detail;
  ssh_status = d.ssh_status;
  ssh_hostname = d.ssh_hostname;
  ssh_uptime = d.ssh_uptime;
  ssh_facts = d.ssh_facts;
  ssh_collected_at = d.ssh_collected_at;
  snmp_status = d.snmp_status;
  snmp_facts = d.snmp_facts;
  snmp_collected_at = d.snmp_collected_at;
  created_by = d.created_by;
  created_at = d.created_at;
  updated_at = d.updated_at;
}

abbrev pub is_online : DeviceStatus → Bool
is_online online = true
is_online _ = false

abbrev pub is_offline : DeviceStatus → Bool
is_offline offline = true
is_offline _ = false

-- `a == b` on statuses
abbrev pub same_status : DeviceStatus → DeviceStatus → Bool
same_status online online = true
same_status offline offline = true
same_status unknown unknown = true
same_status _ _ = false
