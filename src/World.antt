-- ===== src/World.antt =====
-- What the handlers and loops share: the tables of the database (backend/app/models) and the
-- keys of Redis (backend/app/services/state_cache.py). The server's `now()` in a default or an
-- `onupdate` is the time that the handler read.
use network_monitoring.Dict.{Dict}
use network_monitoring.Device.{Device, DeviceRead, DeviceStatus}
use network_monitoring.Prelude.{
  ℕ, String, Bool, Option, none, List, [], ◌∷◌, ◌++◌, nat_eq, string_eq,
}

pub data EventType : Type 0 where
  came_online went_offline : EventType

-- models/event_log.py
pub record EventLog : Type 0 where
  pub device_id : ℕ
  pub event_type : EventType
  pub created_at : ℕ

-- models/ping_history.py; a round-trip time is a number of microseconds
pub record PingHistory : Type 0 where
  pub ts : ℕ
  pub device_id : ℕ
  pub success : Bool
  pub rtt : Option ℕ
  pub sent : ℕ
  pub received : ℕ

-- models/audit_log.py: `user` stands for user_id and user_email; created_at is left out
pub record AuditLog : Type 0 where
  pub user : Option ℕ
  pub action : String
  pub target_type : Option String
  pub target_id : Option ℕ
  pub detail : Option String

-- models/device_link.py
pub record DeviceLink : Type 0 where
  pub id : ℕ
  pub source_id : ℕ
  pub target_id : ℕ
  pub kind : String
  pub label : Option String
  pub created_by : Option ℕ
  pub created_at : ℕ

-- models/discovered.py
pub record DiscoveredDevice : Type 0 where
  pub id : ℕ
  pub ip_address : String
  pub hostname : Option String
  pub rtt : Option ℕ
  pub status : String
  pub first_seen : ℕ
  pub last_seen : ℕ

-- models/snmp_history.py; percentages are in tenths
pub record SnmpHistory : Type 0 where
  pub ts : ℕ
  pub device_id : ℕ
  pub cpu_percent : Option ℕ
  pub mem_percent : Option ℕ
  pub in_bps : Option ℕ
  pub out_bps : Option ℕ

-- the payload of `status:changes`
pub record Change : Type 0 where
  pub device_id : ℕ
  pub status : DeviceStatus
  pub last_checked_at : Option ℕ

pub record World : Type 0 where
  pub devices : List Device
  pub event_logs : List EventLog
  pub ping_history : List PingHistory
  pub snmp_history : List SnmpHistory
  pub audit_logs : List AuditLog
  pub device_links : List DeviceLink
  pub discovered : List DiscoveredDevice
  -- devices:full, devices:schema_version, status:changes, collector:heartbeat
  pub cache : Dict ℕ DeviceRead
  pub cache_version : Option String
  pub published : List Change
  pub heartbeat : Option ℕ

abbrev pub empty_world : World
empty_world = record {
  devices = [];
  event_logs = [];
  ping_history = [];
  snmp_history = [];
  audit_logs = [];
  device_links = [];
  discovered = [];
  cache = [];
  cache_version = none;
  published = [];
  heartbeat = none;
}

-- `add_audit` of services/audit.py; the caller commits
unfoldable pub add_audit :
    Option ℕ → String → Option String → Option ℕ → Option String → World → World
add_audit user action target_type target_id detail w = record w {
  audit_logs =
      w.audit_logs
      ++ record {
        user = user;
        action = action;
        target_type = target_type;
        target_id = target_id;
        detail = detail;
      }
        ∷ [];
}
