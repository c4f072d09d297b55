-- ===== src/Snmp/Session.antt =====
-- `_Snmp.__init__` of backend/app/services/snmp_collector.py: what a session authenticates with.
-- `repr` is Python's.
pub mod Protection
use network_monitoring.Prelude.{
  ℕ, String, inl, inr, Bool, not, Option, none, some, [], nat_beq, ◌∷◌, ◌==◌, if◌then◌else◌, nat_eq,
  string_eq,
}
use network_monitoring.Text.{concat, text_or, truthy}
use network_monitoring.Device.{Device}
use network_monitoring.Snmp.{Failure, failure, Poll, ◌>>=◌}

-- usmNoAuthProtocol and so on
pub data AuthProtocol : Type 0 where
  no_auth md5 sha sha256 : AuthProtocol

pub data PrivProtocol : Type 0 where
  no_priv des aes aes256 : PrivProtocol

module _ (repr : String → String) where
  unfoldable pub auth_protocol : String → Poll AuthProtocol
  auth_protocol name =
      if name == "none"
      then inr no_auth
      else if name == "md5"
      then inr md5
      else if name == "sha"
      then inr sha
      else if name == "sha256"
      then inr sha256
      else inl (failure "KeyError" (repr name))

  unfoldable pub priv_protocol : String → Poll PrivProtocol
  priv_protocol name =
      if name == "none"
      then inr no_priv
      else if name == "des"
      then inr des
      else if name == "aes"
      then inr aes
      else if name == "aes256"
      then inr aes256
      else inl (failure "KeyError" (repr name))

-- the keyword arguments of UsmUserData
pub record Usm : Type 0 where
  pub user : String
  pub auth : Option (String × AuthProtocol)
  pub priv : Option (String × PrivProtocol)

pub data Auth : Type 0 where
  community : Option String → Auth
  usm : Usm → Auth

pub record Session : Type 0 where
  pub host : String
  pub port : ℕ
  pub auth : Auth

-- the arguments of the constructor that name the v3 user
pub record V3 : Type 0 where
  pub user : String
  pub auth_proto : String
  pub auth_key : Option String
  pub priv_proto : String
  pub priv_key : Option String

abbrev usm_user : String → Option (String × AuthProtocol) → Option (String × PrivProtocol) → Usm
usm_user user auth priv = record { user = user; auth = auth; priv = priv }

abbrev no_key : (String → String) → String → String → String → Failure
no_key repr user what proto = failure "ValueError" (
    concat (
      "SNMPv3 user "
      ∷ repr user
      ∷ " requests "
      ∷ what
      ∷ " '"
      ∷ proto
      ∷ "' but no "
      ∷ what
      ∷ " key is configured"
      ∷ []))

-- the two protocols that were looked up, then the keys that they need
unfoldable pub with_keys : (String → String) → V3 → AuthProtocol × PrivProtocol → Poll Usm
with_keys repr v (auth, priv) =
    if v.auth_proto == "none"
    then inr (usm_user v.user none none)
    else if not (truthy v.auth_key)
    then inl (no_key repr v.user "auth" v.auth_proto)
    else if v.priv_proto == "none"
    then inr (usm_user v.user (some (text_or v.auth_key "", auth)) none)
    else if not (truthy v.priv_key)
    then inl (no_key repr v.user "priv" v.priv_proto)
    else inr
        (usm_user v.user (some (text_or v.auth_key "", auth)) (some (text_or v.priv_key "", priv)))

unfoldable pub usm_of : (String → String) → V3 → Poll Usm
unfolding auth_protocol priv_protocol with_keys
usm_of repr v = do
  auth ← auth_protocol repr v.auth_proto
  priv ← priv_protocol repr v.priv_proto
  with_keys repr v (auth, priv)

unfoldable pub session_of :
    (String → String) → String → ℕ → Option String → Option V3 → Poll Session
unfolding usm_of
session_of repr host port name none = inr record { host = host; port = port; auth = community name }
session_of repr host port name (some v) = do
  user ← usm_of repr v
  inr record { host = host; port = port; auth = usm user }

-- a text or its default
abbrev or_default : String → String → String
or_default s d = if s == "" then d else s

-- `device.snmp_version == "3"`, and the guard on the credentials of that version
abbrev pub is_v3 : Device → Bool
is_v3 d = d.snmp_version == "3"

unfoldable pub lacks_credentials : Device → Bool
lacks_credentials d = if is_v3 d then not (truthy d.snmp_v3_user) else not (truthy d.snmp_community)

-- the session that collect_device, peek_device and inventory_device construct
unfoldable pub device_session : (String → String) → Device → Poll Session
unfolding session_of
device_session repr d =
    session_of repr d.ip_address (if nat_beq d.snmp_port 0 then 161 else d.snmp_port)
      (if is_v3 d then none else d.snmp_community)
      (if is_v3 d
        then some record {
          user = text_or d.snmp_v3_user "";
          auth_proto = or_default d.snmp_v3_auth_proto "sha";
          auth_key = d.snmp_v3_auth_key;
          priv_proto = or_default d.snmp_v3_priv_proto "aes";
          priv_key = d.snmp_v3_priv_key;
        }
        else none)
