-- ===== src/Traps.antt =====
-- backend/app/services/snmp_trap_listener.py: the identity and severity of a trap, its row, and the
-- receiver around the shared buffer (Ingest.antt). pysnmp decodes the datagram: `Pdu` is what it
-- says of a trap. `show` prints a number, `dumps` the variable bindings as JSON.
pub mod Severity
use network_monitoring.Dict
use network_monitoring.Dict.{Dict}
use network_monitoring.Settings.{Settings, seconds}
use network_monitoring.Text.{concat, first_chars, starts_with}
use network_monitoring.Ingest.{Listener, receive}
use network_monitoring.Ingest.Rounds.{Receiver, round}
use network_monitoring.Prelude.{
  ℕ, String, Bool, not, Option, none, some, List, [], nat_beq, is_some, ◌+◌, ◌&&◌, ◌||◌, ◌∷◌, ◌==◌,
  if◌then◌else◌, nat_eq, string_eq,
}

abbrev snmp_trap_oid : String
snmp_trap_oid = "1.3.6.1.6.3.1.1.4.1.0"

abbrev if_index_prefix : String
if_index_prefix = "1.3.6.1.2.1.2.2.1.1."

unfoldable pub trap_names : Dict String (String × ℕ)
trap_names =
    ("1.3.6.1.6.3.1.1.5.1", ("coldStart", 4))
    ∷ ("1.3.6.1.6.3.1.1.5.2", ("warmStart", 5))
    ∷ ("1.3.6.1.6.3.1.1.5.3", ("linkDown", 2))
    ∷ ("1.3.6.1.6.3.1.1.5.4", ("linkUp", 6))
    ∷ ("1.3.6.1.6.3.1.1.5.5", ("authenticationFailure", 4))
    ∷ ("1.3.6.1.6.3.1.1.5.6", ("egpNeighborLoss", 4))
    ∷ []

-- a variable binding: its oid, the text of its value, and its value if `int` takes it
pub record VarBind : Type 0 where
  pub oid : String
  pub text : String
  pub number : Option ℕ

pub data Pdu : Type 0 where
  v1 : ℕ → String → ℕ → List VarBind → Pdu
  v2c : List VarBind → Pdu

pub record Trap : Type 0 where
  pub version : String
  pub trap_oid : Option String
  pub trap_name : String
  pub severity : ℕ
  pub if_index : Option ℕ
  pub message : String
  pub varbinds : List VarBind

-- `_TRAP_NAMES.get(oid, ("trap", 5))`
unfoldable pub known_trap : String → String × ℕ
unfolding Dict.get trap_names
known_trap oid = elim (Dict.get oid trap_names) [ none ↦ ("trap", 5) | some t ↦ t ]

-- the value of the first snmpTrapOID.0
unfoldable pub trap_oid_of : List VarBind → Option String
trap_oid_of [] = none
trap_oid_of (b ∷ bs) = if b.oid == snmp_trap_oid then some b.text else trap_oid_of bs

-- the first ifIndex that is a number
unfoldable pub if_index_of : List VarBind → Option ℕ
unfolding starts_with
if_index_of [] = none
if_index_of (b ∷ bs) =
    let rest = if_index_of bs in
    if starts_with if_index_prefix b.oid && is_some b.number then b.number else rest

abbrev or_empty : Option String → String
or_empty none = ""
or_empty (some s) = s

abbrev index_part : (ℕ → String) → Option ℕ → String
index_part show none = ""
index_part show (some i) = concat (" (ifIndex " ∷ show i ∷ ")" ∷ [])

abbrev oid_part : Option String → String → String
oid_part oid name =
    if not (or_empty oid == "") && (name == "trap" || name == "enterpriseSpecific")
    then concat (" [" ∷ or_empty oid ∷ "]" ∷ [])
    else ""

-- the trap of a version, an oid, its name and severity, and its bindings
unfoldable pub trap_of : (ℕ → String) → String → Option String → String × ℕ → List VarBind → Trap
unfolding if_index_of
trap_of show version oid known binds = record {
  version = version;
  trap_oid = oid;
  trap_name = known.0;
  severity = known.1;
  if_index = if_index_of binds;
  message = concat (known.0 ∷ index_part show (if_index_of binds) ∷ oid_part oid known.0 ∷ []);
  varbinds = binds;
}

-- generic, enterprise, specific and the bindings of a v1 trap; the bindings of a v2c trap
unfoldable pub parse_trap : (ℕ → String) → Pdu → Trap
unfolding trap_of known_trap trap_oid_of
parse_trap show (v1 generic enterprise specific binds) =
    let oid = concat ("1.3.6.1.6.3.1.1.5." ∷ show (generic + 1) ∷ []) in
    if nat_beq generic 6
    then trap_of show "1" (some (concat (enterprise ∷ ".0." ∷ show specific ∷ [])))
        ("enterpriseSpecific", 4) binds
    else trap_of show "1" (some oid) (known_trap oid) binds
parse_trap show (v2c binds) =
    trap_of show "2c" (trap_oid_of binds) (known_trap (or_empty (trap_oid_of binds))) binds

-- a parsed trap in the buffer
pub record TrapRow : Type 0 where
  pub ts : ℕ
  pub host : String
  pub trap : Trap

abbrev row_of : (ℕ → String) → ℕ → String → Option Pdu → Option TrapRow
row_of show now host none = none
row_of show now host (some pdu) = some record { ts = now; host = host; trap = parse_trap show pdu }

-- `decode` gives the trap of a datagram, or none for any other datagram
unfoldable pub datagram_received :
    {Data : Type 0}
    → (Data → Option Pdu)
    → (ℕ → String)
    → ℕ
    → String
    → Data
    → Listener TrapRow
    → Listener TrapRow
unfolding parse_trap receive
datagram_received decode show now host datagram l =
    receive (row_of show now host (decode datagram)) l

-- models/snmp_trap.py: the row that `_flush` adds
pub record SnmpTrap : Type 0 where
  pub ts : ℕ
  pub host : String
  pub device_id : Option ℕ
  pub version : String
  pub trap_oid : Option String
  pub trap_name : String
  pub severity : ℕ
  pub if_index : Option ℕ
  pub message : String
  pub varbinds : String

unfoldable pub stored_trap : (List VarBind → String) → Option ℕ × TrapRow → SnmpTrap
stored_trap dumps (device, r) = record {
  ts = r.ts;
  host = r.host;
  device_id = device;
  version = r.trap.version;
  trap_oid = elim r.trap.trap_oid [
    | none ↦ none
    | some o ↦ if o == "" then none else some (first_chars 255 o)
  ];
  trap_name = first_chars 80 r.trap.trap_name;
  severity = r.trap.severity;
  if_index = r.trap.if_index;
  message = first_chars 8000 r.trap.message;
  varbinds = first_chars 8000 (dumps r.trap.varbinds);
}

unfoldable pub trap_round :
    Settings → ℕ → Option (Dict String ℕ) → (ℕ → Bool) → Receiver TrapRow → Receiver TrapRow
unfolding round
trap_round s now device_map commits r =
    if s.snmp_trap_enabled
    then round (λ (x : TrapRow). x.host) (λ (x : TrapRow). x.trap.severity)
        (s.snmp_trap_alert && s.alert_enabled) s.snmp_trap_alert_max_severity now
        (seconds s.snmp_trap_alert_cooldown_seconds) device_map commits r
    else r
