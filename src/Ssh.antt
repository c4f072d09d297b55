-- ===== src/Ssh.antt =====
-- backend/app/services/ssh_collector.py. asyncssh is a library: `connect` gives its exception or a
-- session, which answers a command with its output. `seconds_of` is `int(float(text))`, none where it
-- raises; `show`, `dumps` print a number and the facts.
pub mod Snapshot
pub mod Loop
use network_monitoring.Prelude.{
  ℕ, String, inl, inr, Bool, not, Option, none, some, List, [], nat_beq, ◌⊎◌, ◌&&◌, ◌∷◌, ◌==◌,
  if◌then◌else◌, nat_eq, string_eq,
}
use Prim.Native.String
use Prim.Native.Char.{Char, code}
use network_monitoring.Table
use network_monitoring.Text.{lines, words, strip, text_or, truthy}
use network_monitoring.Readers.{span}
use network_monitoring.Device.{Device, serialize_device}
use network_monitoring.World.{World}
use network_monitoring.StateCache.{upsert_device}
use network_monitoring.StateCache.Coherence.{device_id}
use network_monitoring.Snmp.Uptime.{format_seconds}

-- asyncssh.PermissionDenied; ConnectionLost, ConnectionError, OSError or TimeoutError; any other
pub data Kind : Type 0 where
  permission_denied connection_lost other_error : Kind

pub record Failure : Type 0 where
  pub kind : Kind
  pub text : String

abbrev pub Session : Type 0
Session = String → Failure ⊎ String

infixl 1 ◌>>=◌
abbrev ◌>>=◌ : {A B : Type 0} → Failure ⊎ A → (A → Failure ⊎ B) → Failure ⊎ B
inl f >>= k = inl f
inr a >>= k = k a

pub record Interface : Type 0 where
  pub name : String
  pub ipv4 : String

pub record Facts : Type 0 where
  pub interfaces : List Interface
  pub kernel : Option String

pub record Collection : Type 0 where
  pub hostname : Option String
  pub uptime : Option String
  pub facts : Facts

abbrev or_none : String → Option String
or_none s = if s == "" then none else some s

unfoldable pub format_uptime : (String → Option ℕ) → (ℕ → String) → String → Option String
unfolding words format_seconds
format_uptime seconds_of show proc_uptime = elim (words proc_uptime) [
  | [] ↦ none
  | first ∷ rest ↦ elim (seconds_of first) [
    | none ↦ none
    | some secs ↦ some (format_seconds show secs)
  ]
]

-- the columns of one line
abbrev interface_of : List String → Option Interface
interface_of (index ∷ name ∷ family ∷ address ∷ rest) =
    if family == "inet" then some record { name = name; ipv4 = address } else none
interface_of cols = none

abbrev found : {A : Type 0} → Option A → List A → List A
found none xs = xs
found (some x) xs = x ∷ xs

interfaces_in : List String → List Interface
unfolding words
interfaces_in [] = []
interfaces_in (line ∷ rest) = found (interface_of (words line)) (interfaces_in rest)

unfoldable pub parse_interfaces : String → List Interface
unfolding lines interfaces_in
parse_interfaces ip_output = interfaces_in (lines ip_output)

-- s.rstrip(";")
rstrip_semicolons : String → String
rstrip_semicolons String.[] = ""
rstrip_semicolons (String.◌∷◌ c s) =
    let rest = rstrip_semicolons s in
    if nat_beq (code c) b';' && rest == "" then "" else String.◌∷◌ c rest

abbrev last_or : String → List String → String
last_or s [] = s
last_or s (x ∷ xs) = last_or x xs

-- the text before a suffix
before : String → String → Option String
before suffix String.[] = if suffix == "" then some "" else none
before suffix (String.◌∷◌ c s) =
    let rest = before suffix s in
    if String.◌∷◌ c s == suffix
    then some ""
    else elim rest [ none ↦ none | some start ↦ some (String.◌∷◌ c start) ]

abbrev not_close : Char → Bool
not_close c = not (nat_beq (code c) b')')

-- `([^)]+) ago\)` after an opening parenthesis: a run that a parenthesis ends
ago_group : String → Option String
unfolding span before
ago_group s =
    let (run, rest) = span not_close s in
    if rest == ""
    then none
    else elim (before " ago" run) [ none ↦ none | some start ↦ or_none start ]

-- re.search(r"\(([^)]+) ago\)", s)
booted_ago : String → Option String
unfolding ago_group
booted_ago String.[] = none
booted_ago (String.◌∷◌ c s) =
    let later = booted_ago s in
    elim (if nat_beq (code c) b'(' then ago_group s else none) [
      | none ↦ later
      | some group ↦ some group
    ]

sh : Session → String → Failure ⊎ String
unfolding strip
sh session cmd = do out ← session cmd; inr (strip out)

-- hostname and uptime from the CLI of a network OS
junos : Session → Option String → Failure ⊎ (Option String × Option String)
unfolding sh words strip rstrip_semicolons booted_ago
junos session uptime = do
  hn ← sh session "show configuration system host-name | display set"
  up ← sh session "show system uptime | match \"System booted\""
  let hostname = or_none (rstrip_semicolons (last_or "" (words hn))) in
      inr (hostname, elim (booted_ago up) [ none ↦ uptime | some group ↦ some (strip group) ])

module _ (seconds_of : String → Option ℕ) (show : ℕ → String) where
  unfoldable pub run_collection : Session → Failure ⊎ Collection
  unfolding sh format_uptime junos parse_interfaces
  run_collection session = do
    hostname ← sh session "hostname"
    proc_uptime ← sh session "cat /proc/uptime"
    ip_out ← sh session "ip -o -4 addr show 2>/dev/null"
    kernel ← sh session "uname -sr"
    names ←
        if hostname == "" && kernel == ""
        then junos session (format_uptime seconds_of show proc_uptime)
        else inr (or_none hostname, format_uptime seconds_of show proc_uptime)
    inr record {
      hostname = names.0;
      uptime = names.1;
      facts = record { interfaces = parse_interfaces ip_out; kernel = or_none kernel };
    }

-- host, port, username and password
pub record Config : Type 0 where
  pub host : String
  pub port : ℕ
  pub username : String
  pub password : String

pub record Summary : Type 0 where
  pub status : String
  pub detail : Option String
  pub result : Option Collection

abbrev pub status_of : Failure ⊎ Collection → String
status_of (inl f) = elim f.kind [
  | permission_denied ↦ "auth_failed"
  | connection_lost ↦ "unreachable"
  | other_error ↦ "error"
]
status_of (inr c) = "ok"

abbrev pub summary_of : Failure ⊎ Collection → Summary
summary_of (inl f) = record { status = status_of (inl f); detail = some f.text; result = none }
summary_of (inr c) = record { status = "ok"; detail = none; result = some c }

abbrev pub ssh_row : Option Device → Option Device
ssh_row none = none
ssh_row (some d) = if d.ssh_enabled then some d else none

-- the row without a user name is committed, and the snapshot is left as it was
unfoldable pub refuse_username : ℕ → Device → World → World
refuse_username now d w = record w {
  devices =
      Table.replace device_id
        (record d { ssh_status = "error"; ssh_collected_at = some now; updated_at = now })
        w.devices;
}

abbrev pub collected : (Facts → String) → ℕ → Failure ⊎ Collection → Device → Device
collected dumps now (inl f) d = record d {
  ssh_status = status_of (inl f);
  ssh_collected_at = some now;
  updated_at = now;
}
collected dumps now (inr c) d = record d {
  ssh_status = "ok";
  ssh_collected_at = some now;
  ssh_hostname = c.hostname;
  ssh_uptime = c.uptime;
  ssh_facts = some (dumps c.facts);
  updated_at = now;
}

unfoldable pub persist_collection :
    (Facts → String) → ℕ → ℕ → Failure ⊎ Collection → World → Option Summary × World
unfolding upsert_device
persist_collection dumps now id result w = elim (Table.find device_id id w.devices) [
  | none ↦ (none, w)
  | some d ↦
      let d' = collected dumps now result d in
      (
        some (summary_of result),
        upsert_device (serialize_device d')
            (record w { devices = Table.replace device_id d' w.devices }),
      )
]

abbrev pub config_of : Device → Config
config_of d = record {
  host = d.ip_address;
  port = if nat_beq d.ssh_port 0 then 22 else d.ssh_port;
  username = text_or d.ssh_username "";
  password = text_or d.ssh_password "";
}

-- `meanwhile` is what other tasks write during the session
unfoldable pub collect_device :
    (Config → Failure ⊎ Collection)
    → (Facts → String)
    → ℕ
    → (World → World)
    → ℕ
    → World
    → Option Summary × World
unfolding refuse_username persist_collection
collect_device collection dumps now meanwhile id w =
    elim (ssh_row (Table.find device_id id w.devices)) [
      | none ↦ (none, w)
      | some d ↦
          if not (truthy d.ssh_username)
          then (
            some record { status = "error"; detail = some "no ssh_username set"; result = none },
            refuse_username now d w,
          )
          else persist_collection dumps now d.id (collection (config_of d)) (meanwhile w)
    ]
