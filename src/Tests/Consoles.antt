-- ===== src/Tests/Consoles.antt =====
-- The watchdog, the device shell and the emulated router at concrete inputs.
use network_monitoring.Prelude.{
  ℕ, String, refl, inl, inr, true, false, Option, none, some, List, [], arith, leb, is_some, any,
  ◌≡◌, ◌⊎◌, ◌∷◌, ◌==◌, if◌then◌else◌, nat_eq, string_eq,
}
use network_monitoring.Table
use network_monitoring.Text.{starts_with, strip, truthy}
use network_monitoring.Device.{Device}
use network_monitoring.StateCache.Coherence.{device_id}
use network_monitoring.Admin.{Directory, Role, User, require_permission}
use network_monitoring.Watchdog.{Health, started, watch, trailing, IsAlternating, watch_turns}
use network_monitoring.Shell.{
  Outside, data_frame, no_password, auth_ssh, session_of, ws_device_shell,
}
use network_monitoring.Shell.Gate.{is_open, passed, ws_device_shell-gate}
use network_monitoring.Junos.{read_committed, write_committed, repl, start}
use network_monitoring.Junos.File.{read_committed-write_committed}
use network_monitoring.Junos.Commit.{in_force, repl-keeps}
use network_monitoring.Tests.Fixtures.{switch}

abbrev printed : ℕ → String
printed n = "n"

-- two failures, and a healthy answer
abbrev answers : List (String ⊎ Health)
answers =
    inl "timed out"
    ∷ inl "timed out"
    ∷ inr record { collector_healthy = true; heartbeat_age = "3" }
    ∷ []

watch_turns_example :
    IsAlternating printed "http://monitor" 60 2 false
      (watch printed "http://monitor" 60 2 answers started).0
    × ((watch printed "http://monitor" 60 2 answers started).1.alarmed
        ≡ leb 2 (trailing printed "http://monitor" 60 2 0 answers))
watch_turns_example = watch_turns printed "http://monitor" 60 2 answers (omega arith)

abbrev engineer : Role
engineer = record { id = 4; name = "engineer"; permissions = "view" ∷ "ssh" ∷ [] }

abbrev eve : User
eve = record {
  id = 5;
  email = "eve@example.com";
  hashed_password = "h";
  role_id = 4;
  is_active = true;
  created_at = 0;
}

abbrev staff : Directory
staff = record {
  catalogue = "view" ∷ "ssh" ∷ [];
  roles = engineer ∷ [];
  users = eve ∷ [];
  owners = [];
  audit_logs = [];
}

abbrev token_of : String → Option ℕ
token_of token = if token == "eve" then some 5 else none

abbrev reachable : Device
reachable = record switch { ssh_enabled = true; ssh_username = some "admin" }

abbrev typing : Outside
typing = record {
  first = no_password;
  is_connected = true;
  connect_error = none;
  frames = data_frame "show version" ∷ [];
  output = "Junos" ∷ [];
  bridge_error = none;
}

ws_device_shell-gate_example :
    (is_some (passed (require_permission token_of ("ssh" ∷ []) "eve" staff)) ≡ true)
    × ((d : Device) × (Table.find device_id 1 (reachable ∷ []) ≡ some d)
        × (d.ssh_enabled ≡ true)
        × (truthy d.ssh_username ≡ true))
    × (any is_open (ws_device_shell printed token_of "eve" 1 typing staff (reachable ∷ [])) ≡ true)
unfolding ws_device_shell auth_ssh session_of Table.find
ws_device_shell-gate_example =
    ws_device_shell-gate printed token_of "eve" 1 typing staff (reachable ∷ []) refl

read_committed-write_committed_example :
    read_committed [] (some (write_committed ("set system services ssh" ∷ "set snmp name x" ∷ [])))
    ≡ "set system services ssh" ∷ "set snmp name x" ∷ []
unfolding strip
read_committed-write_committed_example =
    read_committed-write_committed [] "set system services ssh" ("set snmp name x" ∷ []) refl refl

repl-keeps_example :
    in_force (
      repl []
        ("configure" ∷ "delete system services" ∷ "set snmp name x" ∷ "exit" ∷ [])
        (start [] (some "set system services ssh\n")))
    ≡ in_force (start [] (some "set system services ssh\n"))
unfolding starts_with
repl-keeps_example =
    repl-keeps [] ("configure" ∷ "delete system services" ∷ "set snmp name x" ∷ "exit" ∷ [])
      (start [] (some "set system services ssh\n")) refl
