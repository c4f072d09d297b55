-- ===== src/Tests/Listeners.antt =====
-- The receivers, the gateway and the notifications at concrete inputs.
use network_monitoring.Dict
use network_monitoring.Dict.{Dict}
use network_monitoring.Settings.{Settings, default_settings}
use network_monitoring.Text.{strip}
use network_monitoring.World.{Change}
use network_monitoring.Device.{DeviceStatus, online, offline}
use network_monitoring.Prelude.Int.{pos}
use network_monitoring.Ingest.{
  Listener, drain, maybe_alert, pop_all, expired_hosts, buffer_hard_cap,
}
use network_monitoring.Ingest.Flush.{
  rows, receive_all, fetched_all, receive_all_accounts, drain_conserves, drain_total,
}
use network_monitoring.Ingest.Limiter.{count_host, maybe_alert_cooling}
use network_monitoring.Ingest.Rounds.{Receiver, round, round_empties}
use network_monitoring.Syslog.{parse_syslog, match_pri}
use network_monitoring.Syslog.Bounds.{IsDecoded, parse_syslog-IsDecoded}
use network_monitoring.Syslog.Receiver.{SyslogRow}
use network_monitoring.Traps.{v1, VarBind, parse_trap}
use network_monitoring.Traps.Severity.{parse_trap-severity_lt}
use network_monitoring.Gateway.{Gateway, Message}
use network_monitoring.Gateway.Batches.{
  receive_all as receive_messages, last_about, receive_all-latest,
}
use network_monitoring.Prelude.{
  ℕ, String, refl, true, false, Option, none, some, List, [], arith, length, ◌+◌, ◌≤◌, ◌<◌, ◌≡◌,
  ◌⊎◌, ◌∷◌, ◌++◌, ◌==◌, if◌then◌else◌, nat_eq, string_eq,
}

abbrev row : String → ℕ → SyslogRow
row host severity = record {
  ts = 100;
  host = host;
  facility = some 0;
  severity = severity;
  app_name = none;
  message = "link down";
}

abbrev host_of : SyslogRow → String
host_of r = r.host

abbrev severity_of : SyslogRow → ℕ
severity_of r = r.severity

abbrev two_rows : List SyslogRow
two_rows = row "10.0.0.1" 2 ∷ row "10.0.0.1" 1 ∷ []

abbrev busy : Listener SyslogRow
busy = record { buffer = two_rows; dropped = 3; stored = []; alerted_at = []; sent = [] }

receive_all_accounts_example :
    (let l' = receive_all (some (row "10.0.0.2" 6) ∷ none ∷ []) busy in
      (length l'.buffer ≤ buffer_hard_cap)
      × (length busy.buffer + busy.dropped + fetched_all (some (row "10.0.0.2" 6) ∷ none ∷ [])
          ≤ length l'.buffer + l'.dropped)
      × (length l'.buffer + l'.dropped ≤ length busy.buffer + busy.dropped + 2))
receive_all_accounts_example =
    receive_all_accounts (some (row "10.0.0.2" 6) ∷ none ∷ []) busy (omega arith)

drain_conserves_example :
    (lost : List SyslogRow) × (let r =
        drain host_of severity_of 2 true (pos 2) 100 300 [] (λ n. false) busy in
      (rows r.0 ++ (lost ++ r.0.buffer) ≡ rows busy ++ busy.buffer)
      × (length lost ≤ 400)
      × ((r.1 ≡ false) ⊎ ((lost ≡ []) × (r.0.buffer ≡ []))))
drain_conserves_example =
    drain_conserves host_of severity_of true (pos 2) 100 300 [] 2 (λ n. false) busy (omega arith)

drain_total_example :
    let l' = (drain host_of severity_of 2 true (pos 2) 100 300 [] (λ n. true) busy).0 in
    (l'.buffer ≡ []) × (rows l' ≡ rows busy ++ busy.buffer)
drain_total_example =
    drain_total host_of severity_of true (pos 2) 100 300 [] 2 (λ n. true) busy (omega arith)
      (λ n. refl)

round_empties_example :
    (let r : Receiver SyslogRow = record {
      listener = busy;
      ip_to_device = [];
      map_refreshed = 0;
    } in
      let l =
        (round host_of severity_of true
          (pos 2)
          100
          300
          (some (("10.0.0.1", 1) ∷ []))
          (λ n. true)
          r).listener in
      (l.buffer ≡ []) × (rows l ≡ rows busy ++ busy.buffer) × (l.dropped ≡ 0))
round_empties_example =
    round_empties host_of severity_of true (pos 2) 100 300 (("10.0.0.1", 1) ∷ []) (λ n. true)
      (record { listener = busy; ip_to_device = []; map_refreshed = 0 }) (λ n. refl) refl

maybe_alert_cooling_example :
    count_host "10.0.0.1"
      (maybe_alert host_of severity_of true (pos 2) 100 300 two_rows (("10.0.0.1", 50) ∷ [], [])).1
    ≡ count_host "10.0.0.1" []
unfolding Dict.get pop_all expired_hosts
maybe_alert_cooling_example =
    maybe_alert_cooling 100 300 "10.0.0.1" host_of severity_of (pos 2) true two_rows
      (("10.0.0.1", 50) ∷ []) [] 50 (refl, tt) refl (omega arith) (omega arith) (omega arith)
      (omega arith)

abbrev line : String
line = "<34>Oct 11 22:14:15 core sshd[42]: failed login"

line_parsed :
    ((parse_syslog line).app_name ≡ some "sshd[42]")
    × ((parse_syslog line).message ≡ "failed login")
unfolding parse_syslog
line_parsed = (refl, refl)

parse_syslog-IsDecoded_example :
    ((parse_syslog line).severity < 8)
    × IsDecoded (match_pri (strip line)) (parse_syslog line).facility (parse_syslog line).severity
parse_syslog-IsDecoded_example = parse_syslog-IsDecoded line

abbrev digit : ℕ → String
digit n = "3"

abbrev link_down : VarBind
link_down = record { oid = "1.3.6.1.6.3.1.1.4.1.0"; text = "1.3.6.1.6.3.1.1.5.3"; number = none }

parse_trap-severity_lt_example : (parse_trap digit (v1 2 "1.3.6.1.4.1.9" 0 [])).severity < 8
parse_trap-severity_lt_example = parse_trap-severity_lt digit (v1 2 "1.3.6.1.4.1.9" 0 [])

abbrev change : DeviceStatus → Change
change status = record { device_id = 1; status = status; last_checked_at = none }

abbrev parse : String → Option Change
parse text =
    if text == "down"
    then some (change offline)
    else if text == "up"
    then some (change online)
    else none

abbrev message : String → Message
message text = record { type_name = "message"; data_text = some text }

abbrev quiet_gateway : Gateway
quiet_gateway = record { connections = []; pending = []; frames = [] }

receive_all-latest_example :
    Dict.get 1
      (receive_messages parse
        (message "down" ∷ message "?" ∷ message "up" ∷ [])
        quiet_gateway).pending
    ≡ last_about parse 1
        (message "down" ∷ message "?" ∷ message "up" ∷ [])
        (Dict.get 1 quiet_gateway.pending)
receive_all-latest_example =
    receive_all-latest parse 1 (message "down" ∷ message "?" ∷ message "up" ∷ []) quiet_gateway

abbrev with_webhook : Settings
with_webhook = record default_settings { alert_webhook_url = "http://hook" }
