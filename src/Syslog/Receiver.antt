-- ===== src/Syslog/Receiver.antt =====
-- The rows, the datagrams and the rounds of backend/app/services/syslog_listener.py.
use network_monitoring.Dict.{Dict}
use network_monitoring.Settings.{Settings, seconds}
use network_monitoring.Text.{first_chars}
use network_monitoring.Ingest.{Listener, receive}
use network_monitoring.Ingest.Rounds.{Receiver, round}
use network_monitoring.Syslog.{Parsed, parse_syslog}
use network_monitoring.Prelude.{
  ℕ, String, Bool, true, Option, none, some, ◌==◌, if◌then◌else◌, nat_eq, string_eq,
}

-- models/syslog.py
pub record SyslogRow : Type 0 where
  pub ts : ℕ
  pub host : String
  pub facility : Option ℕ
  pub severity : ℕ
  pub app_name : Option String
  pub message : String

-- the row of a datagram, unless its message is empty
unfoldable pub row_of : ℕ → String → Parsed → Option SyslogRow
row_of now host p =
    if p.message == ""
    then none
    else some record {
      ts = now;
      host = host;
      facility = p.facility;
      severity = p.severity;
      app_name = p.app_name;
      message = first_chars 8000 p.message;
    }

-- `text` is the datagram as UTF-8, with replacement characters where it is none
unfoldable pub datagram_received : ℕ → String → String → Listener SyslogRow → Listener SyslogRow
unfolding parse_syslog row_of receive
datagram_received now host text l = receive (row_of now host (parse_syslog text)) l

unfoldable pub syslog_round :
    Settings → ℕ → Option (Dict String ℕ) → (ℕ → Bool) → Receiver SyslogRow → Receiver SyslogRow
unfolding round
syslog_round s now device_map commits r =
    if s.syslog_enabled
    then round (λ (x : SyslogRow). x.host) (λ (x : SyslogRow). x.severity) true
        s.syslog_alert_max_severity now (seconds s.syslog_alert_cooldown_seconds) device_map commits
        r
    else r
