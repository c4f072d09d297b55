-- ===== src/Settings.antt =====
-- backend/app/core/config.py: the settings and their defaults. Whole numbers are naturals, but for
-- the two severity caps, for which the code gives the values below 0 a meaning. ALERT_LOSS_PCT is a
-- float in the source and a number of thousandths of a percent here.
use network_monitoring.Prelude.Int.{ℤ, pos}
use network_monitoring.Prelude.{
  ℕ, String, Bool, true, false, not, Option, none, ◌*◌, ◌&&◌, ◌||◌, ◌==◌, nat_eq, string_eq,
}

pub record Settings : Type 0 where
  pub postgres_host : String
  pub postgres_port : ℕ
  pub postgres_db : String
  pub postgres_user : String
  pub postgres_password : String
  pub database_url : Option String
  pub redis_url : String
  pub secret_key : String
  pub credential_encryption_key : String
  pub algorithm : String
  pub access_token_expire_minutes : ℕ
  pub ping_interval_seconds : ℕ
  pub ping_fast_interval_seconds : ℕ
  pub ping_volatile_window_seconds : ℕ
  pub ping_count : ℕ
  pub flap_threshold : ℕ
  pub ping_timeout_seconds : ℕ
  pub embedded_collector : Bool
  pub ping_method : String
  pub simulation_mode : Bool
  pub ssh_enabled : Bool
  pub ssh_poll_interval_seconds : ℕ
  pub ssh_connect_timeout_seconds : ℕ
  pub snmp_enabled : Bool
  pub snmp_poll_interval_seconds : ℕ
  pub snmp_timeout_seconds : ℕ
  pub snmp_retries : ℕ
  pub alert_enabled : Bool
  pub alert_after_seconds : ℕ
  pub alert_critical_only : Bool
  pub alert_check_interval_seconds : ℕ
  pub smtp_host : String
  pub smtp_port : ℕ
  pub smtp_user : String
  pub smtp_password : String
  pub smtp_from : String
  pub smtp_tls : Bool
  pub alert_email_to : String
  pub alert_webhook_url : String
  pub alert_telegram_bot_token : String
  pub alert_telegram_chat_id : String
  pub alert_sms_command : String
  pub alert_sms_to : String
  pub alert_loss_pct : ℕ
  pub alert_loss_window_minutes : ℕ
  pub alert_loss_cooldown_minutes : ℕ
  pub syslog_enabled : Bool
  pub syslog_bind : String
  pub syslog_port : ℕ
  pub syslog_alert_max_severity : ℤ
  pub syslog_alert_cooldown_seconds : ℕ
  pub snmp_trap_enabled : Bool
  pub snmp_trap_bind : String
  pub snmp_trap_port : ℕ
  pub snmp_trap_alert : Bool
  pub snmp_trap_alert_cooldown_seconds : ℕ
  pub snmp_trap_alert_max_severity : ℤ
  pub discovery_enabled : Bool
  pub discovery_subnets : String
  pub discovery_interval_seconds : ℕ
  pub discovery_max_hosts_per_subnet : ℕ
  pub login_max_failures : ℕ
  pub login_window_seconds : ℕ
  pub default_manager_email : String
  pub default_manager_password : String
  pub environment : String

-- The defaults of the class body.
abbrev pub default_settings : Settings
default_settings = record {
  postgres_host = "localhost";
  postgres_port = 5432;
  postgres_db = "network";
  postgres_user = "postgres";
  postgres_password = "changeme";
  database_url = none;
  redis_url = "redis://localhost:6379/0";
  secret_key = "change-this-secret";
  credential_encryption_key = "";
  algorithm = "HS256";
  access_token_expire_minutes = 60;
  ping_interval_seconds = 30;
  ping_fast_interval_seconds = 5;
  ping_volatile_window_seconds = 120;
  ping_count = 3;
  flap_threshold = 2;
  ping_timeout_seconds = 1;
  embedded_collector = true;
  ping_method = "system";
  simulation_mode = false;
  ssh_enabled = false;
  ssh_poll_interval_seconds = 60;
  ssh_connect_timeout_seconds = 8;
  snmp_enabled = false;
  snmp_poll_interval_seconds = 30;
  snmp_timeout_seconds = 2;
  snmp_retries = 1;
  alert_enabled = false;
  alert_after_seconds = 120;
  alert_critical_only = true;
  alert_check_interval_seconds = 30;
  smtp_host = "";
  smtp_port = 25;
  smtp_user = "";
  smtp_password = "";
  smtp_from = "netmon@example.com";
  smtp_tls = false;
  alert_email_to = "";
  alert_webhook_url = "";
  alert_telegram_bot_token = "";
  alert_telegram_chat_id = "";
  alert_sms_command = "";
  alert_sms_to = "";
  alert_loss_pct = 0;
  alert_loss_window_minutes = 10;
  alert_loss_cooldown_minutes = 60;
  syslog_enabled = false;
  syslog_bind = "0.0.0.0";
  syslog_port = 5514;
  syslog_alert_max_severity = pos 2;
  syslog_alert_cooldown_seconds = 300;
  snmp_trap_enabled = false;
  snmp_trap_bind = "0.0.0.0";
  snmp_trap_port = 1620;
  snmp_trap_alert = true;
  snmp_trap_alert_cooldown_seconds = 300;
  snmp_trap_alert_max_severity = pos 4;
  discovery_enabled = false;
  discovery_subnets = "";
  discovery_interval_seconds = 3600;
  discovery_max_hosts_per_subnet = 1024;
  login_max_failures = 10;
  login_window_seconds = 300;
  default_manager_email = "admin@example.com";
  default_manager_password = "changeme";
  environment = "development";
}

-- Time is a number of microseconds, the resolution of Python's `datetime`; a monotonic reading is
-- rounded to it. A setting in seconds is compared with a difference of two times.
unfoldable pub seconds : ℕ → ℕ
seconds n = n * 1000000

-- `_no_default_secrets_in_production`: false stands for its RuntimeError
unfoldable pub secrets_accepted : Settings → Bool
secrets_accepted s = not (
    s.environment == "production"
    && (s.secret_key == "change-this-secret"
        || s.secret_key == "change-this-to-a-secure-random-string"
        || s.secret_key == ""))
