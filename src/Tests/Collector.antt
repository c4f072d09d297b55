-- ===== src/Tests/Collector.antt =====
-- The checks and the alerts at concrete inputs.
use network_monitoring.Dict
use network_monitoring.Alerts.Episodes.{Tick, IsEpisodes, notices, notices-IsEpisodes}
use network_monitoring.Alerts.Rules.{MustAlert, MustRecover, decide_rules}
use network_monitoring.Alerts.{recovered, decide, alarm}
use network_monitoring.Table
use network_monitoring.Settings.{Settings, default_settings, seconds}
use network_monitoring.Device.{online, Device, serialize_device, is_offline}
use network_monitoring.World.{EventLog, went_offline, World, Change}
use network_monitoring.StateCache.Coherence.{device_id, shown, IsLive}
use network_monitoring.Ping.{Cadence, Check, observe, persist, check_one}
use network_monitoring.Ping.Probe.{PingOutput}
use network_monitoring.Ping.Verdict.{
  HasVerdict, observe-HasVerdict, observe_all, verdict, failed_run,
}
use network_monitoring.Ping.Outages.{IsOutageLog, down_after, observe_all_outages}
use network_monitoring.Ping.Snapshot.{
  persist-IsLive, check_one-IsLive, status_of, heard, persist-heard, acked, persist-ack_lost,
}
use network_monitoring.Ping.Schedule.{
  run_checks, reschedule, reschedule_one, due, next_interval, due, reschedule_one, reschedule,
  run_checks, offset, run_due,
}
use network_monitoring.Ping.Schedule.Laws.{offset-lt-interval, run_due_later}
use network_monitoring.Tests.Fixtures.{switch, server, site, site-IsLive}
use network_monitoring.Prelude.{
  ℕ, refl, inr, true, false, none, some, List, [], arith, ◌+◌, ◌*◌, ◌<◌, ◌≡◌, ◌↔◌, ◌∷◌, ◌++◌,
  nat_eq, string_eq,
}

abbrev s : Settings
s = default_settings

abbrev answered : Check
answered = record {
  alive = true;
  rtt = some 900;
  sent = 3;
  received = 3;
  has_service_check = true;
  service_ok = some false;
  service_detail = some "TCP/22 closed";
  now = 90;
  mono = 90;
}

abbrev silent : Check
silent = record answered { alive = false; rtt = none; received = 0 }

abbrev idle : Cadence
idle = record { schedule = (1, 40) ∷ []; volatile_until = [] }

abbrev three_replies : PingOutput
three_replies = record {
  returncode = 0;
  ttl_lines = 3;
  received_group = some 3;
  rtt_group = some 900;
}

observe-HasVerdict_example : HasVerdict s (observe s silent switch).0
observe-HasVerdict_example = observe-HasVerdict s silent switch

-- one failed check leaves the switch unknown, two make it offline
failed_run_example :
    ((observe_all s (silent ∷ silent ∷ []) switch).0.consecutive_failures ≡ 0 + 2)
    × ((observe_all s (silent ∷ silent ∷ []) switch).0.current_status ≡ verdict s (0 + 2))
failed_run_example = failed_run s silent (silent ∷ []) switch (refl, (refl, tt))

observe_all_outages_example :
    IsOutageLog
      (is_offline server.current_status)
      (observe_all s (answered ∷ silent ∷ silent ∷ []) server).1
    × (down_after
          (is_offline server.current_status)
          (observe_all s (answered ∷ silent ∷ silent ∷ []) server).1
        ≡ is_offline (observe_all s (answered ∷ silent ∷ silent ∷ []) server).0.current_status)
observe_all_outages_example =
    observe_all_outages s (answered ∷ silent ∷ silent ∷ []) server (inr (inr (refl, omega arith)))

persist-IsLive_example : IsLive (persist s silent 1 (site, idle)).0
persist-IsLive_example = persist-IsLive s silent 1 site idle site-IsLive

check_one-IsLive_example : IsLive (check_one s (λ c. silent) (λ w. w) 1 (site, idle)).0
check_one-IsLive_example =
    check_one-IsLive s (λ c. silent) (λ w. w) 1 site idle (λ v h. h) site-IsLive

persist-heard_example :
    (new : List Change) × ((persist s silent 1 (site, idle)).0.published ≡ site.published ++ new)
    × ((k : ℕ)
        → heard k new (status_of (Table.find device_id k site.devices))
          ≡ status_of (Table.find device_id k (persist s silent 1 (site, idle)).0.devices))
persist-heard_example = persist-heard s silent 1 site idle

abbrev failing : Device
failing = record switch { service_ok = some false; alarm_acked_at = some 60 }

abbrev failing_site : World
failing_site = record site { devices = failing ∷ []; cache = (1, serialize_device failing) ∷ [] }

persist-ack_lost_example :
    (acked (shown (Table.find device_id 1 (persist s answered 1 (failing_site, idle)).0.devices))
      ≡ none)
    × (acked (Dict.get 1 (persist s answered 1 (failing_site, idle)).0.cache) ≡ some 60)
unfolding Table.find Dict.get
persist-ack_lost_example =
    persist-ack_lost s answered failing failing_site idle 60 refl refl refl refl refl refl refl refl
      refl

offset-lt-interval_example : offset s (λ k. k * 7919) 2 < seconds s.ping_interval_seconds
offset-lt-interval_example = offset-lt-interval s (λ k. k * 7919) 2 (omega arith)

run_due_later_example : 50 < 50 + seconds s.ping_interval_seconds
unfolding run_due run_checks reschedule reschedule_one due next_interval Dict.get Dict.put
run_due_later_example =
    run_due_later s (λ j u. u) 50 50 1 (50 + seconds s.ping_interval_seconds) site idle
      (omega arith) (omega arith) (omega arith) (λ j u. refl) refl

-- down long enough at 600 s, and back at 700 s
abbrev outage_log : List EventLog
outage_log = record { device_id = 2; event_type = went_offline; created_at = 0 } ∷ []

abbrev every_device : Settings
every_device = record s { alert_critical_only = false }

abbrev down_tick : Tick
down_tick = record { now = seconds 600; rows = site.devices; log = outage_log; row = server }

abbrev up_tick : Tick
up_tick = record {
  now = seconds 700;
  rows = site.devices;
  log = outage_log;
  row = record server { current_status = online };
}

notices-IsEpisodes_example :
    IsEpisodes false (notices every_device (down_tick ∷ down_tick ∷ up_tick ∷ []) none)
notices-IsEpisodes_example =
    notices-IsEpisodes every_device (down_tick ∷ down_tick ∷ up_tick ∷ []) none

-- a muted server that was notified and is back
abbrev muted_server : Device
muted_server = record server {
  current_status = online;
  is_muted = true;
  alert_notified_at = some 30;
}

decide_rules_example :
    ((decide every_device (seconds 700) site.devices outage_log muted_server ≡ alarm)
      ↔ MustAlert every_device (seconds 700) site.devices outage_log muted_server)
    × ((decide every_device (seconds 700) site.devices outage_log muted_server ≡ recovered)
        ↔ MustRecover muted_server)
decide_rules_example = decide_rules every_device (seconds 700) site.devices outage_log muted_server
