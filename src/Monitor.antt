-- ===== src/Monitor.antt =====
-- backend/app/api/routes/monitor.py: the age of the collector's last cycle. Times are microseconds and
-- `age_seconds` is in tenths; the gateway's clock may be behind the collector's. A heartbeat in Redis is
-- one that `set_heartbeat` wrote, so that it parses.
use network_monitoring.Prelude.Int.{ℤ, pos, negsuc}
use network_monitoring.Rounding.{round_div}
use network_monitoring.Settings.{Settings, seconds}
use network_monitoring.World.{World}
use network_monitoring.StateCache.{get_heartbeat, set_heartbeat}
use network_monitoring.Prelude.{
  ℕ, zero, suc, Bool, true, false, Option, none, some, arith, max, leb, ◌+◌, ◌-◌, ◌*◌, ◌≤◌, ◌≡◌,
  if◌then◌else◌, nat_eq, string_eq,
}

pub record MonitorStatus : Type 0 where
  pub heartbeat : Option ℕ
  pub age_seconds : Option ℤ
  pub healthy : Bool

abbrev minus : ℕ → ℤ
minus zero = pos 0
minus (suc n) = negsuc n

-- round(age, 1)
unfoldable pub age_of : ℕ → ℕ → ℤ
unfolding round_div
age_of now hb =
    if leb hb now then pos (round_div (now - hb) 100000) else minus (round_div (hb - now) 100000)

abbrev pub limit : Settings → ℕ
limit s = max 60 (s.ping_interval_seconds * 4)

unfoldable pub monitor_heartbeat : Settings → ℕ → World → MonitorStatus
unfolding get_heartbeat age_of seconds
monitor_heartbeat s now w = elim (get_heartbeat w) [
  | none ↦ record { heartbeat = none; age_seconds = none; healthy = false }
  | some hb ↦ record {
    heartbeat = some hb;
    age_seconds = some (age_of now hb);
    healthy = leb now (hb + seconds (limit s));
  }
]

-- A collector whose last cycle ended at most a minute ago is healthy, whatever the interval is.
pub monitor_heartbeat_minute :
    (s : Settings) (now t : ℕ) (w : World)
    → now ≤ t + 60 * 1000000
    → (monitor_heartbeat s now (set_heartbeat t w)).healthy ≡ true
unfolding monitor_heartbeat set_heartbeat get_heartbeat seconds
monitor_heartbeat_minute s now t w h = ground (arith, h)
