-- ===== src/Alerts/Episodes.antt =====
-- Once per outage: the notifications of one device over many ticks (`_alert_tick` of
-- backend/app/services/alerts.py, deduplicated by `alert_notified_at`).
use network_monitoring.Settings.{Settings}
use network_monitoring.Device.{Device}
use network_monitoring.World.{EventLog}
use network_monitoring.Alerts.{Decision, quiet, recovered, alarm, decide, marked}
use network_monitoring.Prelude.{
  ℕ, Bool, true, false, Option, List, [], arith, is_some, ◌∷◌, ◌++◌, nat_eq, string_eq,
}

-- What one tick finds: the row may have changed in every way since the last tick, but that only the
-- engine writes `alert_notified_at`.
pub record Tick : Type 0 where
  pub now : ℕ
  pub rows : List Device
  pub log : List EventLog
  pub row : Device

abbrev pub row_with : Tick → Option ℕ → Device
row_with t n = record t.row { alert_notified_at = n }

-- the decision of one tick, and the mark that it leaves
unfoldable pub tick : Settings → Tick → Option ℕ → Decision × Option ℕ
tick s t n =
    let k = decide s t.now t.rows t.log (row_with t n) in
    (k, (marked t.now k (row_with t n)).alert_notified_at)

abbrev sends : Decision → List Decision
sends quiet = []
sends recovered = recovered ∷ []
sends alarm = alarm ∷ []

-- the notifications of the device over the ticks
unfoldable pub notices : Settings → List Tick → Option ℕ → List Decision
notices s [] n = []
notices s (t ∷ ts) n = let (k, n') = tick s t n in sends k ++ notices s ts n'

-- Alarms and recoveries take turns; the argument says whether an alarm is open.
abbrev pub IsEpisodes : Bool → List Decision → Type 0
IsEpisodes is_open [] = Unit
IsEpisodes false (alarm ∷ ks) = IsEpisodes true ks
IsEpisodes true (recovered ∷ ks) = IsEpisodes false ks
IsEpisodes is_open (k ∷ ks) = ⊥

tick-sends :
    (s : Settings) (t : Tick) (n : Option ℕ) (ks : List Decision)
    → IsEpisodes (is_some (tick s t n).1) ks
    → IsEpisodes (is_some n) (sends (tick s t n).0 ++ ks)
unfolding tick decide marked
tick-sends s t n ks h = ground arith

-- Whatever the device does and whatever the settings of its row become between the ticks, its
-- notifications are an alarm, then a recovery, then an alarm, and so on: never two alarms for one
-- outage, and never a recovery that no alarm announced.
pub notices-IsEpisodes :
    (s : Settings) (ts : List Tick) (n : Option ℕ) → IsEpisodes (is_some n) (notices s ts n)
unfolding notices
notices-IsEpisodes s [] n = tt
notices-IsEpisodes s (t ∷ ts) n =
    tick-sends s t n (notices s ts (tick s t n).1) (notices-IsEpisodes s ts (tick s t n).1)
