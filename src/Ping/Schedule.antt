-- ===== src/Ping/Schedule.antt =====
-- The staggered and adaptive schedule: `_next_interval`, `_refresh_schedule` and `_run_due` of
-- backend/app/services/ping_scheduler.py.
pub mod Laws
use network_monitoring.Dict
use network_monitoring.Dict.{Dict, keys}
use network_monitoring.Settings.{Settings, seconds}
use network_monitoring.Device.{Device}
use network_monitoring.World.{World}
use network_monitoring.Ping.{Cadence}
use network_monitoring.Prelude.{
  ℕ, Option, none, some, List, [], ltb, leb, is_some, contains, ◌+◌, ◌*◌, ◌%◌, ◌∷◌, if◌then◌else◌,
  nat_eq, string_eq,
}

-- `_volatile_until.get(did, 0.0)`
abbrev or_zero : Option ℕ → ℕ
or_zero none = 0
or_zero (some n) = n

unfoldable pub next_interval : Settings → Cadence → ℕ → ℕ → ℕ
next_interval s cad id now =
    if ltb now (or_zero (Dict.get id cad.volatile_until))
    then seconds s.ping_fast_interval_seconds
    else seconds s.ping_interval_seconds

-- the ids of the enabled devices
unfoldable pub enabled_ids : List Device → List ℕ
enabled_ids [] = []
enabled_ids (d ∷ ds) = let rest = enabled_ids ds in if d.is_enabled then d.id ∷ rest else rest

-- `for did in list(_schedule)`: drop what is no longer enabled
unfoldable pub drop_one : List ℕ → ℕ → Cadence → Cadence
drop_one ids k cad = if contains k ids then cad else record cad {
  schedule = Dict.pop k cad.schedule;
  volatile_until = Dict.pop k cad.volatile_until;
}

unfoldable pub drop_stale : List ℕ → List ℕ → Cadence → Cadence
drop_stale ids [] cad = cad
drop_stale ids (k ∷ ks) cad = drop_stale ids ks (drop_one ids k cad)

-- The interval is positive, else the source divides by zero. `hash` is Python's, of the id's text.
unfoldable pub offset : Settings → (ℕ → ℕ) → ℕ → ℕ
offset s hash id = hash id % (s.ping_interval_seconds * 1000) * 1000

unfoldable pub add_one : Settings → (ℕ → ℕ) → ℕ → ℕ → Dict ℕ ℕ → Dict ℕ ℕ
add_one s hash now k sched =
    if is_some (Dict.get k sched) then sched else Dict.put k (now + offset s hash k) sched

unfoldable pub add_new : Settings → (ℕ → ℕ) → ℕ → List ℕ → Dict ℕ ℕ → Dict ℕ ℕ
add_new s hash now [] sched = sched
add_new s hash now (k ∷ ks) sched = add_new s hash now ks (add_one s hash now k sched)

unfoldable pub refresh_schedule : Settings → (ℕ → ℕ) → ℕ → World → Cadence → Cadence
unfolding drop_one drop_stale add_one add_new offset enabled_ids
refresh_schedule s hash now w cad =
    let ids = enabled_ids w.devices in
    let kept = drop_stale ids (keys cad.schedule) cad in
    record kept { schedule = add_new s hash now ids kept.schedule }

-- `due = [did for did, t in _schedule.items() if t <= now]`
unfoldable pub due : ℕ → Dict ℕ ℕ → List ℕ
due now [] = []
due now ((k, t) ∷ rest) = let others = due now rest in if leb t now then k ∷ others else others

-- The checks of the due devices, one after another; `check` is `_check_one` with its error caught.
unfoldable pub run_checks :
    (ℕ → World × Cadence → World × Cadence) → List ℕ → World × Cadence → World × Cadence
run_checks check [] st = st
run_checks check (k ∷ ks) st = run_checks check ks (check k st)

unfoldable pub reschedule_one : Settings → ℕ → ℕ → Cadence → Cadence
reschedule_one s after k cad = record cad {
  schedule = Dict.put k (after + next_interval s cad k after) cad.schedule;
}

unfoldable pub reschedule : Settings → ℕ → List ℕ → Cadence → Cadence
reschedule s after [] cad = cad
reschedule s after (k ∷ ks) cad = reschedule s after ks (reschedule_one s after k cad)

unfoldable pub run_due :
    Settings → (ℕ → World × Cadence → World × Cadence) → ℕ → ℕ → World × Cadence → World × Cadence
unfolding due run_checks reschedule reschedule_one next_interval
run_due s check now after (w, cad) =
    let ids = due now cad.schedule in
    let (w', cad') = run_checks check ids (w, cad) in (w', reschedule s after ids cad')
