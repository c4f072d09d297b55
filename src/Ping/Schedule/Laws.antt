-- ===== src/Ping/Schedule/Laws.antt =====
-- The schedule after a refresh and after a round of checks (`_refresh_schedule` and `_run_due` of
-- backend/app/services/ping_scheduler.py).
use native.Mathlib.Nat.{mod-lt}
use network_monitoring.Dict
use network_monitoring.Dict.{Dict, keys}
use network_monitoring.Settings.{Settings, seconds}
use network_monitoring.World.{World}
use network_monitoring.Ping.{Cadence, CheckConfig, Check, check_one, persist, unsettle}
use network_monitoring.Ping.Schedule.{
  next_interval, enabled_ids, drop_one, drop_stale, offset, add_one, add_new, refresh_schedule, due,
  run_checks, reschedule_one, reschedule, run_due,
}
use network_monitoring.Prelude.{
  ℕ, refl, true, not, Option, none, some, List, [], arith, nat_beq, is_some, contains, ◌+◌, ◌*◌,
  ◌≤◌, ◌<◌, ◌≡◌, ◌∙◌, ◌&&◌, ◌∷◌, if◌then◌else◌, nat_eq, string_eq,
}

module _ (k : ℕ) (ids : List ℕ) where
  get-drop_one :
      (j : ℕ) (cad : Cadence)
      → Dict.get k (drop_one ids j cad).schedule
        ≡ (if nat_beq j k && not (contains k ids) then none else Dict.get k cad.schedule)
  unfolding drop_one
  get-drop_one j cad = ground (arith, Dict.get-pop j k cad.schedule)

  get-drop_stale :
      (ks : List ℕ) (cad : Cadence)
      → Dict.get k (drop_stale ids ks cad).schedule
        ≡ (if contains k ks && not (contains k ids) then none else Dict.get k cad.schedule)
  unfolding drop_stale
  get-drop_stale [] cad = refl
  get-drop_stale (j ∷ ks) cad =
      ground (arith, get-drop_stale ks (drop_one ids j cad), get-drop_one j cad)

contains-keys : (k : ℕ) (d : Dict ℕ ℕ) → contains k (keys d) ≡ is_some (Dict.get k d)
unfolding Dict.get
contains-keys k [] = refl
contains-keys k ((j, v) ∷ d) = ground (arith, contains-keys k d)

abbrev pub or_else : Option ℕ → ℕ → ℕ
or_else none n = n
or_else (some m) n = m

module _ (s : Settings) (hash : ℕ → ℕ) (now k : ℕ) where
  get-add_one :
      (j : ℕ) (sched : Dict ℕ ℕ)
      → Dict.get k (add_one s hash now j sched) ≡ (
          if nat_beq j k
          then some (or_else (Dict.get k sched) (now + offset s hash k))
          else Dict.get k sched)
  unfolding add_one
  get-add_one j sched = ground (arith, Dict.get-put j k (now + offset s hash j) sched)

  get-add_new :
      (ids : List ℕ) (sched : Dict ℕ ℕ)
      → Dict.get k (add_new s hash now ids sched) ≡ (
          if contains k ids
          then some (or_else (Dict.get k sched) (now + offset s hash k))
          else Dict.get k sched)
  unfolding add_new
  get-add_new [] sched = refl
  get-add_new (j ∷ ids) sched =
      ground (arith, get-add_new ids (add_one s hash now j sched), get-add_one j sched)

  -- After a refresh exactly the enabled devices are scheduled: one that was scheduled keeps its
  -- time, and a new one is due after its own offset.
  pub get-refresh_schedule :
      (w : World) (cad : Cadence)
      → Dict.get k (refresh_schedule s hash now w cad).schedule ≡ (
          if contains k (enabled_ids w.devices)
          then some (or_else (Dict.get k cad.schedule) (now + offset s hash k))
          else none)
  unfolding refresh_schedule
  get-refresh_schedule w cad =
      let ids = enabled_ids w.devices in
      ground (
        arith,
        get-add_new ids (drop_stale ids (keys cad.schedule) cad).schedule,
        get-drop_stale k ids (keys cad.schedule) cad,
        contains-keys k cad.schedule,
      )

-- With a positive interval every device's first check falls inside one interval, whatever the hash.
pub offset-lt-interval :
    (s : Settings) (hash : ℕ → ℕ) (k : ℕ)
    → 0 < s.ping_interval_seconds
    → offset s hash k < seconds s.ping_interval_seconds
unfolding offset seconds
offset-lt-interval s hash k h =
    omega (arith, mod-lt (hash k) {m = s.ping_interval_seconds * 1000} (omega arith))

module _ (s : Settings) (after k : ℕ) where
  get-reschedule :
      (ids : List ℕ) (cad : Cadence)
      → Dict.get k (reschedule s after ids cad).schedule ≡ (
          if contains k ids
          then some (after + next_interval s cad k after)
          else Dict.get k cad.schedule)
  unfolding reschedule reschedule_one next_interval
  get-reschedule [] cad = refl
  get-reschedule (j ∷ ids) cad = ground (
    arith,
    get-reschedule ids (reschedule_one s after j cad),
    Dict.get-put j k (after + next_interval s cad j after) cad.schedule,
  )

contains-due :
    (now k t : ℕ) (d : Dict ℕ ℕ) → Dict.get k d ≡ some t → t ≤ now → contains k (due now d) ≡ true
unfolding Dict.get due
contains-due now k t [] h le = cc
contains-due now k t ((j, u) ∷ d) h le = ground (arith, contains-due now k t d)

schedule-run_checks :
    (check : ℕ → World × Cadence → World × Cadence) (ids : List ℕ) (st : World × Cadence)
    → ((j : ℕ) (u : World × Cadence) → (check j u).1.schedule ≡ u.1.schedule)
    → (run_checks check ids st).1.schedule ≡ st.1.schedule
unfolding run_checks
schedule-run_checks check [] st h = refl
schedule-run_checks check (j ∷ ids) st h = schedule-run_checks check ids (check j st) h ∙ h j st

-- A check of a device leaves every device's next time alone.
pub schedule-check_one :
    (s : Settings) (probe : CheckConfig → Check) (meanwhile : World → World) (k : ℕ)
    (st : World × Cadence)
    → (check_one s probe meanwhile k st).1.schedule ≡ st.1.schedule
unfolding check_one persist unsettle
schedule-check_one s probe meanwhile k (w, cad) = ground arith

next_interval_pos :
    (s : Settings) (cad : Cadence) (k now : ℕ)
    → 0 < s.ping_interval_seconds
    → 0 < s.ping_fast_interval_seconds
    → 0 < next_interval s cad k now
unfolding next_interval seconds
next_interval_pos s cad k now h g = ground arith

-- After a round no scheduled device is due at the time at which the round began: with positive
-- intervals, a clock that does not go back and checks that leave the schedule alone, every next
-- time lies after it.
pub run_due_later :
    (s : Settings) (check : ℕ → World × Cadence → World × Cadence) (now after k t : ℕ) (w : World)
    (cad : Cadence)
    → 0 < s.ping_interval_seconds
    → 0 < s.ping_fast_interval_seconds
    → now ≤ after
    → ((j : ℕ) (u : World × Cadence) → (check j u).1.schedule ≡ u.1.schedule)
    → Dict.get k (run_due s check now after (w, cad)).1.schedule ≡ some t
    → now < t
unfolding run_due
run_due_later s check now after k t w cad slow fast clock keeps h =
    let ids = due now cad.schedule in
    let done = (run_checks check ids (w, cad)).1 in
    ground (
      arith,
      get-reschedule s after k ids done,
      schedule-run_checks check ids (w, cad) keeps,
      next_interval_pos s done k after slow fast,
      contains-due now k t cad.schedule,
    )
