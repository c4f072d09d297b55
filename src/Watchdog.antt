-- ===== src/Watchdog.antt =====
-- tools/watchdog.py: the external watchdog of the monitor. `get` is what GET /healthz delivers: the text
-- of its exception, or whether the collector is healthy and the age of its heartbeat; the deliveries of
-- `alert` are network calls. `show` prints a number; url, interval and failures are the environment's.
use network_monitoring.Prelude.{
  ℕ, String, refl, ap, inl, inr, Bool, true, false, not, List, [], arith, leb, ◌+◌, ◌<◌, ◌≡◌, ◌∙◌,
  ◌⊎◌, ◌&&◌, ◌∷◌, ◌++◌, if◌then◌else◌, nat_eq, string_eq,
}
use network_monitoring.Text.{concat}

pub record Health : Type 0 where
  pub collector_healthy : Bool
  pub heartbeat_age : String

unfoldable pub check : String ⊎ Health → Bool × String
check (inl text) = (false, concat ("API unreachable: " ∷ text ∷ []))
check (inr health) = if health.collector_healthy then (true, "ok") else (
  false,
  concat ("API up but collector heartbeat is stale (age=" ∷ health.heartbeat_age ∷ "s)" ∷ []),
)

pub record Alert : Type 0 where
  pub subject : String
  pub body : String

abbrev pub resolved_subject : String
resolved_subject = "[RESOLVED] monitoring server is healthy again"

abbrev pub alarm_subject : String
alarm_subject = "[ALERT] monitoring server is DOWN or stuck"

-- the local variables of `main`
pub record Watch : Type 0 where
  pub consecutive : ℕ
  pub alarmed : Bool

abbrev pub started : Watch
started = record { consecutive = 0; alarmed = false }

module _ (show : ℕ → String) (url : String) (interval failures : ℕ) where
  abbrev resolved : String → Alert
  resolved detail = record {
    subject = resolved_subject;
    body = concat ("URL: " ∷ url ∷ "\nStatus: " ∷ detail ∷ "\n" ∷ []);
  }

  abbrev alarm : ℕ → String → Alert
  alarm consecutive detail = record {
    subject = alarm_subject;
    body = concat (
        "URL: "
        ∷ url
        ∷ "\nProblem: "
        ∷ detail
        ∷ "\nFailed checks: "
        ∷ show consecutive
        ∷ " (every "
        ∷ show interval
        ∷ "s)\nThe network is currently UNMONITORED — investigate the monitor host.\n"
        ∷ []);
  }

  -- one round of the loop: the alerts that it sends, and its variables after it
  unfoldable pub watch_once : Bool × String → Watch → List Alert × Watch
  watch_once (true, detail) s =
      (if s.alarmed then resolved detail ∷ [] else [], record { consecutive = 0; alarmed = false })
  watch_once (false, detail) s =
      let n = s.consecutive + 1 in
      let fires = leb failures n && not s.alarmed in
      (
        if fires then alarm n detail ∷ [] else [],
        record { consecutive = n; alarmed = if fires then true else s.alarmed },
      )

  unfoldable pub watch : List (String ⊎ Health) → Watch → List Alert × Watch
  unfolding watch_once check
  watch [] s = ([], s)
  watch (r ∷ rs) s =
      let (sent, s') = watch_once (check r) s in
      let (later, s'') = watch rs s' in (sent ++ later, s'')

  -- the failed checks at the end of a run, after n earlier ones
  abbrev pub trailing : ℕ → List (String ⊎ Health) → ℕ
  trailing n [] = n
  trailing n (r ∷ rs) = trailing (if (check r).0 then 0 else n + 1) rs

  -- alarms and resolutions take turns, beginning with an alarm unless one is out
  abbrev pub IsAlternating : Bool → List Alert → Type 0
  IsAlternating out [] = Unit
  IsAlternating out (a ∷ more) =
      (a.subject ≡ (if out then resolved_subject else alarm_subject)) × IsAlternating (not out) more

  IsAlternating-resolved :
      (out : Bool) (detail : String) (later : List Alert)
      → IsAlternating false later
      → IsAlternating out ((if out then resolved detail ∷ [] else []) ++ later)
  IsAlternating-resolved true detail later h = (refl, h)
  IsAlternating-resolved false detail later h = h

  IsAlternating-fired :
      (late out : Bool) (n : ℕ) (detail : String) (later : List Alert)
      → IsAlternating (if late && not out then true else out) later
      → IsAlternating out ((if late && not out then alarm n detail ∷ [] else []) ++ later)
  IsAlternating-fired true true n detail later h = h
  IsAlternating-fired true false n detail later h = (refl, h)
  IsAlternating-fired false out n detail later h = h

  IsAlternating-watch_once :
      (c : Bool × String) (s : Watch) (later : List Alert)
      → IsAlternating (watch_once c s).1.alarmed later
      → IsAlternating s.alarmed ((watch_once c s).0 ++ later)
  unfolding watch_once
  IsAlternating-watch_once (true, detail) s later h =
      IsAlternating-resolved s.alarmed detail later h
  IsAlternating-watch_once (false, detail) s later h =
      IsAlternating-fired (leb failures (s.consecutive + 1)) s.alarmed (s.consecutive + 1) detail
        later h

  watch-IsAlternating :
      (rs : List (String ⊎ Health)) (s : Watch) → IsAlternating s.alarmed (watch rs s).0
  unfolding watch
  watch-IsAlternating [] s = tt
  watch-IsAlternating (r ∷ rs) s =
      IsAlternating-watch_once (check r) s (watch rs (watch_once (check r) s).1).0
        (watch-IsAlternating rs (watch_once (check r) s).1)

  watch_once-alarmed :
      (c : Bool × String) (s : Watch)
      → 0 < failures
      → s.alarmed ≡ leb failures s.consecutive
      → (watch_once c s).1.alarmed ≡ leb failures (watch_once c s).1.consecutive
  unfolding watch_once
  watch_once-alarmed (true, detail) s some_failures h = ground arith
  watch_once-alarmed (false, detail) s some_failures h = ground arith

  watch_once-consecutive :
      (c : Bool × String) (s : Watch)
      → (watch_once c s).1.consecutive ≡ (if c.0 then 0 else s.consecutive + 1)
  unfolding watch_once
  watch_once-consecutive (true, detail) s = refl
  watch_once-consecutive (false, detail) s = ground arith

  watch_from :
      (rs : List (String ⊎ Health)) (s : Watch)
      → 0 < failures
      → s.alarmed ≡ leb failures s.consecutive
      → (watch rs s).1.alarmed ≡ leb failures (trailing s.consecutive rs)
  unfolding watch
  watch_from [] s some_failures h = h
  watch_from (r ∷ rs) s some_failures h =
      watch_from rs (watch_once (check r) s).1 some_failures
        (watch_once-alarmed (check r) s some_failures h)
      ∙ ap (λ n. leb failures (trailing n rs)) (watch_once-consecutive (check r) s)

  watch-alarmed :
      (rs : List (String ⊎ Health))
      → 0 < failures
      → (watch rs started).1.alarmed ≡ leb failures (trailing 0 rs)
  watch-alarmed rs some_failures = watch_from rs started some_failures (ground arith)

  -- Over any checks, alarms and resolutions take turns, beginning with an alarm; and after them an
  -- alarm is out exactly if at least as many of the last checks failed as the threshold says, if the
  -- threshold is above zero.
  pub watch_turns :
      (rs : List (String ⊎ Health))
      → 0 < failures
      → IsAlternating false (watch rs started).0
        × ((watch rs started).1.alarmed ≡ leb failures (trailing 0 rs))
  watch_turns rs some_failures = (watch-IsAlternating rs started, watch-alarmed rs some_failures)
