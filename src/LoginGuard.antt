-- ===== src/LoginGuard.antt =====
-- backend/app/services/login_guard.py: the sliding window of failed logins of each address, and the
-- route of backend/app/api/routes/auth.py that asks it.
pub mod Window
pub mod Alarms
use network_monitoring.Dict
use network_monitoring.Dict.{Dict}
use network_monitoring.Settings.{Settings, seconds}
use network_monitoring.Prelude.{
  ℕ, String, Bool, true, false, not, Option, none, some, List, [], ltb, leb, nat_beq, length, ◌+◌,
  ◌&&◌, ◌∷◌, ◌++◌, if◌then◌else◌, nat_eq, string_eq,
}

pub record Guard : Type 0 where
  pub failures : Dict String (List ℕ)
  pub alerted_at : Dict String ℕ

abbrev pub new_guard : Guard
new_guard = record { failures = []; alerted_at = [] }

unfoldable pub enabled : Settings → Bool
enabled s = ltb 0 s.login_max_failures && ltb 0 s.login_window_seconds

-- `_failures[ip]` of a defaultdict
abbrev pub queue_of : Option (List ℕ) → List ℕ
queue_of none = []
queue_of (some q) = q

-- `while q and now - q[0] > window: q.popleft()`
unfoldable pub expire : Settings → ℕ → List ℕ → List ℕ
expire s now [] = []
expire s now (t ∷ q) =
    let rest = expire s now q in
    if ltb (t + seconds s.login_window_seconds) now then rest else t ∷ q

-- `if not q: _failures.pop(ip, None)`; else the deque, mutated in place, stays under its key
unfoldable pub keep_queue : String → List ℕ → Dict String (List ℕ) → Dict String (List ℕ)
keep_queue ip [] d = Dict.pop ip d
keep_queue ip (t ∷ q) d = Dict.put ip (t ∷ q) d

unfoldable pub prune : Settings → ℕ → String → Guard → List ℕ × Guard
unfolding expire keep_queue
prune s now ip g =
    let q = expire s now (queue_of (Dict.get ip g.failures)) in
    (q, record g { failures = keep_queue ip q g.failures })

unfoldable pub is_blocked : Settings → ℕ → String → Guard → Bool × Guard
unfolding enabled prune
is_blocked s now ip g =
    let (q, g') = prune s now ip g in
    if not (enabled s) then (false, g) else (leb s.login_max_failures (length q), g')

-- `last and now - last < window`: a reading of 0 counts as no alert
unfoldable pub cooling : ℕ → ℕ → Option ℕ → Bool
cooling window now none = false
cooling window now (some last) = not (nat_beq last 0) && ltb now (last + window)

-- The second part says whether the brute-force alert goes out (the audit row, then the channels).
unfoldable pub register_failure : Settings → ℕ → String → Guard → Guard × Bool
unfolding enabled prune cooling
register_failure s now ip g =
    let (q, g') = prune s now ip g in
    let q' = q ++ now ∷ [] in
    let g'' = record g' { failures = Dict.put ip q' g'.failures } in
    if not (enabled s)
    then (g, false)
    else if ltb (length q') s.login_max_failures
    then (g'', false)
    else if cooling (seconds s.login_window_seconds) now (Dict.get ip g''.alerted_at)
    then (g'', false)
    else (record g'' { alerted_at = Dict.put ip now g''.alerted_at }, true)

unfoldable pub register_success : String → Guard → Guard
register_success ip g = record g {
  failures = Dict.pop ip g.failures;
  alerted_at = Dict.pop ip g.alerted_at;
}

pub data LoginAnswer : Type 0 where
  too_many invalid_credentials logged_in : LoginAnswer

-- `login` of auth.py; `accepted` is whether an active user of that address has that password
unfoldable pub login : Settings → ℕ → String → Bool → Guard → LoginAnswer × Guard × Bool
unfolding is_blocked register_failure register_success
login s now ip accepted g =
    let (blocked, g') = is_blocked s now ip g in
    if blocked
    then (too_many, g', false)
    else if accepted
    then (logged_in, register_success ip g', false)
    else (let (g'', alert) = register_failure s now ip g' in (invalid_credentials, g'', alert))
