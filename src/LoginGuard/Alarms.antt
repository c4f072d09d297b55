-- ===== src/LoginGuard/Alarms.antt =====
-- The brute-force alert (backend/app/services/login_guard.py).
use network_monitoring.Dict
use network_monitoring.Settings.{Settings, seconds}
use network_monitoring.LoginGuard.{
  Guard, LoginAnswer, expire, prune, cooling, is_blocked, register_failure, register_success, login,
}
use network_monitoring.LoginGuard.Window.{queue, recent, IsOrdered, expire-recent}
use network_monitoring.Prelude.{
  ℕ, String, refl, ap, inl, inr, Bool, true, false, some, List, [], arith, eq_iff, Bool-cases,
  length, length-append, All, contains, ◌+◌, ◌≤◌, ◌<◌, ◌≡◌, ◌∙◌, ◌&&◌, ◌∷◌, ◌==◌, if◌then◌else◌,
  nat_eq, string_eq,
}

-- A failed login raises the alert only if its address has now failed as often as the limit inside
-- the window, and only if the last alert of that address is at least a window old (or read 0).
pub register_failure-alert :
    (s : Settings) (now : ℕ) (ip : String) (g : Guard)
    → IsOrdered now g
    → (register_failure s now ip g).1 ≡ true
    → (s.login_max_failures ≤ length (recent s now (queue g ip)) + 1)
      × (cooling (seconds s.login_window_seconds) now (Dict.get ip g.alerted_at) ≡ false)
unfolding register_failure prune
register_failure-alert s now ip g ordered h = ground (
  arith,
  expire-recent s now (queue g ip) (ordered ip),
  length-append (expire s now (queue g ip)) (now ∷ []),
)

alerted_at-register_failure :
    (s : Settings) (now t : ℕ) (ip j : String) (g : Guard)
    → Dict.get ip g.alerted_at ≡ some t
    → 0 < t
    → now < t + seconds s.login_window_seconds
    → (Dict.get ip (register_failure s now j g).0.alerted_at ≡ some t)
      × (j ≡ ip → (register_failure s now j g).1 ≡ false)
unfolding register_failure prune cooling
alerted_at-register_failure s now t ip j g h pos inside =
    ground (arith, Dict.get-put j ip now g.alerted_at, eq_iff j ip)

-- the guard after a request to log in, and whether the alert went out
abbrev pub after : LoginAnswer × Guard × Bool → Guard
after (answer, g, alert) = g

abbrev pub alerted : LoginAnswer × Guard × Bool → Bool
alerted (answer, g, alert) = alert

alerted_at-is_blocked :
    (s : Settings) (now : ℕ) (j : String) (g : Guard)
    → (is_blocked s now j g).1.alerted_at ≡ g.alerted_at
unfolding is_blocked prune
alerted_at-is_blocked s now j g = ground arith

-- Requests to log in, each with its time, its address and whether the password is right, and the
-- addresses that raised an alert.
unfoldable pub logins : Settings → List (ℕ × String × Bool) → Guard → Guard × List String
logins s [] g = (g, [])
logins s ((now, ip, accepted) ∷ rest) g =
    let tried = login s now ip accepted g in
    let (g', alerts) = logins s rest (after tried) in
    (g', if alerted tried then ip ∷ alerts else alerts)

alerted_at-login :
    (s : Settings) (now t : ℕ) (ip j : String) (accepted : Bool) (g : Guard)
    → Dict.get ip g.alerted_at ≡ some t
    → 0 < t
    → now < t + seconds s.login_window_seconds
    → (j == ip && accepted) ≡ false
    → (Dict.get ip (after (login s now j accepted g)).alerted_at ≡ some t)
      × (j ≡ ip → alerted (login s now j accepted g) ≡ false)
unfolding login register_success
alerted_at-login s now t ip j accepted g h pos inside refused =
    let still : Dict.get ip (is_blocked s now j g).1.alerted_at ≡ some t =
      ap (Dict.get ip) (alerted_at-is_blocked s now j g) ∙ h in
    elim (Bool-cases (is_blocked s now j g).0) [
      | inl e ↦ rw (e, login) (still, λ same. refl)
      | inr e ↦ elim (Bool-cases accepted) [
        | inr f ↦
            rw (e, f, login)
              (alerted_at-register_failure s now t ip j (is_blocked s now j g).1 still pos inside)
        | inl f ↦
            rw (e, f, login)
              (
                ground (
                  arith,
                  Dict.get-pop j ip (is_blocked s now j g).1.alerted_at,
                  still,
                  refused,
                  f,
                ),
                λ same. refl,
              )
      ]
    ]

alerted_at-alert :
    (s : Settings) (now : ℕ) (ip : String) (accepted : Bool) (g : Guard)
    → alerted (login s now ip accepted g) ≡ true
    → Dict.get ip (after (login s now ip accepted g)).alerted_at ≡ some now
unfolding login register_failure
alerted_at-alert s now ip accepted g h = elim (Bool-cases (is_blocked s now ip g).0) [
  | inl e ↦ ground (arith, e, h)
  | inr e ↦ elim (Bool-cases accepted) [
    | inl f ↦ ground (arith, e, f, h)
    | inr f ↦ ground (arith, e, f, h, Dict.get-put_self ip now g.alerted_at)
  ]
]

contains-unless :
    (ip j : String) (alert : Bool) (alerts : List String)
    → (j ≡ ip → alert ≡ false)
    → contains ip alerts ≡ false
    → contains ip (if alert then j ∷ alerts else alerts) ≡ false
contains-unless ip j alert alerts silent rest = ground (arith, eq_iff j ip, silent, rest)

logins_silent :
    (s : Settings) (t : ℕ) (ip : String) (tries : List (ℕ × String × Bool)) (g : Guard)
    → Dict.get ip g.alerted_at ≡ some t
    → 0 < t
    → All (λ e. (e.0 < t + seconds s.login_window_seconds) × ((e.1 == ip && e.2) ≡ false)) tries
    → contains ip (logins s tries g).1 ≡ false
unfolding logins
logins_silent s t ip [] g h pos inside = refl
logins_silent s t ip ((now, j, accepted) ∷ rest) g h pos inside =
    let (still, silent) = alerted_at-login s now t ip j accepted g h pos inside.0.0 inside.0.1 in
    contains-unless ip j (alerted (login s now j accepted g))
      (logins s rest (after (login s now j accepted g))).1 silent
      (logins_silent s t ip rest (after (login s now j accepted g)) still pos inside.1)

-- After a request that raises the alert of its address at a time that is not 0, no request inside the
-- window raises another of that address, whoever else fails to log in or succeeds, unless a request
-- of the address itself has the right password.
pub logins_alert_once :
    (s : Settings) (t : ℕ) (ip : String) (accepted : Bool) (g : Guard)
    (tries : List (ℕ × String × Bool))
    → alerted (login s t ip accepted g) ≡ true
    → 0 < t
    → All (λ e. (e.0 < t + seconds s.login_window_seconds) × ((e.1 == ip && e.2) ≡ false)) tries
    → contains ip (logins s tries (after (login s t ip accepted g))).1 ≡ false
logins_alert_once s t ip accepted g tries raised pos inside =
    logins_silent s t ip tries (after (login s t ip accepted g))
      (alerted_at-alert s t ip accepted g raised) pos inside
