-- ===== src/LoginGuard/Window.antt =====
-- Who is blocked, and when (backend/app/services/login_guard.py).
use network_monitoring.Dict
use network_monitoring.Dict.{Dict}
use network_monitoring.Settings.{Settings, seconds}
use network_monitoring.LoginGuard.{
  Guard, enabled, keep_queue, register_failure, register_success, queue_of, expire, prune,
  is_blocked,
}
use network_monitoring.Prelude.{
  ℕ, String, refl, true, false, List, [], arith, eq_iff, leb, length, keep, All, ◌+◌, ◌≤◌, ◌<◌, ◌≡◌,
  ◌∷◌, ◌++◌, ◌==◌, if◌then◌else◌, nat_eq, string_eq,
}

-- the recorded times are in order, and none lies after `now`
abbrev pub IsQueue : ℕ → List ℕ → Type 0
IsQueue now [] = Unit
IsQueue now (t ∷ q) = (t ≤ now) × All (λ u. t ≤ u) q × IsQueue now q

-- the failures inside the window
abbrev pub recent : Settings → ℕ → List ℕ → List ℕ
recent s now = keep (λ t. leb now (t + seconds s.login_window_seconds))

recent_of_All :
    (s : Settings) (now t : ℕ) (q : List ℕ)
    → now ≤ t + seconds s.login_window_seconds
    → All (λ u. t ≤ u) q
    → recent s now q ≡ q
recent_of_All s now t [] h all_later = refl
recent_of_All s now t (u ∷ q) h all_later = ground (arith, recent_of_All s now t q h all_later.1)

-- On an ordered queue the loop that pops from the left keeps exactly the failures in the window.
pub expire-recent :
    (s : Settings) (now : ℕ) (q : List ℕ) → IsQueue now q → expire s now q ≡ recent s now q
unfolding expire
expire-recent s now [] h = refl
expire-recent s now (t ∷ q) h = ground (arith, expire-recent s now q h.2, recent_of_All s now t q)

abbrev pub queue : Guard → String → List ℕ
queue g ip = queue_of (Dict.get ip g.failures)

-- Every address's queue is ordered.
abbrev pub IsOrdered : ℕ → Guard → Type 0
IsOrdered now g = (ip : String) → IsQueue now (queue g ip)

queue-keep_queue :
    (ip j : String) (q : List ℕ) (d : Dict String (List ℕ))
    → queue_of (Dict.get j (keep_queue ip q d)) ≡ (if ip == j then q else queue_of (Dict.get j d))
unfolding keep_queue
queue-keep_queue ip j [] d = ground (arith, Dict.get-pop ip j d)
queue-keep_queue ip j (t ∷ q) d = ground (arith, Dict.get-put ip j (t ∷ q) d)

queue-prune :
    (s : Settings) (now : ℕ) (ip j : String) (g : Guard)
    → queue (prune s now ip g).1 j ≡ (if ip == j then expire s now (queue g ip) else queue g j)
unfolding prune
queue-prune s now ip j g = queue-keep_queue ip j (expire s now (queue g ip)) g.failures

-- With the guard on, an address is blocked exactly if its failures inside the window have reached
-- the limit.
pub is_blocked-recent :
    (s : Settings) (now : ℕ) (ip : String) (g : Guard)
    → IsOrdered now g
    → enabled s ≡ true
    → (is_blocked s now ip g).0 ≡ leb s.login_max_failures (length (recent s now (queue g ip)))
unfolding is_blocked prune
is_blocked-recent s now ip g h on = rw (on, expire-recent s now (queue g ip) (h ip))

failures-register_failure :
    (s : Settings) (now : ℕ) (ip : String) (g : Guard)
    → enabled s ≡ true
    → (register_failure s now ip g).0.failures
      ≡ Dict.put ip (expire s now (queue g ip) ++ now ∷ []) (prune s now ip g).1.failures
unfolding register_failure prune
failures-register_failure s now ip g on = ground arith

-- A failure lengthens the queue of its address by its own time, behind the failures that are still
-- in the window, and leaves the queues of the other addresses alone.
pub queue-register_failure :
    (s : Settings) (now : ℕ) (ip j : String) (g : Guard)
    → IsOrdered now g
    → enabled s ≡ true
    → queue (register_failure s now ip g).0 j
      ≡ (if ip == j then recent s now (queue g ip) ++ now ∷ [] else queue g j)
queue-register_failure s now ip j g h on =
    let q = expire s now (queue g ip) ++ now ∷ [] in
    rw (failures-register_failure s now ip g on) (
      ground (
        arith,
        Dict.get-put ip j q (prune s now ip g).1.failures,
        queue-prune s now ip j g,
        expire-recent s now (queue g ip) (h ip),
      ))

-- A successful login unblocks its address.
pub register_success_unblocks :
    (s : Settings) (now : ℕ) (ip : String) (g : Guard)
    → 0 < s.login_max_failures
    → (is_blocked s now ip (register_success ip g)).0 ≡ false
unfolding is_blocked prune register_success expire
register_success_unblocks s now ip g h = ground (arith, Dict.get-pop ip ip g.failures, eq_iff ip ip)
