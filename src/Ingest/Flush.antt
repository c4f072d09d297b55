-- ===== src/Ingest/Flush.antt =====
-- What happens to a datagram between the socket and the table (`datagram_received` and `_flush` of
-- backend/app/services/syslog_listener.py and snmp_trap_listener.py).

use network_monitoring.Dict
use mathlib.Core.List.{append-nil}
use network_monitoring.StateCache.{is_empty}
use network_monitoring.Ingest.{
  drain, flush_max_rows, flush, Dict, ℤ, Listener, buffer_hard_cap, receive,
}
use network_monitoring.Prelude.{
  ℕ, zero, suc, String, refl, sym, ap, inl, inr, Bool, true, false, Option, none, some, List, [],
  map, arith, Bool-cases, length, take, drop, length-append, take-append-drop, length-take,
  length-drop, ◌+◌, ◌*◌, ◌≤◌, ◌<◌, ◌≡◌, ◌∙◌, ◌⊎◌, ◌∷◌, ◌++◌, nat_eq, string_eq,
}

-- the stored rows without their devices
abbrev pub rows : {Row : Type 0} → Listener Row → List Row
rows l = map (λ e. e.1) l.stored

abbrev pub fetched : {Row : Type 0} → Option Row → ℕ
fetched none = 0
fetched (some r) = 1

receive_accounts :
    {Row : Type 0} (parsed : Option Row) (l : Listener Row)
    → length l.buffer ≤ buffer_hard_cap
    → (let l' = receive parsed l in
        (length l'.buffer ≤ buffer_hard_cap)
        × (length l.buffer + l.dropped + fetched parsed ≤ length l'.buffer + l'.dropped)
        × (length l'.buffer + l'.dropped ≤ length l.buffer + l.dropped + 1))
unfolding receive
receive_accounts none l h = ground arith
receive_accounts (some r) l h = ground (arith, length-append l.buffer (r ∷ []))

pub receive_all : {Row : Type 0} → List (Option Row) → Listener Row → Listener Row
unfolding receive
receive_all [] l = l
receive_all (p ∷ ps) l = receive_all ps (receive p l)

abbrev pub fetched_all : {Row : Type 0} → List (Option Row) → ℕ
fetched_all [] = 0
fetched_all (p ∷ ps) = fetched p + fetched_all ps

-- Whatever datagrams arrive between two rounds, a buffer within its cap stays within it, and every
-- datagram that parses to a row is in the buffer or counted as dropped; at most one of the two is
-- counted for a datagram.
pub receive_all_accounts :
    {Row : Type 0} (ps : List (Option Row)) (l : Listener Row)
    → length l.buffer ≤ buffer_hard_cap
    → (let l' = receive_all ps l in
        (length l'.buffer ≤ buffer_hard_cap)
        × (length l.buffer + l.dropped + fetched_all ps ≤ length l'.buffer + l'.dropped)
        × (length l'.buffer + l'.dropped ≤ length l.buffer + l.dropped + length ps))
unfolding receive_all
receive_all_accounts [] l h = (h, omega arith, omega arith)
receive_all_accounts (p ∷ ps) l h =
    let (bound, low, high) = receive_accounts p l h in
    let (bound', low', high') = receive_all_accounts ps (receive p l) bound in
    (bound', omega arith, omega arith)

module _ {Row : Type 0} (host : Row → String) (severity : Row → ℕ) (on : Bool) (m : ℤ)
    (now cooldown : ℕ) (ips : Dict String ℕ) where
  -- what one round loses
  abbrev lost_by : Bool → Listener Row → List Row
  lost_by true l = []
  lost_by false l = take (flush_max_rows * 2) l.buffer

  flush_conserves :
      (committed : Bool) (l : Listener Row)
      → let l' = (flush host severity on m now cooldown ips committed l).0 in
        rows l' ++ (lost_by committed l ++ l'.buffer) ≡ rows l ++ l.buffer
  unfolding flush
  flush_conserves true l =
      let batch = take (flush_max_rows * 2) l.buffer in
      let later = drop (flush_max_rows * 2) l.buffer in
      rows_stored l.stored batch later
      ∙ ap (λ t. rows l ++ t) (take-append-drop (flush_max_rows * 2) l.buffer)
    where
      tagged : List Row → List (Option ℕ × Row)
      tagged = map (λ r. (Dict.get (host r) ips, r))

      untag : (b : List Row) → map (λ (e : Option ℕ × Row). e.1) (tagged b) ≡ b
      untag [] = refl
      untag (r ∷ b) = ap (◌∷◌ r) (untag b)

      rows_stored :
          (st : List (Option ℕ × Row)) (b later : List Row)
          → map (λ (e : Option ℕ × Row). e.1) (st ++ tagged b) ++ later
            ≡ map (λ (e : Option ℕ × Row). e.1) st ++ (b ++ later)
      rows_stored [] b later = ap (λ t. t ++ later) (untag b)
      rows_stored (e ∷ st) b later = ap (◌∷◌ e.1) (rows_stored st b later)
  flush_conserves false l = ap (λ t. rows l ++ t) (take-append-drop (flush_max_rows * 2) l.buffer)

  flush_conserves_ok :
      (c : Bool) (l : Listener Row)
      → c ≡ true
      → let l' = (flush host severity on m now cooldown ips c l).0 in
        rows l' ++ l'.buffer ≡ rows l ++ l.buffer
  flush_conserves_ok true l e = flush_conserves true l
  flush_conserves_ok false l e = cc

  flush_conserves_failed :
      (c : Bool) (l : Listener Row)
      → c ≡ false
      → let l' = (flush host severity on m now cooldown ips c l).0 in
        rows l' ++ (take 400 l.buffer ++ l'.buffer) ≡ rows l ++ l.buffer
  flush_conserves_failed true l e = cc
  flush_conserves_failed false l e = flush_conserves false l

  lost-le : (l : Listener Row) → length (take 400 l.buffer) ≤ 400
  lost-le l = omega (arith, length-take 400 l.buffer)

  flush_ok :
      (committed : Bool) (l : Listener Row)
      → (flush host severity on m now cooldown ips committed l).1 ≡ committed
  unfolding flush
  flush_ok true l = refl
  flush_ok false l = refl

  flush_shrinks :
      (committed : Bool) (l : Listener Row)
      → 0 < length l.buffer
      → length (flush host severity on m now cooldown ips committed l).0.buffer < length l.buffer
  unfolding flush
  flush_shrinks true l h = omega (arith, length-drop (flush_max_rows * 2) l.buffer)
  flush_shrinks false l h = omega (arith, length-drop (flush_max_rows * 2) l.buffer)

  -- the buffer, the rows and the lost rows after the loop
  abbrev Ends : Listener Row → Listener Row × Bool → List Row → Type 0
  Ends l r lost =
      (rows r.0 ++ (lost ++ r.0.buffer) ≡ rows l ++ l.buffer)
      × (length lost ≤ 400)
      × ((r.1 ≡ false) ⊎ ((lost ≡ []) × (r.0.buffer ≡ [])))

  buffer-nil : (b : List Row) → is_empty b ≡ true → b ≡ []
  buffer-nil b h = ground arith

  buffer-cons : (b : List Row) → is_empty b ≡ false → 0 < length b
  buffer-cons [] h = cc
  buffer-cons (r ∷ b) h = omega arith

  drain_from :
      (fuel : ℕ) (commits : ℕ → Bool) (l : Listener Row)
      → length l.buffer ≤ fuel
      → (lost : List Row) × Ends l (drain host severity fuel on m now cooldown ips commits l) lost
  unfolding drain
  drain_from zero commits l h =
      ([], (refl, omega arith, inr (refl, buffer-nil l.buffer (ground arith))))
  drain_from (suc fuel) commits l h =
      let c = commits fuel in
      let l' = (flush host severity on m now cooldown ips c l).0 in
      elim (Bool-cases (is_empty l.buffer)) [
        | inl empty ↦ ([], rw empty (refl, omega arith, inr (refl, buffer-nil l.buffer empty)))
        | inr more ↦ elim (Bool-cases c) [
          | inl works ↦
              let (lost, ends) =
                drain_from fuel commits l'
                  (omega (arith, flush_shrinks c l (buffer-cons _ more))) in
              (
                lost,
                rw (more, flush_ok c l ∙ works)
                    (ends.0 ∙ flush_conserves_ok c l works, ends.1, ends.2),
              )
          | inr fails ↦ (
            take 400 l.buffer,
            rw (more, flush_ok c l ∙ fails) (flush_conserves_failed c l fails, lost-le l, inl refl),
          )
        ]
      ]

  -- One call of the flush loop, with fuel for every row of the buffer, keeps the rows in order: those
  -- of the table, at most 400 that are lost and those left in the buffer are the rows of the table
  -- and the buffer before. Either it reports a failed commit, or nothing is lost and the buffer is
  -- empty.
  pub drain_conserves :
      (fuel : ℕ) (commits : ℕ → Bool) (l : Listener Row)
      → length l.buffer ≤ fuel
      → (lost : List Row) × (let r = drain host severity fuel on m now cooldown ips commits l in
          (rows r.0 ++ (lost ++ r.0.buffer) ≡ rows l ++ l.buffer)
          × (length lost ≤ 400)
          × ((r.1 ≡ false) ⊎ ((lost ≡ []) × (r.0.buffer ≡ []))))
  drain_conserves = drain_from

  all_kept : (a lost b x : List Row) → a ++ (lost ++ b) ≡ x → lost ≡ [] → b ≡ [] → a ≡ x
  all_kept a lost b x kept e f = sym (append-nil a) ∙ ap (λ t. a ++ t) (sym (rw (e, f))) ∙ kept

  pub drain_commits :
      (fuel : ℕ) (commits : ℕ → Bool) (l : Listener Row)
      → ((n : ℕ) → commits n ≡ true)
      → (drain host severity fuel on m now cooldown ips commits l).1 ≡ true
  unfolding drain
  drain_commits zero commits l h = refl
  drain_commits (suc fuel) commits l h = ground (
    arith,
    flush_ok (commits fuel) l,
    h fuel,
    drain_commits fuel commits (flush host severity on m now cooldown ips (commits fuel) l).0 h,
  )

  absurd_true : (A : Type 0) → true ≡ false → A
  absurd_true A e = cc

  -- With fuel for every row and commits that succeed, the loop ends with an empty buffer, and the
  -- table has grown by the buffer, in order.
  pub drain_total :
      (fuel : ℕ) (commits : ℕ → Bool) (l : Listener Row)
      → length l.buffer ≤ fuel
      → ((n : ℕ) → commits n ≡ true)
      → let l' = (drain host severity fuel on m now cooldown ips commits l).0 in
        (l'.buffer ≡ []) × (rows l' ≡ rows l ++ l.buffer)
  drain_total fuel commits l h works =
      let (lost, ends) = drain_from fuel commits l h in
      elim ends.2 [
        | inl fails ↦ absurd_true _ (sym (drain_commits fuel commits l works) ∙ fails)
        | inr (none_lost, empty) ↦ (empty, all_kept _ lost _ _ ends.0 none_lost empty)
      ]
