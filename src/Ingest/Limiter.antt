-- ===== src/Ingest/Limiter.antt =====
-- The rate limit of the alerts and the bound on its memory (`_prune_alerted` and `_maybe_alert` of
-- backend/app/services/syslog_listener.py and snmp_trap_listener.py).
use network_monitoring.Dict
use network_monitoring.Dict.{Dict, keys}
use network_monitoring.Prelude.Int.{ℤ}
use network_monitoring.Ingest.{
  alerted_max, pop_all, expired_hosts, cap_alerted, prune_alerted, cooling, alert_row, alert_rows,
  maybe_alert,
}
use network_monitoring.Prelude.{
  ℕ, String, refl, inl, inr, Bool, true, false, none, some, List, [], arith, eq_iff, length,
  contains, ◌+◌, ◌≤◌, ◌<◌, ◌≡◌, ◌∙◌, ◌⊎◌, ◌∷◌, ◌++◌, ◌==◌, if◌then◌else◌, nat_eq, string_eq,
}

-- how often a host was told
unfoldable pub count_host : String → List String → ℕ
count_host h [] = 0
count_host h (g ∷ gs) = let rest = count_host h gs in if g == h then rest + 1 else rest

count_host-append :
    (h g : String) (gs : List String)
    → count_host h (gs ++ g ∷ []) ≡ count_host h gs + (if g == h then 1 else 0)
unfolding count_host
count_host-append h g [] = ground arith
count_host-append h g (x ∷ gs) = ground (arith, count_host-append h g gs)

abbrev Alerted : Type 0
Alerted = Dict String ℕ × List String

module _ {Row : Type 0} (host : Row → String) (severity : Row → ℕ) (m : ℤ) (now cooldown : ℕ)
    (h : String) where
  abbrev is_cooling : Alerted → Bool
  is_cooling st = cooling now cooldown (Dict.get h st.0)

  alert_row_cooling :
      (r : Row) (st : Alerted)
      → 0 < now
      → 0 < cooldown
      → is_cooling st ≡ true
      → (is_cooling (alert_row host severity m now cooldown r st) ≡ true)
        × (count_host h (alert_row host severity m now cooldown r st).1 ≡ count_host h st.1)
  unfolding alert_row cooling
  alert_row_cooling r (alerted, sent) pos span c = ground (
    arith,
    Dict.get-put (host r) h now alerted,
    count_host-append h (host r) sent,
    eq_iff (host r) h,
  )

  alert_rows_cooling :
      (rs : List Row) (st : Alerted)
      → 0 < now
      → 0 < cooldown
      → is_cooling st ≡ true
      → count_host h (alert_rows host severity m now cooldown rs st).1 ≡ count_host h st.1
  unfolding alert_rows
  alert_rows_cooling [] st pos span c = refl
  alert_rows_cooling (r ∷ rs) st pos span c =
      let (c', e) = alert_row_cooling r st pos span c in
      alert_rows_cooling rs (alert_row host severity m now cooldown r st) pos span c' ∙ e

  alert_row_once :
      (r : Row) (st : Alerted)
      → 0 < now
      → 0 < cooldown
      → (count_host h (alert_row host severity m now cooldown r st).1 ≡ count_host h st.1)
        ⊎ ((is_cooling (alert_row host severity m now cooldown r st) ≡ true)
            × (count_host h (alert_row host severity m now cooldown r st).1
                ≡ count_host h st.1 + 1))
  unfolding alert_row cooling
  alert_row_once r (alerted, sent) pos span = ground (
    arith,
    Dict.get-put (host r) h now alerted,
    count_host-append h (host r) sent,
    eq_iff (host r) h,
  )

  alert_rows_once :
      (rs : List Row) (st : Alerted)
      → 0 < now
      → 0 < cooldown
      → count_host h (alert_rows host severity m now cooldown rs st).1 ≤ count_host h st.1 + 1
  unfolding alert_rows
  alert_rows_once [] st pos span = omega arith
  alert_rows_once (r ∷ rs) st pos span =
      let st' = alert_row host severity m now cooldown r st in
      elim (alert_row_once r st pos span) [
        | inl same ↦ omega (arith, alert_rows_once rs st' pos span, same)
        | inr (c, more) ↦ omega (arith, alert_rows_cooling rs st' pos span c, more)
      ]

  -- However many rows of a host one batch holds, the host is told at most once.
  pub maybe_alert_once :
      (on : Bool) (rs : List Row) (st : Alerted)
      → 0 < now
      → 0 < cooldown
      → count_host h (maybe_alert host severity on m now cooldown rs st).1 ≤ count_host h st.1 + 1
  unfolding maybe_alert
  maybe_alert_once on rs (alerted, sent) pos span =
      ground (arith, alert_rows_once rs (prune_alerted now cooldown alerted, sent) pos span)

-- No host stands twice among the keys.
abbrev pub IsDict : Dict String ℕ → Type 0
IsDict [] = Unit
IsDict ((h, t) ∷ d) = (Dict.get h d ≡ none) × IsDict d

get-pop_all :
    (h : String) (hs : List String) (d : Dict String ℕ)
    → Dict.get h (pop_all hs d) ≡ (if contains h hs then none else Dict.get h d)
unfolding pop_all
get-pop_all h [] d = refl
get-pop_all h (g ∷ hs) d =
    ground (arith, get-pop_all h hs (Dict.pop g d), Dict.get-pop g h d, eq_iff g h)

module _ (now cooldown : ℕ) (h : String) where
  absent-expired_hosts :
      (d : Dict String ℕ) → Dict.get h d ≡ none → contains h (expired_hosts now cooldown d) ≡ false
  unfolding Dict.get expired_hosts
  absent-expired_hosts [] e = refl
  absent-expired_hosts ((g, t) ∷ d) e = ground (arith, absent-expired_hosts d)

  contains-expired_hosts :
      (d : Dict String ℕ) (t : ℕ)
      → IsDict d
      → Dict.get h d ≡ some t
      → now < t + cooldown
      → contains h (expired_hosts now cooldown d) ≡ false
  unfolding Dict.get expired_hosts
  contains-expired_hosts [] t k e i = cc
  contains-expired_hosts ((g, u) ∷ d) t k e i =
      ground (arith, contains-expired_hosts d t k.1, absent-expired_hosts d, eq_iff g h)

  -- The rate limit: a host told at a time that is not 0 is not told again by a batch inside the
  -- cooldown, if the hosts that are still cooling are no more than the cap.
  pub maybe_alert_cooling :
      {Row : Type 0} (host : Row → String) (severity : Row → ℕ) (m : ℤ) (on : Bool) (rs : List Row)
      (alerted : Dict String ℕ) (sent : List String) (t : ℕ)
      → IsDict alerted
      → Dict.get h alerted ≡ some t
      → 0 < t
      → t ≤ now
      → now < t + cooldown
      → length (pop_all (expired_hosts now cooldown alerted) alerted) ≤ alerted_max
      → count_host h (maybe_alert host severity on m now cooldown rs (alerted, sent)).1
        ≡ count_host h sent
  unfolding maybe_alert prune_alerted cap_alerted cooling
  maybe_alert_cooling host severity m on rs alerted sent t k e pos past inside few = ground (
    arith,
    get-pop_all h (expired_hosts now cooldown alerted) alerted,
    contains-expired_hosts alerted t k e inside,
    alert_rows_cooling host severity m now cooldown h rs (prune_alerted now cooldown alerted, sent),
  )
