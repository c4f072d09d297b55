-- ===== src/Ingest/Rounds.antt =====
-- A round of the loops of backend/app/services/syslog_listener.py and snmp_trap_listener.py: the
-- refreshed map of addresses to devices, the flushes, and the report of what was dropped.
use network_monitoring.Dict.{Dict}
use network_monitoring.StateCache.{is_empty}
use network_monitoring.Ingest.{Listener, drain}
use network_monitoring.Ingest.Flush.{rows, drain_total, drain_commits}
use network_monitoring.Settings.{seconds}
use network_monitoring.Prelude.Int.{ℤ}
use network_monitoring.Prelude.{
  ℕ, String, refl, ap, inl, inr, Bool, true, false, Option, none, some, [], map, arith, ltb,
  Bool-cases, length, ◌+◌, ◌≡◌, ◌∙◌, ◌++◌, if◌then◌else◌, nat_eq, string_eq,
}

-- the locals of the loop
pub record Receiver (Row : Type 0) : Type 0 where
  pub listener : Listener Row
  pub ip_to_device : Dict String ℕ
  pub map_refreshed : ℕ

abbrev pub map_ttl : ℕ
map_ttl = seconds 60

abbrev reported : {Row : Type 0} → Listener Row × Bool → Listener Row
reported (l, true) = record l { dropped = 0 }
reported (l, false) = l

reported_ok :
    {Row : Type 0} (x : Listener Row × Bool)
    → x.1 ≡ true
    → ((reported x).buffer ≡ x.0.buffer)
      × ((reported x).stored ≡ x.0.stored)
      × ((reported x).dropped ≡ 0)
reported_ok (l, true) e = (refl, refl, refl)
reported_ok (l, false) e = cc

-- `device_map` is what _device_map() returns, or none where it raises
refreshed : {Row : Type 0} → ℕ → Option (Dict String ℕ) → Receiver Row → Option (Receiver Row)
refreshed now device_map r =
    if ltb (r.map_refreshed + map_ttl) now
    then elim device_map [
      | none ↦ none
      | some m ↦ some (record r { ip_to_device = m; map_refreshed = now })
    ]
    else some r

module _ {Row : Type 0} (host : Row → String) (severity : Row → ℕ) where
  flushed : Bool → ℤ → ℕ → ℕ → (ℕ → Bool) → Receiver Row → Receiver Row
  unfolding drain
  flushed on max_severity now cooldown commits r = record r {
    listener = reported (
        drain host severity (length r.listener.buffer) on max_severity now cooldown r.ip_to_device
          commits r.listener);
  }

  -- the body of `while True`, after the sleep
  unfoldable pub round :
      Bool → ℤ → ℕ → ℕ → Option (Dict String ℕ) → (ℕ → Bool) → Receiver Row → Receiver Row
  unfolding refreshed flushed
  round on max_severity now cooldown device_map commits r =
      if is_empty r.listener.buffer then r else elim (refreshed now device_map r) [
        | none ↦ r
        | some r' ↦ flushed on max_severity now cooldown commits r'
      ]

  refreshed_kept :
      (now : ℕ) (m : Dict String ℕ) (r : Receiver Row)
      → (r' : Receiver Row) × (refreshed now (some m) r ≡ some r') × (r'.listener ≡ r.listener)
  unfolding refreshed
  refreshed_kept now m r = elim (Bool-cases (ltb (r.map_refreshed + map_ttl) now)) [
    | inl e ↦ (record r { ip_to_device = m; map_refreshed = now }, rw (e, refreshed) refl, refl)
    | inr e ↦ (r, rw (e, refreshed) refl, refl)
  ]

  flushed-empties :
      (on : Bool) (max_severity : ℤ) (now cooldown : ℕ) (ips : Dict String ℕ) (commits : ℕ → Bool)
      (l before : Listener Row)
      → ((n : ℕ) → commits n ≡ true)
      → l ≡ before
      → (let done =
            reported
              (drain host severity (length l.buffer) on max_severity now cooldown ips commits l) in
          (done.buffer ≡ []) × (rows done ≡ rows before ++ before.buffer) × (done.dropped ≡ 0))
  flushed-empties on max_severity now cooldown ips commits l before works same =
      let drained =
        drain host severity (length l.buffer) on max_severity now cooldown ips commits l in
      let (b, s, d) = reported_ok drained (
        drain_commits host severity on max_severity now cooldown ips (length l.buffer) commits l
          works) in
      let (empty, kept) =
        drain_total host severity on max_severity now cooldown ips (length l.buffer) commits l
          (omega arith) works in
      (b ∙ empty, ap (map (λ x. x.1)) s ∙ kept ∙ ap (λ x. rows x ++ x.buffer) same, d)

  -- A round in which the database answers and the buffer has rows empties the buffer into the table,
  -- in order, and the counter of dropped messages, which the log has told, starts again.
  pub round_empties :
      (on : Bool) (max_severity : ℤ) (now cooldown : ℕ) (m : Dict String ℕ) (commits : ℕ → Bool)
      (r : Receiver Row)
      → ((n : ℕ) → commits n ≡ true)
      → is_empty r.listener.buffer ≡ false
      → (let l = (round on max_severity now cooldown (some m) commits r).listener in
          (l.buffer ≡ []) × (rows l ≡ rows r.listener ++ r.listener.buffer) × (l.dropped ≡ 0))
  unfolding round flushed
  round_empties on max_severity now cooldown m commits r works more =
      let (r', e, same) = refreshed_kept now m r in
      rw (more, e, round)
        (flushed-empties on max_severity now cooldown r'.ip_to_device commits r'.listener r.listener
          works same)
