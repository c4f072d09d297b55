-- ===== src/Ingest.antt =====
-- What the two UDP listeners share (backend/app/services/syslog_listener.py and
-- snmp_trap_listener.py): the bounded buffer, the flush in batches, and the alerts that are
-- rate-limited by source host.
pub mod Limiter
pub mod Flush
pub mod Rounds
use network_monitoring.Dict
use network_monitoring.Dict.{Dict, keys}
use network_monitoring.Settings.{seconds}
use network_monitoring.StateCache.{is_empty}
use network_monitoring.Prelude.Int.{ℤ, is_negative, below}
use network_monitoring.Prelude.{
  ℕ, zero, suc, String, Bool, true, false, not, Option, none, some, List, [], map, ltb, leb,
  nat_beq, length, take, drop, ◌+◌, ◌-◌, ◌*◌, ◌&&◌, ◌||◌, ◌∷◌, ◌++◌, if◌then◌else◌, nat_eq,
  string_eq,
}

abbrev pub buffer_hard_cap : ℕ
buffer_hard_cap = 10000

abbrev pub flush_max_rows : ℕ
flush_max_rows = 200

abbrev pub alerted_max : ℕ
alerted_max = 4096

-- The buffer and the counter of the protocol, the rows in the table with their device, and
-- `_alerted_at`; `sent` are the hosts of the alerts that went out.
pub record Listener (Row : Type 0) : Type 0 where
  pub buffer : List Row
  pub dropped : ℕ
  pub stored : List (Option ℕ × Row)
  pub alerted_at : Dict String ℕ
  pub sent : List String

-- the hosts in the order of their times; equal times keep their order
insert_by_time : String × ℕ → Dict String ℕ → Dict String ℕ
insert_by_time (h, t) [] = (h, t) ∷ []
insert_by_time (h, t) ((g, u) ∷ d) =
    if leb t u then (h, t) ∷ (g, u) ∷ d else (g, u) ∷ insert_by_time (h, t) d

sort_by_time : Dict String ℕ → Dict String ℕ
sort_by_time [] = []
sort_by_time (e ∷ d) = insert_by_time e (sort_by_time d)

unfoldable pub pop_all : List String → Dict String ℕ → Dict String ℕ
pop_all [] d = d
pop_all (h ∷ hs) d = pop_all hs (Dict.pop h d)

-- `[h for h, t in _alerted_at.items() if now - t >= cooldown]`
unfoldable pub expired_hosts : ℕ → ℕ → Dict String ℕ → List String
expired_hosts now cooldown [] = []
expired_hosts now cooldown ((h, t) ∷ d) =
    let rest = expired_hosts now cooldown d in if leb (t + cooldown) now then h ∷ rest else rest

-- at most `alerted_max` hosts stay: the oldest go
unfoldable pub cap_alerted : ℕ → Dict String ℕ → Dict String ℕ
unfolding insert_by_time sort_by_time pop_all
cap_alerted cap d =
    if ltb cap (length d) then pop_all (take (length d - cap) (keys (sort_by_time d))) d else d

-- `_prune_alerted`
unfoldable pub prune_alerted : ℕ → ℕ → Dict String ℕ → Dict String ℕ
unfolding expired_hosts pop_all
prune_alerted now cooldown d = cap_alerted alerted_max (pop_all (expired_hosts now cooldown d) d)

-- `last and now - last < cooldown`: a reading of 0 counts as no alert
unfoldable pub cooling : ℕ → ℕ → Option ℕ → Bool
cooling now cooldown none = false
cooling now cooldown (some last) = not (nat_beq last 0) && ltb now (last + cooldown)

module _ {Row : Type 0} (host : Row → String) (severity : Row → ℕ) where
  -- one round of the loop of `_maybe_alert`: the hosts alerted, and the hosts told
  unfoldable pub alert_row :
      ℤ → ℕ → ℕ → Row → Dict String ℕ × List String → Dict String ℕ × List String
  unfolding cooling
  alert_row max_severity now cooldown r (alerted, sent) =
      if below max_severity (severity r) || cooling now cooldown (Dict.get (host r) alerted)
      then (alerted, sent)
      else (Dict.put (host r) now alerted, sent ++ host r ∷ [])

  unfoldable pub alert_rows :
      ℤ → ℕ → ℕ → List Row → Dict String ℕ × List String → Dict String ℕ × List String
  unfolding alert_row
  alert_rows max_severity now cooldown [] st = st
  alert_rows max_severity now cooldown (r ∷ rs) st =
      alert_rows max_severity now cooldown rs (alert_row max_severity now cooldown r st)

  -- `_maybe_alert`; `on` is what else must be switched on
  unfoldable pub maybe_alert :
      Bool → ℤ → ℕ → ℕ → List Row → Dict String ℕ × List String → Dict String ℕ × List String
  unfolding alert_rows prune_alerted
  maybe_alert on max_severity now cooldown rows (alerted, sent) =
      if not on || is_negative max_severity
      then (alerted, sent)
      else alert_rows max_severity now cooldown rows (prune_alerted now cooldown alerted, sent)

  -- `_flush`: false beside the state stands for the exception of a failed commit, after which the
  -- rows that were taken out of the buffer are gone
  unfoldable pub flush :
      Bool → ℤ → ℕ → ℕ → Dict String ℕ → Bool → Listener Row → Listener Row × Bool
  unfolding maybe_alert
  flush on max_severity now cooldown ip_to_device committed l =
      let rows = take (flush_max_rows * 2) l.buffer in
      let taken = record l { buffer = drop (flush_max_rows * 2) l.buffer } in
      let (alerted, sent) = maybe_alert on max_severity now cooldown rows (l.alerted_at, l.sent) in
      if committed
      then (
        record taken {
          stored = l.stored ++ map (λ r. (Dict.get (host r) ip_to_device, r)) rows;
          alerted_at = alerted;
          sent = sent;
        },
        true,
      )
      else (taken, false)

  -- `while buffer: await _flush(…)` inside the `try`; `commits` says how each commit ends. The fuel
  -- is the length of the buffer, of which every round takes something.
  unfoldable pub drain :
      ℕ → Bool → ℤ → ℕ → ℕ → Dict String ℕ → (ℕ → Bool) → Listener Row → Listener Row × Bool
  drain zero on max_severity now cooldown ips commits l = (l, true)
  drain (suc fuel) on max_severity now cooldown ips commits l =
      let (l', ok) = flush on max_severity now cooldown ips (commits fuel) l in
      let rest = drain fuel on max_severity now cooldown ips commits l' in
      if is_empty l.buffer then (l, true) else if ok then rest else (l', false)

-- `datagram_received`: `parsed` is the row, or none where the datagram is not kept
unfoldable pub receive : {Row : Type 0} → Option Row → Listener Row → Listener Row
receive parsed l =
    if leb buffer_hard_cap (length l.buffer)
    then record l { dropped = l.dropped + 1 }
    else elim parsed [ none ↦ l | some r ↦ record l { buffer = l.buffer ++ r ∷ [] } ]
