-- ===== src/Alerts/Loss.antt =====
-- The degraded-link alert: `_loss_tick` of backend/app/services/alerts.py.
use network_monitoring.Dict
use network_monitoring.Dict.{Dict}
use network_monitoring.Text.{concat}
use network_monitoring.Settings.{Settings, seconds}
use network_monitoring.Device.{Device, is_offline}
use network_monitoring.World.{World, PingHistory, add_audit}
use network_monitoring.Notify.{send_alert, summarize}
use network_monitoring.Alerts.{Notice, in_maintenance}
use network_monitoring.Prelude.{
  ℕ, String, refl, Bool, true, false, not, Option, none, some, List, [], arith, ltb, leb, nat_beq,
  ◌+◌, ◌-◌, ◌*◌, ◌≤◌, ◌<◌, ◌≡◌, ◌∙◌, ◌↔◌, ◌&&◌, ◌||◌, ◌∷◌, ◌++◌, if◌then◌else◌, nat_eq, string_eq,
}

-- The query: the packets sent to and received from a device in the window.
unfoldable pub window_sums : ℕ → ℕ → List PingHistory → ℕ × ℕ
window_sums since id [] = (0, 0)
window_sums since id (p ∷ ps) =
    let (sent, received) = window_sums since id ps in
    if nat_beq p.device_id id && leb since p.ts
    then (p.sent + sent, p.received + received)
    else (sent, received)

-- HAVING sum(sent) >= 6, and (1 - received / sent) * 100 >= ALERT_LOSS_PCT without the division
unfoldable pub is_lossy : Settings → ℕ × ℕ → Bool
is_lossy s (sent, received) =
    leb 6 sent && leb (s.alert_loss_pct * sent + 100000 * received) (100000 * sent)

unfoldable pub loss_cooling : Settings → ℕ → Option ℕ → Bool
loss_cooling s now none = false
loss_cooling s now (some last) = ltb now (last + seconds (s.alert_loss_cooldown_minutes * 60))

-- the conditions of the loop over the lossy devices
unfoldable pub must_warn : Settings → ℕ → World → Dict ℕ ℕ → Device → Bool
unfolding window_sums is_lossy loss_cooling
must_warn s now w notified d =
    is_lossy s (window_sums (now - seconds (s.alert_loss_window_minutes * 60)) d.id w.ping_history)
    && not (not d.is_enabled || d.is_muted || in_maintenance d now)
    && not (s.alert_critical_only && not d.is_critical)
    && not (is_offline d.current_status)
    && not (loss_cooling s now (Dict.get d.id notified))

-- the world, `_loss_notified_at`, and what was sent
abbrev pub LossState : Type 0
LossState = World × Dict ℕ ℕ × List Notice

unfoldable pub warn_one : Settings → (String → Option Bool) → ℕ → Device → LossState → LossState
unfolding must_warn add_audit
warn_one s deliver now d (w, notified, sent) =
    if must_warn s now w notified d
    then (
      add_audit none "alert.degraded" (some "device") (some d.id)
          (some (summarize (send_alert s deliver))) w,
      Dict.put d.id now notified,
      sent
          ++ record {
            kind = "degraded";
            device = d.id;
            subject = concat ("[DEGRADED] " ∷ d.vendor_name ∷ " (" ∷ d.ip_address ∷ ")" ∷ []);
          }
            ∷ [],
    )
    else (w, notified, sent)

unfoldable pub warn_rows :
    Settings → (String → Option Bool) → ℕ → List Device → LossState → LossState
warn_rows s deliver now [] st = st
warn_rows s deliver now (d ∷ ds) st = warn_rows s deliver now ds (warn_one s deliver now d st)

unfoldable pub loss_tick : Settings → (String → Option Bool) → ℕ → LossState → LossState
unfolding warn_one warn_rows
loss_tick s deliver now st =
    let warned = warn_rows s deliver now st.0.devices st in
    if nat_beq s.alert_loss_pct 0 then st else warned

-- how many notices of a device there are
unfoldable pub count_for : ℕ → List Notice → ℕ
count_for k [] = 0
count_for k (n ∷ ns) = let rest = count_for k ns in if nat_beq n.device k then rest + 1 else rest

count_for-append :
    (k : ℕ) (ns : List Notice) (n : Notice)
    → count_for k (ns ++ n ∷ []) ≡ count_for k ns + (if nat_beq n.device k then 1 else 0)
unfolding count_for
count_for-append k [] n = ground arith
count_for-append k (m ∷ ns) n = ground (arith, count_for-append k ns n)

abbrev IsCooling : Settings → ℕ → ℕ → LossState → Type 0
IsCooling s now k st = loss_cooling s now (Dict.get k st.1) ≡ true

warn_one-IsCooling :
    (s : Settings) (deliver : String → Option Bool) (now k : ℕ) (d : Device) (st : LossState)
    → 0 < s.alert_loss_cooldown_minutes
    → IsCooling s now k st
    → IsCooling s now k (warn_one s deliver now d st)
      × (count_for k (warn_one s deliver now d st).2 ≡ count_for k st.2)
unfolding warn_one must_warn loss_cooling seconds
warn_one-IsCooling s deliver now k d (w, notified, sent) pos h = ground (
  arith,
  Dict.get-put d.id k now notified,
  count_for-append k sent (record {
    kind = "degraded";
    device = d.id;
    subject = concat ("[DEGRADED] " ∷ d.vendor_name ∷ " (" ∷ d.ip_address ∷ ")" ∷ []);
  }),
)

warn_rows-IsCooling :
    (s : Settings) (deliver : String → Option Bool) (now k : ℕ) (ds : List Device) (st : LossState)
    → 0 < s.alert_loss_cooldown_minutes
    → IsCooling s now k st
    → IsCooling s now k (warn_rows s deliver now ds st)
      × (count_for k (warn_rows s deliver now ds st).2 ≡ count_for k st.2)
unfolding warn_rows
warn_rows-IsCooling s deliver now k [] st pos h = (h, refl)
warn_rows-IsCooling s deliver now k (d ∷ ds) st pos h =
    let (h', e) = warn_one-IsCooling s deliver now k d st pos h in
    let (h'', e') = warn_rows-IsCooling s deliver now k ds (warn_one s deliver now d st) pos h' in
    (h'', e' ∙ e)

-- While the cooldown of a device lasts, a tick sends no degraded-link notice of it, whatever its
-- packets say.
pub loss_tick_cooling :
    (s : Settings) (deliver : String → Option Bool) (now k : ℕ) (st : LossState)
    → 0 < s.alert_loss_cooldown_minutes
    → loss_cooling s now (Dict.get k st.1) ≡ true
    → count_for k (loss_tick s deliver now st).2 ≡ count_for k st.2
unfolding loss_tick
loss_tick_cooling s deliver now k st pos h =
    ground (arith, warn_rows-IsCooling s deliver now k st.0.devices st pos h)

-- A link is lossy exactly if at least six packets were sent and the lost ones are at least
-- ALERT_LOSS_PCT of them, provided no more packets came back than were sent.
pub is_lossy-lost :
    (s : Settings) (sent received : ℕ)
    → received ≤ sent
    → (is_lossy s (sent, received) ≡ true)
      ↔ ((6 ≤ sent) × (s.alert_loss_pct * sent ≤ 100000 * (sent - received)))
unfolding is_lossy
is_lossy-lost s sent received h = ground arith
