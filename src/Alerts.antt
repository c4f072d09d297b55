-- ===== src/Alerts.antt =====
-- backend/app/services/alerts.py: the outage alerts. One tick reads every row, and decides and
-- writes for one device after another; other tasks' writes during a delivery are not modelled.
pub mod Conditions
pub mod Rules
pub mod Episodes
pub mod Snapshot
pub mod Loss
use network_monitoring.Dict
use network_monitoring.Table
use network_monitoring.Text.{concat}
use network_monitoring.Settings.{Settings, seconds}
use network_monitoring.Device.{Device, DeviceStatus, online, offline, is_offline, serialize_device}
use network_monitoring.World.{World, EventLog, EventType, came_online, went_offline, add_audit}
use network_monitoring.StateCache.{upsert_device}
use network_monitoring.StateCache.Coherence.{device_id}
use network_monitoring.Notify.{send_alert, summarize}
use network_monitoring.Prelude.{
  ℕ, String, Bool, true, false, not, Option, none, some, List, [], max, ltb, nat_beq, is_some, ◌+◌,
  ◌&&◌, ◌||◌, ◌∷◌, ◌++◌, if◌then◌else◌, nat_eq, string_eq,
}

-- A notification without its body.
pub record Notice : Type 0 where
  pub kind : String
  pub device : ℕ
  pub subject : String

unfoldable pub in_maintenance : Device → ℕ → Bool
in_maintenance d now = elim d.maintenance_until [ none ↦ false | some t ↦ ltb now t ]

-- d.service_ok is False
abbrev pub service_failing : Option Bool → Bool
service_failing (some false) = true
service_failing _ = false

unfoldable pub in_alarm : Device → Bool
in_alarm d = is_offline d.current_status || service_failing d.service_ok

abbrev pub is_outage : EventType → Bool
is_outage went_offline = true
is_outage came_online = false

abbrev pub later : Option ℕ → ℕ → Option ℕ
later none t = some t
later (some u) t = some (max u t)

-- the latest went_offline event of the device
unfoldable pub outage_started_at : ℕ → List EventLog → Option ℕ
outage_started_at id [] = none
outage_started_at id (e ∷ es) =
    let rest = outage_started_at id es in
    if nat_beq e.device_id id && is_outage e.event_type then later rest e.created_at else rest

-- The parent's row is the one that was read at the start of the tick.
unfoldable pub parent_down : List Device → Device → Bool
parent_down rows d = elim d.parent_id [
  | none ↦ false
  | some p ↦ elim (Table.find device_id p rows) [
    | none ↦ false
    | some parent ↦ is_offline parent.current_status
  ]
]

-- `(now - started).total_seconds() < ALERT_AFTER_SECONDS`, or no outage on record
unfoldable pub too_early : Settings → ℕ → Option ℕ → Bool
too_early s now none = true
too_early s now (some started) = ltb now (started + seconds s.alert_after_seconds)

pub data Decision : Type 0 where
  quiet recovered alarm : Decision

-- the body of the loop of `_alert_tick`, up to the writes
unfoldable pub decide : Settings → ℕ → List Device → List EventLog → Device → Decision
unfolding in_maintenance in_alarm parent_down too_early
decide s now rows log d =
    if not d.is_enabled
    then quiet
    else if not (in_alarm d) && is_some d.alert_notified_at
    then recovered
    else if not (in_alarm d) || is_some d.alert_notified_at
    then quiet
    else if d.is_muted || in_maintenance d now
    then quiet
    else if s.alert_critical_only && not d.is_critical
    then quiet
    else if parent_down rows d
    then quiet
    else if is_offline d.current_status && too_early s now (outage_started_at d.id log)
    then quiet
    else alarm

-- the row after the decision
unfoldable pub marked : ℕ → Decision → Device → Device
marked now quiet d = d
marked now recovered d = record d { alert_notified_at = none; updated_at = now }
marked now alarm d = record d { alert_notified_at = some now; updated_at = now }

abbrev subject : Decision → Device → String
subject quiet d = ""
subject recovered d = concat ("[RESOLVED] " ∷ d.vendor_name ∷ " (" ∷ d.ip_address ∷ ")" ∷ [])
subject alarm d = concat ("[ALERT] " ∷ d.vendor_name ∷ " (" ∷ d.ip_address ∷ ") DOWN" ∷ [])

abbrev action : Decision → String
action quiet = ""
action recovered = "alert.recovered"
action alarm = "alert.sent"

abbrev kind_of : Decision → String
kind_of quiet = ""
kind_of recovered = "recovered"
kind_of alarm = "alarm"

-- The delivery, the audit row, the commit and the refreshed snapshot.
unfoldable pub carry_out :
    Settings
    → (String → Option Bool)
    → ℕ
    → Decision
    → Device
    → World × List Notice
    → World × List Notice
unfolding marked upsert_device add_audit
carry_out s deliver now quiet d st = st
carry_out s deliver now k d (w, sent) =
    let d' = marked now k d in
    let logged =
      add_audit none (action k) (some "device") (some d.id)
        (some (summarize (send_alert s deliver))) w in
    let saved = record logged { devices = Table.replace device_id d' w.devices } in
    (
      upsert_device (serialize_device d') saved,
      sent ++ record { kind = kind_of k; device = d.id; subject = subject k d } ∷ [],
    )

unfoldable pub alert_rows :
    Settings
    → (String → Option Bool)
    → ℕ
    → List Device
    → List Device
    → World × List Notice
    → World × List Notice
alert_rows s deliver now rows [] st = st
alert_rows s deliver now rows (d ∷ ds) st =
    alert_rows s deliver now rows ds
      (carry_out s deliver now (decide s now rows st.0.event_logs d) d st)

unfoldable pub alert_tick :
    Settings → (String → Option Bool) → ℕ → World × List Notice → World × List Notice
unfolding alert_rows
alert_tick s deliver now st = alert_rows s deliver now st.0.devices st.0.devices st
