-- ===== src/Alerts/Rules.antt =====
-- When the alert engine notifies (`_alert_tick` of backend/app/services/alerts.py), against its
-- suppression rules, which are stated on the columns of the rows.
use network_monitoring.Table
use network_monitoring.Settings.{Settings}
use network_monitoring.Device.{Device, offline, is_offline}
use network_monitoring.World.{EventLog}
use network_monitoring.StateCache.Coherence.{device_id}
use network_monitoring.Alerts.{
  in_maintenance, in_alarm, outage_started_at, parent_down, too_early, recovered, alarm, decide,
}
use network_monitoring.Alerts.Conditions.{
  IsDown, HasLasted, is_offline_iff, in_alarm-IsDown, in_maintenance-false, parent_down-false,
  too_early-HasLasted,
}
use network_monitoring.Prelude.{
  ℕ, refl, inl, inr, true, false, Option, none, some, List, arith, Bool-cases, is_some, ◌*◌, ◌≤◌,
  ◌≡◌, ◌≢◌, ◌↔◌, ◌⊎◌, nat_eq, string_eq,
}

-- The rules under which a device's alarm is sent.
pub record MustAlert (s : Settings) (now : ℕ) (rows : List Device) (log : List EventLog)
    (d : Device) : Type 0 where
  pub enabled : d.is_enabled ≡ true
  pub down : IsDown d
  pub unnotified : d.alert_notified_at ≡ none
  pub unmuted : d.is_muted ≡ false
  pub no_maintenance : (t : ℕ) → d.maintenance_until ≡ some t → t ≤ now
  pub critical : (s.alert_critical_only ≡ false) ⊎ (d.is_critical ≡ true)
  pub parent_up :
      (p : ℕ) (parent : Device)
      → d.parent_id ≡ some p
      → Table.find device_id p rows ≡ some parent
      → parent.current_status ≢ offline
  pub long_enough :
      d.current_status ≡ offline → HasLasted (s.alert_after_seconds * 1000000) now d.id log

-- The rules under which its recovery is.
pub record MustRecover (d : Device) : Type 0 where
  pub enabled : d.is_enabled ≡ true
  pub reachable : d.current_status ≢ offline
  pub serving : d.service_ok ≢ some false
  pub notified : d.alert_notified_at ≢ none

-- the conditions of the code
record Unsuppressed (s : Settings) (now : ℕ) (rows : List Device) (log : List EventLog) (d : Device)
    : Type 0 where
  enabled : d.is_enabled ≡ true
  alarmed : in_alarm d ≡ true
  unnotified : d.alert_notified_at ≡ none
  unmuted : d.is_muted ≡ false
  no_maintenance : in_maintenance d now ≡ false
  critical : (s.alert_critical_only ≡ false) ⊎ (d.is_critical ≡ true)
  parent_up : parent_down rows d ≡ false
  long_enough :
      (is_offline d.current_status ≡ false) ⊎ (too_early s now (outage_started_at d.id log) ≡ false)

decide-Unsuppressed :
    (s : Settings) (now : ℕ) (rows : List Device) (log : List EventLog) (d : Device)
    → decide s now rows log d ≡ alarm
    → Unsuppressed s now rows log d
unfolding decide
decide-Unsuppressed s now rows log d h = record {
  enabled = ground arith;
  alarmed = ground arith;
  unnotified = ground arith;
  unmuted = ground arith;
  no_maintenance = ground arith;
  critical = ground arith;
  parent_up = ground arith;
  long_enough = ground arith;
}

Unsuppressed-decide :
    (s : Settings) (now : ℕ) (rows : List Device) (log : List EventLog) (d : Device)
    → Unsuppressed s now rows log d
    → decide s now rows log d ≡ alarm
unfolding decide
Unsuppressed-decide s now rows log d h = ground arith

Unsuppressed-MustAlert :
    (s : Settings) (now : ℕ) (rows : List Device) (log : List EventLog) (d : Device)
    → Unsuppressed s now rows log d
    → MustAlert s now rows log d
Unsuppressed-MustAlert s now rows log d h = record {
  enabled = h.enabled;
  down = (in_alarm-IsDown d).0 h.alarmed;
  unnotified = h.unnotified;
  unmuted = h.unmuted;
  no_maintenance = (in_maintenance-false d now).0 h.no_maintenance;
  critical = h.critical;
  parent_up = (parent_down-false rows d).0 h.parent_up;
  long_enough = λ off. elim h.long_enough [
    | inl up ↦ ground (arith, up, (is_offline_iff d.current_status).1 off)
    | inr late ↦ (too_early-HasLasted s now d.id log).0 late
  ];
}

MustAlert-Unsuppressed :
    (s : Settings) (now : ℕ) (rows : List Device) (log : List EventLog) (d : Device)
    → MustAlert s now rows log d
    → Unsuppressed s now rows log d
MustAlert-Unsuppressed s now rows log d h = record {
  enabled = h.enabled;
  alarmed = (in_alarm-IsDown d).1 h.down;
  unnotified = h.unnotified;
  unmuted = h.unmuted;
  no_maintenance = (in_maintenance-false d now).1 h.no_maintenance;
  critical = h.critical;
  parent_up = (parent_down-false rows d).1 h.parent_up;
  long_enough = elim (Bool-cases (is_offline d.current_status)) [
    | inr up ↦ inl up
    | inl off ↦ inr (
        (too_early-HasLasted s now d.id log).1
          (h.long_enough ((is_offline_iff d.current_status).0 off)))
  ];
}

not_in_alarm :
    (d : Device)
    → (in_alarm d ≡ false) ↔ ((d.current_status ≢ offline) × (d.service_ok ≢ some false))
not_in_alarm d =
    let down = in_alarm-IsDown d in
    (
      λ h. (λ off. let clash = down.1 (inl off) in cc, λ bad. let clash = down.1 (inr bad) in cc),
      λ h. elim (Bool-cases (in_alarm d)) [
        | inr calm ↦ calm
        | inl alarmed ↦ elim (down.0 alarmed) [
          | inl off ↦ absurd (h.0 off)
          | inr bad ↦ absurd (h.1 bad)
        ]
      ],
    )

notified_iff : (o : Option ℕ) → (is_some o ≡ true) ↔ (o ≢ none)
notified_iff none = (λ h. cc, λ h. absurd (h refl))
notified_iff (some t) = (λ h e. cc, λ h. refl)

decide-MustRecover :
    (s : Settings) (now : ℕ) (rows : List Device) (log : List EventLog) (d : Device)
    → decide s now rows log d ≡ recovered
    → MustRecover d
unfolding decide
decide-MustRecover s now rows log d h =
    let calm = (not_in_alarm d).0 (ground arith) in
    record {
      enabled = ground arith;
      reachable = calm.0;
      serving = calm.1;
      notified = (notified_iff d.alert_notified_at).0 (ground arith);
    }

MustRecover-decide :
    (s : Settings) (now : ℕ) (rows : List Device) (log : List EventLog) (d : Device)
    → MustRecover d
    → decide s now rows log d ≡ recovered
unfolding decide
MustRecover-decide s now rows log d h =
    let calm = (not_in_alarm d).1 (h.reachable, h.serving) in
    let was = (notified_iff d.alert_notified_at).1 h.notified in
    rw (h.enabled, calm, was, decide) refl

-- A tick decides to send the alarm of a device exactly if the device is enabled, is offline or fails
-- its service check, was not notified, is not muted, under no maintenance that still lasts, critical
-- where only critical devices alert, has no parent that is offline, and, if it is itself offline,
-- the log has an outage of it and every one in it began at least ALERT_AFTER_SECONDS ago. It decides
-- to send a recovery exactly if the device is enabled, neither offline nor failing its service check,
-- and was notified; muting, maintenance and the parent play no part.
pub decide_rules :
    (s : Settings) (now : ℕ) (rows : List Device) (log : List EventLog) (d : Device)
    → ((decide s now rows log d ≡ alarm) ↔ MustAlert s now rows log d)
      × ((decide s now rows log d ≡ recovered) ↔ MustRecover d)
decide_rules s now rows log d = (
  (
    λ h. Unsuppressed-MustAlert s now rows log d (decide-Unsuppressed s now rows log d h),
    λ h. Unsuppressed-decide s now rows log d (MustAlert-Unsuppressed s now rows log d h),
  ),
  (decide-MustRecover s now rows log d, MustRecover-decide s now rows log d),
)
