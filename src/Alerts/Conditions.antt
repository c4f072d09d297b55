-- ===== src/Alerts/Conditions.antt =====
-- The tests of `_alert_tick` (backend/app/services/alerts.py), as statements on the columns of the
-- rows.
use network_monitoring.Table
use network_monitoring.Settings.{Settings, seconds}
use network_monitoring.Device.{Device, DeviceStatus, online, offline, unknown, is_offline}
use network_monitoring.World.{EventLog, EventType, came_online, went_offline}
use network_monitoring.StateCache.Coherence.{device_id}
use network_monitoring.Alerts.{
  in_maintenance, in_alarm, service_failing, outage_started_at, parent_down, too_early, is_outage,
  later,
}
use network_monitoring.Prelude.{
  ℕ, refl, inl, inr, Bool, true, false, Option, none, some, List, [], arith, nat_beq, nat_beq_iff,
  Bool-cases, Option-cases, is_some, All, ◌+◌, ◌*◌, ◌≤◌, ◌≡◌, ◌≢◌, ◌↔◌, ◌⊎◌, ◌&&◌, ◌∷◌, nat_eq,
  string_eq,
}

-- offline, or its service check failing
abbrev pub IsDown : Device → Type 0
IsDown d = (d.current_status ≡ offline) ⊎ (d.service_ok ≡ some false)

abbrev pub Any : {A : Type 0} → (A → Type 0) → List A → Type 0
Any P [] = ⊥
Any P (x ∷ xs) = P x ⊎ Any P xs

-- The log has an outage of the device, and every one began at least `duration` ago.
abbrev pub HasLasted : ℕ → ℕ → ℕ → List EventLog → Type 0
HasLasted duration now id log =
    Any (λ (e : EventLog). (e.device_id ≡ id) × (e.event_type ≡ went_offline)) log
    × All
        (λ (e : EventLog).
          e.device_id ≡ id → e.event_type ≡ went_offline → e.created_at + duration ≤ now)
        log

pub is_offline_iff : (v : DeviceStatus) → (is_offline v ≡ true) ↔ (v ≡ offline)
is_offline_iff online = (λ h. cc, λ h. cc)
is_offline_iff offline = (λ h. refl, λ h. refl)
is_offline_iff unknown = (λ h. cc, λ h. cc)

pub service_failing_iff : (v : Option Bool) → (service_failing v ≡ true) ↔ (v ≡ some false)
service_failing_iff none = (λ h. cc, λ h. cc)
service_failing_iff (some true) = (λ h. cc, λ h. cc)
service_failing_iff (some false) = (λ h. refl, λ h. refl)

is_outage_iff : (v : EventType) → (is_outage v ≡ true) ↔ (v ≡ went_offline)
is_outage_iff came_online = (λ h. cc, λ h. cc)
is_outage_iff went_offline = (λ h. refl, λ h. refl)

pub in_alarm-IsDown : (d : Device) → (in_alarm d ≡ true) ↔ IsDown d
unfolding in_alarm
in_alarm-IsDown d = elim (Bool-cases (is_offline d.current_status)) [
  | inl e ↦ (λ h. inl ((is_offline_iff d.current_status).0 e), λ h. rw (e, in_alarm) refl)
  | inr e ↦ (
    λ h. inr ((service_failing_iff d.service_ok).0 (ground (arith, e, h))),
    λ h. elim h [
      | inl off ↦ ground (arith, e, (is_offline_iff d.current_status).1 off)
      | inr failing ↦ ground (arith, e, (service_failing_iff d.service_ok).1 failing)
    ],
  )
]

pub in_maintenance-false :
    (d : Device) (now : ℕ)
    → (in_maintenance d now ≡ false) ↔ ((t : ℕ) → d.maintenance_until ≡ some t → t ≤ now)
unfolding in_maintenance
in_maintenance-false d now = elim (Option-cases d.maintenance_until) [
  | inl e ↦ (λ h t is. cc, λ h. ground (arith, e))
  | inr (t, e) ↦ (λ h u is. ground (arith, e, is, h), λ h. ground (arith, e, h t e))
]

pub parent_down-false :
    (rows : List Device) (d : Device)
    → (parent_down rows d ≡ false) ↔ (
        (p : ℕ) (parent : Device)
        → d.parent_id ≡ some p
        → Table.find device_id p rows ≡ some parent
        → parent.current_status ≢ offline)
unfolding parent_down
parent_down-false rows d = elim (Option-cases d.parent_id) [
  | inl e ↦ (λ h p parent is found off. cc, λ h. ground (arith, e))
  | inr (p, e) ↦ elim (Option-cases (Table.find device_id p rows)) [
    | inl f ↦ (λ h q parent is found off. cc, λ h. ground (arith, e, f))
    | inr (parent, f) ↦ (
      λ h q other is found off.
          ground (arith, e, f, h, is, found, (is_offline_iff other.current_status).1 off),
      λ h. elim (Bool-cases (is_offline parent.current_status)) [
        | inl off ↦ absurd (h p parent e f ((is_offline_iff parent.current_status).0 off))
        | inr up ↦ rw (e, f, up, parent_down) refl
      ],
    )
  ]
]

IsOld : ℕ → ℕ → Option ℕ → Type 0
IsOld duration now none = Unit
IsOld duration now (some t) = t + duration ≤ now

IsOld-later :
    (duration now t : ℕ) (o : Option ℕ)
    → IsOld duration now (later o t) ↔ ((t + duration ≤ now) × IsOld duration now o)
unfolding IsOld
IsOld-later duration now t none = (λ h. (h, tt), λ h. h.0)
IsOld-later duration now t (some u) =
    (λ h. (omega (arith, h), omega (arith, h)), λ h. omega (arith, h.0, h.1))

outage_cases :
    (id : ℕ) (e : EventLog)
    → (((nat_beq e.device_id id && is_outage e.event_type) ≡ true)
        × (e.device_id ≡ id)
        × (e.event_type ≡ went_offline))
      ⊎ (((nat_beq e.device_id id && is_outage e.event_type) ≡ false)
          × (e.device_id ≡ id → e.event_type ≢ went_offline))
outage_cases id e = elim (Bool-cases (nat_beq e.device_id id)) [
  | inr far ↦ inr (rw far refl, λ same. ground (arith, far, same))
  | inl near ↦ elim (Bool-cases (is_outage e.event_type)) [
    | inr f ↦
        inr (rw (near, f) refl, λ same out. let clash = (is_outage_iff e.event_type).1 out in cc)
    | inl f ↦
        inl
          (rw (near, f) refl, (nat_beq_iff e.device_id id).0 near, (is_outage_iff e.event_type).0 f)
  ]
]

outage_started_at-IsOld :
    (duration now id : ℕ) (log : List EventLog)
    → IsOld duration now (outage_started_at id log)
      ↔ All
          (λ (e : EventLog).
            e.device_id ≡ id → e.event_type ≡ went_offline → e.created_at + duration ≤ now)
          log
unfolding outage_started_at IsOld
outage_started_at-IsOld duration now id [] = (λ h. tt, λ h. tt)
outage_started_at-IsOld duration now id (e ∷ log) =
    let rest = outage_started_at-IsOld duration now id log in
    elim (outage_cases id e) [
      | inr (f, other) ↦
          rw (f, outage_started_at)
            (λ h. (λ same out. absurd (other same out), rest.0 h), λ h. rest.1 h.1)
      | inl (f, same, out) ↦
          let split = IsOld-later duration now e.created_at (outage_started_at id log) in
          rw (f, outage_started_at)
            (
              λ h. (λ x y. (split.0 h).0, rest.0 (split.0 h).1),
              λ h. split.1 (h.0 same out, rest.1 h.1),
            )
    ]

is_some-later : (t : ℕ) (o : Option ℕ) → is_some (later o t) ≡ true
is_some-later t none = refl
is_some-later t (some u) = refl

is_some-outage_started_at :
    (id : ℕ) (log : List EventLog)
    → (is_some (outage_started_at id log) ≡ true)
      ↔ Any (λ (e : EventLog). (e.device_id ≡ id) × (e.event_type ≡ went_offline)) log
unfolding outage_started_at
is_some-outage_started_at id [] = (λ h. cc, λ h. absurd h)
is_some-outage_started_at id (e ∷ log) =
    let rest = is_some-outage_started_at id log in
    elim (outage_cases id e) [
      | inl (f, same, out) ↦
          (λ h. inl (same, out), λ h. rw (f, outage_started_at) (is_some-later e.created_at _))
      | inr (f, other) ↦
          rw (f, outage_started_at)
            (
              λ h. inr (rest.0 h),
              λ h. elim h [ inl (same, out) ↦ absurd (other same out) | inr more ↦ rest.1 more ],
            )
    ]

too_early-false :
    (s : Settings) (now : ℕ) (o : Option ℕ)
    → (too_early s now o ≡ false)
      ↔ ((is_some o ≡ true) × IsOld (s.alert_after_seconds * 1000000) now o)
unfolding too_early seconds IsOld
too_early-false s now none = (λ h. cc, λ h. cc)
too_early-false s now (some t) = (λ h. (refl, ground (arith, h)), λ h. ground (arith, h.1))

pub too_early-HasLasted :
    (s : Settings) (now id : ℕ) (log : List EventLog)
    → (too_early s now (outage_started_at id log) ≡ false)
      ↔ HasLasted (s.alert_after_seconds * 1000000) now id log
too_early-HasLasted s now id log =
    let early = too_early-false s now (outage_started_at id log) in
    let known = is_some-outage_started_at id log in
    let old = outage_started_at-IsOld (s.alert_after_seconds * 1000000) now id log in
    (λ h. (known.0 (early.0 h).0, old.0 (early.0 h).1), λ h. early.1 (known.1 h.0, old.1 h.1))
