-- ===== src/Ping/Snapshot.antt =====
-- What a check does to the snapshot that the dashboard reads (`_check_one` of
-- backend/app/services/ping_scheduler.py against state_cache.py).
use network_monitoring.Table
use network_monitoring.Dict
use network_monitoring.Settings.{Settings}
use network_monitoring.Device.{
  online, DeviceRead, DeviceStatus, Device, same_status, serialize_device,
}
use mathlib.Core.List.{append-nil}
use network_monitoring.World.{World, Change}
use network_monitoring.StateCache.{upsert_device, update_and_publish}
use network_monitoring.StateCache.Coherence.{shown, device_id, IsLive, IsLive-write, IsLive-row}
use network_monitoring.Ping.{
  config_of, false, CheckConfig, persist, Cadence, check_one, Check, enabled_row, observe,
  write_check, same_service,
}
use network_monitoring.Prelude.{
  ℕ, sym, inl, inr, Bool, true, Option, none, some, List, [], arith, nat_beq, Bool-cases,
  Option-cases, ◌≡◌, ◌∷◌, ◌++◌, if◌then◌else◌, nat_eq, string_eq,
}

same_status-eq : (a b : DeviceStatus) → same_status a b ≡ true → a ≡ b
same_status-eq a b h = ground arith

same_service-eq : (a b : Option Bool) → same_service a b ≡ true → a ≡ b
same_service-eq a b h = ground arith

id-observe : (s : Settings) (c : Check) (d : Device) → (observe s c d).0.id ≡ d.id
unfolding observe
id-observe s c d = ground arith

enabled_row-eq : (o : Option Device) (d : Device) → enabled_row o ≡ some d → o ≡ some d
enabled_row-eq o d h = ground arith

write_check-IsLive :
    (s : Settings) (c : Check) (d : Device) (w : World)
    → Table.find device_id d.id w.devices ≡ some d
    → IsLive w
    → IsLive (write_check s c d w)
unfolding write_check upsert_device update_and_publish serialize_device
write_check-IsLive s c d w found h =
    let d' = (observe s c d).0 in
    let found' : Table.find device_id d'.id w.devices ≡ some d = rw (id-observe s c d) found in
    elim (Bool-cases (same_status d'.current_status d.current_status)) [
      | inr changed ↦ rw changed (IsLive-write d' d w found' h)
      | inl same ↦ elim (Bool-cases (same_service d'.service_ok d.service_ok)) [
        | inr flipped ↦ rw (same, flipped) (IsLive-write d' d w found' h)
        | inl kept ↦
            rw (same, kept)
              (IsLive-row d' d w found' (same_status-eq _ _ same) (same_service-eq _ _ kept) h)
      ]
    ]

found_at :
    (xs : List Device) {i j : ℕ} {d : Device}
    → i ≡ j
    → Table.find device_id i xs ≡ some d
    → Table.find device_id j xs ≡ some d
found_at xs e found = rw (← e) found

enabled_row-found :
    (id : ℕ) (d : Device) (w : World)
    → enabled_row (Table.find device_id id w.devices) ≡ some d
    → (Table.find device_id d.id w.devices ≡ some d) × (d.id ≡ id)
enabled_row-found id d w h =
    let e : d.id ≡ id = Table.find-key device_id id w.devices d (enabled_row-eq _ d h) in
    (found_at w.devices (sym e) (enabled_row-eq _ d h), e)

-- The third phase keeps the snapshot showing the status and the service result of every device,
-- whether the device is there, enabled, unchanged or changed.
pub persist-IsLive :
    (s : Settings) (c : Check) (id : ℕ) (w : World) (cad : Cadence)
    → IsLive w
    → IsLive (persist s c id (w, cad)).0
unfolding persist
persist-IsLive s c id w cad h =
    elim (Option-cases (enabled_row (Table.find device_id id w.devices))) [
      | inl gone ↦ rw (gone, persist) h
      | inr (d, e) ↦ rw (e, persist) (write_check-IsLive s c d w (enabled_row-found id d w e).0 h)
    ]

-- A whole check keeps the snapshot showing the status and the service result of every device, if
-- what other tasks write between its two sessions does.
pub check_one-IsLive :
    (s : Settings) (probe : CheckConfig → Check) (meanwhile : World → World) (id : ℕ) (w : World)
    (cad : Cadence)
    → ((v : World) → IsLive v → IsLive (meanwhile v))
    → IsLive w
    → IsLive (check_one s probe meanwhile id (w, cad)).0
unfolding check_one
check_one-IsLive s probe meanwhile id w cad others h =
    elim (Option-cases (enabled_row (Table.find device_id id w.devices))) [
      | inl gone ↦ rw (gone, check_one) h
      | inr (d, e) ↦
          rw (e, check_one)
            (persist-IsLive s (probe (config_of d)) id (meanwhile w) cad (others w h))
    ]

abbrev pub status_of : Option Device → Option DeviceStatus
status_of none = none
status_of (some d) = some d.current_status

-- what a listener who knew `before` knows of device k after the changes
abbrev pub heard : ℕ → List Change → Option DeviceStatus → Option DeviceStatus
heard k [] before = before
heard k (c ∷ cs) before = heard k cs (if nat_beq c.device_id k then some c.status else before)

abbrev pub announced : Settings → Check → Device → List Change
announced s c d =
    let d' = (observe s c d).0 in
    if same_status d'.current_status d.current_status
    then []
    else record { device_id = d.id; status = d'.current_status; last_checked_at = some c.now } ∷ []

write_check-published :
    (s : Settings) (c : Check) (d : Device) (w : World)
    → (write_check s c d w).published ≡ w.published ++ announced s c d
unfolding write_check upsert_device update_and_publish serialize_device
write_check-published s c d w =
    let d' = (observe s c d).0 in
    elim (Bool-cases (same_status d'.current_status d.current_status)) [
      | inr changed ↦ rw (changed, id-observe s c d)
      | inl same ↦ elim (Bool-cases (same_service d'.service_ok d.service_ok)) [
        | inr flipped ↦ rw (same, flipped) (sym (append-nil _))
        | inl kept ↦ rw (same, kept) (sym (append-nil _))
      ]
    ]

devices-write_check :
    (s : Settings) (c : Check) (d : Device) (w : World)
    → (write_check s c d w).devices ≡ Table.replace device_id (observe s c d).0 w.devices
unfolding write_check upsert_device update_and_publish
devices-write_check s c d w =
    let d' = (observe s c d).0 in
    elim (Bool-cases (same_status d'.current_status d.current_status)) [
      | inr changed ↦ rw changed
      | inl same ↦ elim (Bool-cases (same_service d'.service_ok d.service_ok)) [
        | inr flipped ↦ rw (same, flipped)
        | inl kept ↦ rw (same, kept)
      ]
    ]

heard-write_check :
    (s : Settings) (c : Check) (d : Device) (w : World) (k : ℕ)
    → Table.find device_id d.id w.devices ≡ some d
    → heard k (announced s c d) (status_of (Table.find device_id k w.devices))
      ≡ status_of (Table.find device_id k (write_check s c d w).devices)
heard-write_check s c d w k found =
    let d' = (observe s c d).0 in
    rw (devices-write_check s c d w) (
      ground (
        arith,
        id-observe s c d,
        Table.find-replace_self device_id d' d w.devices,
        Table.find-replace_ne device_id k d' w.devices,
        same_status-eq d'.current_status d.current_status,
      ))

-- The third phase only adds to the bus, and a listener who knew the status of every device and
-- hears what it added knows the status of every device again.
pub persist-heard :
    (s : Settings) (c : Check) (id : ℕ) (w : World) (cad : Cadence)
    → (new : List Change) × ((persist s c id (w, cad)).0.published ≡ w.published ++ new)
      × ((k : ℕ)
          → heard k new (status_of (Table.find device_id k w.devices))
            ≡ status_of (Table.find device_id k (persist s c id (w, cad)).0.devices))
unfolding persist
persist-heard s c id w cad = elim (Option-cases (enabled_row (Table.find device_id id w.devices))) [
  | inl gone ↦ ([], rw (gone, persist) (sym (append-nil _)), λ k. rw (gone, persist))
  | inr (d, e) ↦ (
    announced s c d,
    rw (e, persist) (write_check-published s c d w),
    λ k. rw (e, persist) (heard-write_check s c d w k (enabled_row-found id d w e).0),
  )
]

abbrev pub acked : Option DeviceRead → Option ℕ
acked none = none
acked (some r) = r.alarm_acked_at

observe_ack :
    (s : Settings) (c : Check) (d : Device)
    → d.current_status ≡ online
    → d.service_ok ≡ some false
    → c.alive ≡ true
    → c.has_service_check ≡ true
    → c.service_ok ≡ some false
    → ((observe s c d).0.alarm_acked_at ≡ none)
      × (same_status (observe s c d).0.current_status d.current_status ≡ true)
      × (same_service (observe s c d).0.service_ok d.service_ok ≡ true)
unfolding observe
observe_ack s c d up failing alive has still = ground arith

persist_found :
    (s : Settings) (c : Check) (d : Device) (w : World) (cad : Cadence)
    → Table.find device_id d.id w.devices ≡ some d
    → d.is_enabled ≡ true
    → (persist s c d.id (w, cad)).0 ≡ write_check s c d w
unfolding persist write_check
persist_found s c d w cad found enabled =
    let e : enabled_row (Table.find device_id d.id w.devices) ≡ some d = ground arith in
    rw (e, persist)

cache-write_check :
    (s : Settings) (c : Check) (d : Device) (w : World)
    → same_status (observe s c d).0.current_status d.current_status ≡ true
    → same_service (observe s c d).0.service_ok d.service_ok ≡ true
    → (write_check s c d w).cache ≡ w.cache
unfolding write_check
cache-write_check s c d w same kept = rw (same, kept)

-- If a device that answers fails its service check, was acknowledged and is checked again with the
-- same result, the row loses the acknowledgement although the alarm goes on, and the snapshot goes
-- on showing it.
pub persist-ack_lost :
    (s : Settings) (c : Check) (d : Device) (w : World) (cad : Cadence) (t : ℕ)
    → Table.find device_id d.id w.devices ≡ some d
    → Dict.get d.id w.cache ≡ some (serialize_device d)
    → d.is_enabled ≡ true
    → d.current_status ≡ online
    → d.service_ok ≡ some false
    → d.alarm_acked_at ≡ some t
    → c.alive ≡ true
    → c.has_service_check ≡ true
    → c.service_ok ≡ some false
    → (acked (shown (Table.find device_id d.id (persist s c d.id (w, cad)).0.devices)) ≡ none)
      × (acked (Dict.get d.id (persist s c d.id (w, cad)).0.cache) ≡ some t)
unfolding serialize_device
persist-ack_lost s c d w cad t found cached enabled up failing ack alive has still =
    let (lost, same, kept) = observe_ack s c d up failing alive has still in
    rw
      (
        persist_found s c d w cad found enabled,
        devices-write_check s c d w,
        cache-write_check s c d w same kept,
      )
      (ground
        (arith, id-observe s c d, Table.find-replace_self device_id (observe s c d).0 d w.devices))
