-- ===== src/Devices/Snapshot.antt =====
-- What the device routes do to the snapshot (backend/app/api/routes/devices.py).
use network_monitoring.Table
use network_monitoring.Devices.Actions.{maintained, maintenance_detail}
use network_monitoring.Settings.{Settings}
use network_monitoring.Device.{Device, DeviceStatus, serialize_device, same_status}
use network_monitoring.World.{World}
use network_monitoring.StateCache.Coherence.{
  IsCoherent-append, device_id, IsCoherent, IsCoherent-write,
}
use network_monitoring.Parents.{validate_parent}
use network_monitoring.DeviceFields.{blank_device, Field, set_field, set_fields}
use network_monitoring.Devices.{
  parent_error, changed_names, ip_taken, save, insert, create_device, commit_update, update_device,
  DeviceCreate, parent_refused, resolved,
}
use network_monitoring.Devices.Actions.{
  muted_as, acked, simulated, simulate_row, simulate_device_status, edit_row, ack_device,
  mute_device, maintenance_device,
}
use network_monitoring.Prelude.{
  ℕ, String, refl, inl, inr, Bool, Option, none, some, List, [], arith, Bool-cases, Option-cases,
  Sum-cases, ◌≡◌, ◌∙◌, ◌⊎◌, ◌∷◌, if◌then◌else◌, nat_eq, string_eq,
}

id-set_field : (f : Field) (d : Device) → (set_field f d).id ≡ d.id
unfolding set_field
id-set_field f d = ground arith

pub id-set_fields : (fs : List Field) (d : Device) → (set_fields fs d).id ≡ d.id
unfolding set_fields
id-set_fields [] d = refl
id-set_fields (f ∷ fs) d = id-set_fields fs (set_field f d) ∙ id-set_field f d

save-IsCoherent :
    (user : Option ℕ) (action : String) (detail : Option String) (d old : Device) (w : World)
    → Table.find device_id d.id w.devices ≡ some old
    → IsCoherent w
    → IsCoherent (save user action detail d w)
unfolding save serialize_device
save-IsCoherent user action detail d old w found c = IsCoherent-write d old w found c

edit_row-IsCoherent :
    (user : ℕ) (action : String) (detail : Option String) (change : Device → Device) (k : ℕ)
    (w : World)
    → ((d : Device) → (change d).id ≡ d.id)
    → IsCoherent w
    → IsCoherent (edit_row user action detail change k w).1
unfolding edit_row
edit_row-IsCoherent user action detail change k w same c =
    elim (Option-cases (Table.find device_id k w.devices)) [
      | inl e ↦ rw (e, edit_row) c
      | inr (d, e) ↦
          rw (e, edit_row)
            (save-IsCoherent (some user) action detail (change d) d w
              (Table.find-own_key device_id k (change d).id w.devices d
                (same d ∙ Table.find-key device_id k w.devices d e) e)
              c)
    ]

-- An acknowledgement, a mute and a maintenance, whether the device exists or not, keep a snapshot
-- that shows the table showing it.
pub edits-IsCoherent :
    (show : ℕ → String) (user now k : ℕ) (muted : Bool) (minutes : Option ℕ) (w : World)
    → IsCoherent w
    → IsCoherent (ack_device user now k w).1
      × IsCoherent (mute_device user now k muted w).1
      × IsCoherent (maintenance_device show user now k minutes w).1
unfolding ack_device mute_device maintenance_device
edits-IsCoherent show user now k muted minutes w c = (
  edit_row-IsCoherent user "device.ack" none (acked now) k w (λ d. refl) c,
  edit_row-IsCoherent user "device.mute" (some (if muted then "muted" else "unmuted"))
      (muted_as muted now) k w (λ d. refl) c,
  edit_row-IsCoherent user "device.maintenance" (some (maintenance_detail show minutes))
      (maintained minutes now) k w (λ d. refl) c,
)

simulate_row-IsCoherent :
    (s : Settings) (user now : ℕ) (status : DeviceStatus) (d : Device) (w : World)
    → Table.find device_id d.id w.devices ≡ some d
    → IsCoherent w
    → IsCoherent (simulate_row s user now status d w)
unfolding simulate_row simulated serialize_device
simulate_row-IsCoherent s user now status d w found c =
    elim (Bool-cases (same_status status d.current_status)) [
      | inl e ↦ rw (e, simulate_row) (IsCoherent-write (simulated s now status d) d w found c)
      | inr e ↦ rw (e, simulate_row) (IsCoherent-write (simulated s now status d) d w found c)
    ]

-- A simulated status, a change or not, keeps a snapshot that shows the table showing it.
pub simulate_device_status-IsCoherent :
    (s : Settings) (user now k : ℕ) (status : DeviceStatus) (w : World)
    → IsCoherent w
    → IsCoherent (simulate_device_status s user now k status w).1
unfolding simulate_device_status
simulate_device_status-IsCoherent s user now k status w c =
    elim (Option-cases (Table.find device_id k w.devices)) [
      | inl e ↦ rw (e, simulate_device_status) c
      | inr (d, e) ↦
          rw (e, simulate_device_status)
            (simulate_row-IsCoherent s user now status d w
              (Table.find-own_key device_id k d.id w.devices d
                (Table.find-key device_id k w.devices d e) e)
              c)
    ]

commit_update-IsCoherent :
    (user : ℕ) (d old : Device) (fs : List Field) (w : World)
    → Table.find device_id d.id w.devices ≡ some old
    → IsCoherent w
    → IsCoherent (commit_update user d fs w).1
unfolding commit_update
commit_update-IsCoherent user d old fs w found c = elim (Bool-cases (ip_taken d w.devices)) [
  | inl e ↦ rw (e, commit_update) c
  | inr e ↦
      rw (e, commit_update)
        (save-IsCoherent (some user) "device.update" (some (changed_names fs)) d old w found c)
]

-- An update, on every branch, keeps a snapshot that shows the table showing it.
pub update_device-IsCoherent :
    (resolve : String → String ⊎ String) (user now k : ℕ) (changes : List Field) (w : World)
    → IsCoherent w
    → IsCoherent (update_device resolve user now k changes w).1
unfolding update_device
update_device-IsCoherent resolve user now k changes w c =
    elim (Option-cases (Table.find device_id k w.devices)) [
      | inl e ↦ rw (e, update_device) c
      | inr (d, e) ↦ elim (Option-cases (parent_refused w.devices k changes)) [
        | inr (r, f) ↦ rw (e, f, update_device) c
        | inl f ↦ elim (Sum-cases (resolved resolve changes)) [
          | inl (text, g) ↦ rw (e, f, g, update_device) c
          | inr (fs, g) ↦
              rw (e, f, g, update_device)
                (commit_update-IsCoherent user (record (set_fields fs d) { updated_at = now }) d fs
                  w
                  (Table.find-own_key device_id k (set_fields fs d).id w.devices d
                    (id-set_fields fs d ∙ Table.find-key device_id k w.devices d e) e)
                  c)
        ]
      ]
    ]

insert-IsCoherent :
    (user : ℕ) (d : Device) (w : World)
    → Table.find device_id d.id w.devices ≡ none
    → IsCoherent w
    → IsCoherent (insert user d w).1
unfolding insert serialize_device
insert-IsCoherent user d w fresh c = elim (Bool-cases (ip_taken d w.devices)) [
  | inl e ↦ rw (e, insert) c
  | inr e ↦ rw (e, insert) (IsCoherent-append d w fresh c)
]

-- A creation, on every branch, keeps a snapshot that shows the table showing it, if no device has
-- the id that the row is given.
pub create_device-IsCoherent :
    (resolve : String → String ⊎ String) (user now id : ℕ) (body : DeviceCreate) (w : World)
    → Table.find device_id id w.devices ≡ none
    → IsCoherent w
    → IsCoherent (create_device resolve user now id body w).1
unfolding create_device
create_device-IsCoherent resolve user now id body w fresh c =
    let drafted = set_fields body.others (blank_device id user now) in
    elim (Option-cases (parent_error (validate_parent w.devices none drafted.parent_id))) [
      | inr (r, e) ↦ rw (e, create_device) c
      | inl e ↦ elim (Sum-cases (resolve body.ip_address)) [
        | inl (text, f) ↦ rw (e, f, create_device) c
        | inr (ip, f) ↦
            rw (e, f, create_device)
              (insert-IsCoherent user
                (record drafted { vendor_name = body.vendor_name; ip_address = ip }) w
                (rw (id-set_fields body.others (blank_device id user now)) fresh) c)
      ]
    ]
