-- ===== src/Devices.antt =====
-- backend/app/api/routes/devices.py: the handlers that read and write the devices. A handler takes
-- the signed-in user, the time and the request, and returns what it answers and the world after it;
-- a refused request raises an HTTPException. `resolve` is resolve_host_to_ip of Hosts.antt: an
-- address, or the text of its ValueError. The permission that a route requires is the gate of
-- Admin.antt.
pub mod Actions
pub mod Growth
pub mod Forest
pub mod Deletion
pub mod Checks
pub mod Requests
pub mod Snapshot
use network_monitoring.Table
use network_monitoring.Device.{Device, DeviceRead, DeviceStatus, serialize_device}
use network_monitoring.World.{World, add_audit}
use network_monitoring.Text.{concat, join}
use network_monitoring.StateCache.{
  warm_devices, cache_is_current, get_all_devices, upsert_device, rows_by_age, is_empty,
}
use network_monitoring.StateCache.Coherence.{device_id}
use network_monitoring.Parents.{Refusal, refuse, validate_parent}
use network_monitoring.DeviceFields.{
  Field, field_name, set_fields, parent_change, blank_device, set_ip_address,
}
use network_monitoring.Prelude.{
  ℕ, String, inl, inr, Bool, not, Option, none, some, List, [], map, nat_beq, keep, any, ◌⊎◌, ◌&&◌,
  ◌∷◌, ◌++◌, ◌==◌, if◌then◌else◌, nat_eq, string_eq,
}

abbrev pub Answer : Type 0 → Type 0
Answer A = Refusal ⊎ A

-- DeviceCreate: the two fields it requires, and the others that the request sets
pub record DeviceCreate : Type 0 where
  pub vendor_name : String
  pub ip_address : String
  pub others : List Field

-- The ORM session at a commit: `ip_address` is unique.
abbrev pub ip_taken : Device → List Device → Bool
ip_taken d rows = any (λ r. not (nat_beq r.id d.id) && r.ip_address == d.ip_address) rows

-- the exception that validate_parent raises; the fuel of its walk never runs out
abbrev pub parent_error : Option (Option Refusal) → Option Refusal
parent_error none = some (refuse 500 "")
parent_error (some r) = r

abbrev pub not_found : Refusal
not_found = refuse 404 "Device not found"

abbrev pub conflict : Refusal
conflict = refuse 409 "A device with this IP address already exists"

abbrev pub shown_name : Device → String
shown_name d = concat (d.vendor_name ∷ " (" ∷ d.ip_address ∷ ")" ∷ [])

-- `await db.commit()` of a changed row with its audit row, then the refreshed snapshot
unfoldable pub save : Option ℕ → String → Option String → Device → World → World
unfolding add_audit upsert_device
save user action detail d w =
    let logged = add_audit user action (some "device") (some d.id) detail w in
    upsert_device (serialize_device d)
      (record logged { devices = Table.replace device_id d w.devices })

-- A Redis that does not answer is passed over: the rows are read from the database, and the
-- snapshot stays as it is where it cannot be written.
unfoldable pub list_devices : Bool → Bool → World → List DeviceRead × World
unfolding cache_is_current get_all_devices warm_devices rows_by_age
list_devices reads writes w =
    let read = map serialize_device (rows_by_age [] w.devices) in
    if reads && (cache_is_current w && not (is_empty (get_all_devices w)))
    then (get_all_devices w, w)
    else (read, if writes then warm_devices read w else w)

-- a device id, its status and its last check
unfoldable pub devices_snapshot : World → List (ℕ × DeviceStatus × Option ℕ)
unfolding get_all_devices
devices_snapshot w =
    map (λ (d : DeviceRead). (d.id, d.current_status, d.last_checked_at)) (get_all_devices w)

unfoldable pub get_device : ℕ → World → Answer Device
get_device k w = elim (Table.find device_id k w.devices) [ none ↦ inl not_found | some d ↦ inr d ]

-- `add_audit` of a create names no target
insert : ℕ → Device → World → Answer Device × World
unfolding add_audit upsert_device
insert user d w =
    let logged =
      add_audit (some user) "device.create" (some "device") none (some (shown_name d)) w in
    if ip_taken d w.devices then (inl conflict, w) else (
      inr d,
      upsert_device (serialize_device d) (record logged { devices = w.devices ++ d ∷ [] }),
    )

-- `id` is the fresh uuid4 of the row
unfoldable pub create_device :
    (String → String ⊎ String) → ℕ → ℕ → ℕ → DeviceCreate → World → Answer Device × World
unfolding validate_parent set_fields insert
create_device resolve user now id body w =
    let drafted = set_fields body.others (blank_device id user now) in
    elim (parent_error (validate_parent w.devices none drafted.parent_id)) [
      | some raised ↦ (inl raised, w)
      | none ↦ elim (resolve body.ip_address) [
        | inl text ↦ (inl (refuse 422 text), w)
        | inr ip ↦
            insert user (record drafted { vendor_name = body.vendor_name; ip_address = ip }) w
      ]
    ]

-- `changes["ip_address"] = await resolve_host_to_ip(...)`: the text of the ValueError, or the field
abbrev pub resolve_field : (String → String ⊎ String) → Field → String ⊎ Field
resolve_field resolve (set_ip_address host) = elim (resolve host) [
  | inl text ↦ inl text
  | inr ip ↦ inr (set_ip_address ip)
]
resolve_field resolve f = inr f

abbrev resolved : (String → String ⊎ String) → List Field → String ⊎ List Field
resolved resolve [] = inr []
resolved resolve (f ∷ fs) = elim (resolve_field resolve f) [
  | inl text ↦ inl text
  | inr g ↦ elim (resolved resolve fs) [ inl text ↦ inl text | inr gs ↦ inr (g ∷ gs) ]
]

abbrev changed_names : List Field → String
changed_names fs =
    let names = join ", " (keep (λ n. not (n == "ssh_password")) (map field_name fs)) in
    if names == "" then "(no fields)" else names

abbrev parent_refused : List Device → ℕ → List Field → Option Refusal
parent_refused rows k fs = elim (parent_change fs) [
  | none ↦ none
  | some p ↦ parent_error (validate_parent rows (some k) p)
]

-- the row is written, or the commit refuses it
commit_update : ℕ → Device → List Field → World → Answer Device × World
unfolding save
commit_update user d fs w =
    if ip_taken d w.devices
    then (inl conflict, w)
    else (inr d, save (some user) "device.update" (some (changed_names fs)) d w)

-- `stamp` is the row's updated_at after the commit: its time, or the old one if no column changed.
unfoldable pub update_device :
    (String → String ⊎ String) → ℕ → ℕ → ℕ → List Field → World → Answer Device × World
unfolding validate_parent set_fields commit_update
update_device resolve user stamp k changes w = elim (Table.find device_id k w.devices) [
  | none ↦ (inl not_found, w)
  | some d ↦ elim (parent_refused w.devices k changes) [
    | some raised ↦ (inl raised, w)
    | none ↦ elim (resolved resolve changes) [
      | inl text ↦ (inl (refuse 422 text), w)
      | inr fs ↦ commit_update user (record (set_fields fs d) { updated_at = stamp }) fs w
    ]
  ]
]
