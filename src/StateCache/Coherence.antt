-- ===== src/StateCache/Coherence.antt =====
-- The snapshot shows what the database holds: what each kind of write does to that.
use network_monitoring.Dict
use network_monitoring.Table
use network_monitoring.Device.{Device, DeviceRead, DeviceStatus, serialize_device}
use network_monitoring.World.{World}
use network_monitoring.Prelude.{
  ℕ, inl, inr, Bool, false, Option, none, some, List, [], arith, nat_beq, Bool-cases, Option-cases,
  ◌≡◌, ◌∷◌, ◌++◌, nat_eq, string_eq,
}

abbrev pub device_id : Device → ℕ
device_id d = d.id

abbrev pub shown : Option Device → Option DeviceRead
shown none = none
shown (some d) = some (serialize_device d)

-- A device that is found is found by its own id.
pub own_key :
    (k : ℕ) (d : Device) (w : World)
    → Table.find device_id k w.devices ≡ some d
    → Table.find device_id d.id w.devices ≡ some d
own_key k d w found =
    Table.find-own_key device_id k d.id w.devices d (Table.find-key device_id k w.devices d found)
      found

-- Every key of the snapshot holds the device of the table, and no other key is there.
abbrev pub IsCoherent : World → Type 0
IsCoherent w = (k : ℕ) → Dict.get k w.cache ≡ shown (Table.find device_id k w.devices)

-- The row of `d` and the entry of `d` are written together.
pub IsCoherent-write :
    (d old : Device) (w : World)
    → Table.find device_id d.id w.devices ≡ some old
    → IsCoherent w
    → IsCoherent (record w {
      devices = Table.replace device_id d w.devices;
      cache = Dict.put d.id (serialize_device d) w.cache;
    })
IsCoherent-write d old w found h = λ k. elim (Bool-cases (nat_beq d.id k)) [
  | inl e ↦ ground (
    arith,
    Dict.get-put d.id k (serialize_device d) w.cache,
    Table.find-replace_self device_id d old w.devices,
  )
  | inr n ↦ ground (
    arith,
    Dict.get-put d.id k (serialize_device d) w.cache,
    Table.find-replace_ne device_id k d w.devices,
    h k,
  )
]

find-fresh_ne :
    (d : Device) (k : ℕ) (rows : List Device)
    → nat_beq d.id k ≡ false
    → Table.find device_id k (rows ++ d ∷ []) ≡ Table.find device_id k rows
find-fresh_ne d k rows ne = elim (Option-cases (Table.find device_id k rows)) [
  | inl e ↦
      ground (arith, Table.find-append_none device_id k rows (d ∷ []), Table.find-one device_id k d)
  | inr (a, e) ↦ ground (arith, Table.find-append_some device_id k rows (d ∷ []) a)
]

-- The row of a new device and its entry are written together.
pub IsCoherent-append :
    (d : Device) (w : World)
    → Table.find device_id d.id w.devices ≡ none
    → IsCoherent w
    → IsCoherent (record w {
      devices = w.devices ++ d ∷ [];
      cache = Dict.put d.id (serialize_device d) w.cache;
    })
IsCoherent-append d w fresh h = λ k. elim (Bool-cases (nat_beq d.id k)) [
  | inl e ↦ ground (
    arith,
    Dict.get-put d.id k (serialize_device d) w.cache,
    Table.find-append_none device_id k w.devices (d ∷ []),
    Table.find-one device_id k d,
  )
  | inr n ↦
      ground (
        arith,
        Dict.get-put d.id k (serialize_device d) w.cache,
        find-fresh_ne d k w.devices n,
        h k,
      )
]

-- The live part of what the map shows: the status and the service check.
abbrev pub live : Option DeviceRead → Option (DeviceStatus × Option Bool)
live none = none
live (some r) = some (r.current_status, r.service_ok)

-- Every key of the snapshot shows the status and service result of the table.
abbrev pub IsLive : World → Type 0
IsLive w = (k : ℕ) → live (Dict.get k w.cache) ≡ live (shown (Table.find device_id k w.devices))

pub IsLive-write :
    (d old : Device) (w : World)
    → Table.find device_id d.id w.devices ≡ some old
    → IsLive w
    → IsLive (record w {
      devices = Table.replace device_id d w.devices;
      cache = Dict.put d.id (serialize_device d) w.cache;
    })
IsLive-write d old w found h = λ k. elim (Bool-cases (nat_beq d.id k)) [
  | inl e ↦ ground (
    arith,
    Dict.get-put d.id k (serialize_device d) w.cache,
    Table.find-replace_self device_id d old w.devices,
  )
  | inr n ↦ ground (
    arith,
    Dict.get-put d.id k (serialize_device d) w.cache,
    Table.find-replace_ne device_id k d w.devices,
    h k,
  )
]

-- A row may be written alone if its live part stays.
pub IsLive-row :
    (d old : Device) (w : World)
    → Table.find device_id d.id w.devices ≡ some old
    → d.current_status ≡ old.current_status
    → d.service_ok ≡ old.service_ok
    → IsLive w
    → IsLive (record w { devices = Table.replace device_id d w.devices })
unfolding serialize_device
IsLive-row d old w found same_status same_service h = λ k. elim (Bool-cases (nat_beq d.id k)) [
  | inl e ↦ ground (arith, Table.find-replace_self device_id d old w.devices, h k)
  | inr n ↦ ground (arith, Table.find-replace_ne device_id k d w.devices, h k)
]
