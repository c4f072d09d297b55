-- ===== src/Devices/Deletion.antt =====
-- What the deletion of a device leaves behind (backend/app/api/routes/devices.py, delete_device).
use network_monitoring.Dict
use network_monitoring.Table
use network_monitoring.Device.{Device, serialize_device}
use network_monitoring.World.{World}
use network_monitoring.StateCache.Coherence.{device_id, shown, live, IsCoherent, IsLive}
use network_monitoring.Devices.Actions.{orphaned, delete_row, delete_device}
use network_monitoring.Prelude.{
  ℕ, refl, inl, inr, none, some, List, [], map, arith, nat_beq, Bool-cases, Option-cases, All, ◌≡◌,
  ◌∙◌, ◌≢◌, ◌∷◌, nat_eq, string_eq,
}

find-orphaned :
    (k j : ℕ) (rows : List Device)
    → live (shown (Table.find device_id j (map (orphaned k) rows)))
      ≡ live (shown (Table.find device_id j rows))
unfolding serialize_device Table.find
find-orphaned k j [] = refl
find-orphaned k j (d ∷ rows) = ground (arith, find-orphaned k j rows)

-- After a deletion, of a device that exists or not, the snapshot still shows the status and the
-- service result of every device of the table, and of no other, if it did before.
pub delete_device-IsLive : (user k : ℕ) (w : World) → IsLive w → IsLive (delete_device user k w).1
unfolding delete_device delete_row
delete_device-IsLive user k w h = elim (Option-cases (Table.find device_id k w.devices)) [
  | inl e ↦ rw (e, delete_device) h
  | inr (d, e) ↦
      rw (e, delete_device)
        (λ j. elim (Bool-cases (nat_beq k j)) [
          | inl b ↦ ground (
            arith,
            find-orphaned k j (Table.delete device_id k w.devices),
            Dict.get-pop k j w.cache,
            Table.find-delete_self device_id k w.devices,
          )
          | inr b ↦ ground (
            arith,
            find-orphaned k j (Table.delete device_id k w.devices),
            Dict.get-pop k j w.cache,
            Table.find-delete_ne device_id k j w.devices,
            h j,
          )
        ])
]

pub find-orphaned-none :
    (k j : ℕ) (rows : List Device)
    → Table.find device_id j rows ≡ none
    → Table.find device_id j (map (orphaned k) rows) ≡ none
unfolding Table.find
find-orphaned-none k j [] h = refl
find-orphaned-none k j (d ∷ rows) h = ground (arith, find-orphaned-none k j rows)

pub find-orphaned-some :
    (k j : ℕ) (rows : List Device) (d : Device)
    → Table.find device_id j rows ≡ some d
    → Table.find device_id j (map (orphaned k) rows) ≡ some (orphaned k d)
unfolding Table.find
find-orphaned-some k j [] d h = cc
find-orphaned-some k j (x ∷ rows) d h = elim (Bool-cases (nat_beq x.id j)) [
  | inl b ↦ ground (arith, b)
  | inr b ↦ ground (arith, b, find-orphaned-some k j rows d)
]

parent_gone :
    (k : ℕ) (rows : List Device)
    → All (λ (d : Device). d.parent_id ≢ some k) (map (orphaned k) rows)
parent_gone k [] = tt
parent_gone k (d ∷ rows) = (ground arith, parent_gone k rows)

-- After a deletion of a device that exists, the device has neither a row nor an entry in the
-- snapshot, and no row has it as its parent.
pub delete_device_gone :
    (user k : ℕ) (w : World) (d : Device)
    → Table.find device_id k w.devices ≡ some d
    → (let w' = (delete_device user k w).1 in
        (Table.find device_id k w'.devices ≡ none)
        × (Dict.get k w'.cache ≡ none)
        × All (λ (r : Device). r.parent_id ≢ some k) w'.devices)
unfolding delete_device delete_row
delete_device_gone user k w d e =
    rw (e, delete_device)
      (
        find-orphaned-none k k (Table.delete device_id k w.devices)
            (Table.find-delete_self device_id k w.devices),
        ground (arith, Dict.get-pop k k w.cache),
        parent_gone k (Table.delete device_id k w.devices),
      )

orphaned-child :
    (k : ℕ) (child : Device)
    → child.parent_id ≡ some k
    → some (orphaned k child) ≡ some (record child { parent_id = none })
orphaned-child k child e = ground (arith, e)

-- A child of a deleted device loses its parent in the table, while the snapshot goes on showing
-- the deleted device as its parent: the deletion writes no entry but its own.
pub delete_device_stale_parent :
    (user k j : ℕ) (w : World) (d child : Device)
    → IsCoherent w
    → Table.find device_id k w.devices ≡ some d
    → Table.find device_id j w.devices ≡ some child
    → j ≢ k
    → child.parent_id ≡ some k
    → (let w' = (delete_device user k w).1 in
        (Dict.get j w'.cache ≡ some (serialize_device child))
        × ((serialize_device child).parent_id ≡ some k)
        × (Table.find device_id j w'.devices ≡ some (record child { parent_id = none })))
unfolding delete_device delete_row serialize_device
delete_device_stale_parent user k j w d child c found here ne parent =
    rw (found, delete_device)
      (
        ground (arith, Dict.get-pop k j w.cache, c j),
        parent,
        find-orphaned-some k j (Table.delete device_id k w.devices) child
              (Table.find-delete_ne device_id k j w.devices ne ∙ here)
            ∙ orphaned-child k child parent,
      )
