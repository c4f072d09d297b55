-- ===== src/Devices/Growth.antt =====
-- New and deleted devices and the forest of parents (backend/app/api/routes/devices.py).
use network_monitoring.Table
use network_monitoring.Device.{Device}
use network_monitoring.World.{World}
use network_monitoring.StateCache.Coherence.{device_id}
use network_monitoring.Devices.Deletion.{find-orphaned-none, find-orphaned-some}
use network_monitoring.Parents.{walk, validate_parent}
use network_monitoring.Parents.Forest.{IsForest, EndsIn, up, EndsIn-all}
use network_monitoring.DeviceFields.{set_fields, blank_device}
use network_monitoring.Devices.{ip_taken, create_device, insert, parent_error, DeviceCreate}
use network_monitoring.Devices.Actions.{orphaned, delete_row, delete_device}
use network_monitoring.Devices.Forest.{parent_error-none}
use network_monitoring.Devices.Snapshot.{id-set_fields}
use network_monitoring.Prelude.{
  ℕ, zero, suc, String, sym, ap, inl, inr, true, none, some, List, [], map, arith, nat_beq,
  Bool-cases, Option-cases, Sum-cases, is_some, ◌≡◌, ◌∙◌, ◌≢◌, ◌⊎◌, ◌∷◌, ◌++◌, nat_eq, string_eq,
}

-- The foreign key of `parent_id`: every parent is a row.
abbrev pub HasParents : List Device → Type 0
HasParents rows = (k p : ℕ) → up rows k ≡ some p → is_some (Table.find device_id p rows) ≡ true

up-append_ne :
    (rows : List Device) (d : Device) (j : ℕ) → j ≢ d.id → up (rows ++ d ∷ []) j ≡ up rows j
up-append_ne rows d j ne = elim (Option-cases (Table.find device_id j rows)) [
  | inl e ↦
      ground (arith, Table.find-append_none device_id j rows (d ∷ []), Table.find-one device_id j d)
  | inr (a, e) ↦ ground (arith, Table.find-append_some device_id j rows (d ∷ []) a)
]

up-append_here :
    (rows : List Device) (d : Device)
    → Table.find device_id d.id rows ≡ none
    → up (rows ++ d ∷ []) d.id ≡ d.parent_id
up-append_here rows d fresh =
    ground
      (arith, Table.find-append_none device_id d.id rows (d ∷ []), Table.find-one device_id d.id d)

found-ne :
    (rows : List Device) (k p : ℕ)
    → Table.find device_id k rows ≡ none
    → is_some (Table.find device_id p rows) ≡ true
    → p ≢ k
found-ne rows k p gone here = ground (arith, gone, here)

-- a chain that starts at a row never leaves the table, so it misses the new id
EndsIn-append :
    (rows : List Device) (d : Device) (n p : ℕ)
    → HasParents rows
    → Table.find device_id d.id rows ≡ none
    → is_some (Table.find device_id p rows) ≡ true
    → EndsIn rows n p
    → EndsIn (rows ++ d ∷ []) n p
EndsIn-append rows d zero p closed fresh here h =
    up-append_ne rows d p (found-ne rows d.id p fresh here) ∙ h
EndsIn-append rows d (suc n) p closed fresh here (q, e, h) = (
  q,
  up-append_ne rows d p (found-ne rows d.id p fresh here) ∙ e,
  EndsIn-append rows d n q closed fresh (closed p q e) h,
)

validate_parent-found :
    (rows : List Device) (p : ℕ)
    → validate_parent rows none (some p) ≡ some none
    → is_some (Table.find device_id p rows) ≡ true
unfolding validate_parent walk
validate_parent-found rows p ok = elim (Option-cases (Table.find device_id p rows)) [
  | inl e ↦ ground (arith, e)
  | inr (a, e) ↦ ground (arith, e)
]

append-IsForest :
    (rows : List Device) (d : Device)
    → HasParents rows
    → Table.find device_id d.id rows ≡ none
    → validate_parent rows none d.parent_id ≡ some none
    → IsForest rows
    → IsForest (rows ++ d ∷ [])
append-IsForest rows d closed fresh ok forest = λ j.
    let new = rows ++ d ∷ [] in
    let agree = up-append_ne rows d in
    let (n, h) = forest j in
    elim (Option-cases d.parent_id) [
      | inl e ↦ EndsIn-all rows new d.id 0 agree (up-append_here rows d fresh ∙ e) n j h
      | inr (p, e) ↦
          let (m, g) = forest p in
          EndsIn-all rows new d.id (suc m) agree
            (
              p,
              up-append_here rows d fresh ∙ e,
              EndsIn-append rows d m p closed fresh
                  (validate_parent-found rows p (sym (ap (validate_parent rows none) e) ∙ ok)) g,
            )
            n j h
    ]

insert-IsForest :
    (user : ℕ) (d : Device) (w : World)
    → HasParents w.devices
    → Table.find device_id d.id w.devices ≡ none
    → validate_parent w.devices none d.parent_id ≡ some none
    → IsForest w.devices
    → IsForest (insert user d w).1.devices
unfolding insert
insert-IsForest user d w closed fresh ok forest = elim (Bool-cases (ip_taken d w.devices)) [
  | inl e ↦ rw (e, insert) forest
  | inr e ↦ rw (e, insert) (append-IsForest w.devices d closed fresh ok forest)
]

-- A creation leaves the parents without a cycle if they had none, every parent is a row and no
-- device has the id that the new row is given.
pub create_device-IsForest :
    (resolve : String → String ⊎ String) (user now id : ℕ) (body : DeviceCreate) (w : World)
    → HasParents w.devices
    → Table.find device_id id w.devices ≡ none
    → IsForest w.devices
    → IsForest (create_device resolve user now id body w).1.devices
unfolding create_device
create_device-IsForest resolve user now id body w closed fresh forest =
    let drafted = set_fields body.others (blank_device id user now) in
    let same = id-set_fields body.others (blank_device id user now) in
    elim (Option-cases (parent_error (validate_parent w.devices none drafted.parent_id))) [
      | inr (r, e) ↦ rw (e, create_device) forest
      | inl e ↦ elim (Sum-cases (resolve body.ip_address)) [
        | inl (text, f) ↦ rw (e, f, create_device) forest
        | inr (ip, f) ↦
            rw (e, f, create_device)
              (insert-IsForest user
                (record drafted { vendor_name = body.vendor_name; ip_address = ip }) w closed
                (rw same fresh)
                (parent_error-none (validate_parent w.devices none drafted.parent_id) e) forest)
      ]
    ]

up-orphaned :
    (k j : ℕ) (rows : List Device)
    → (up (map (orphaned k) (Table.delete device_id k rows)) j ≡ none)
      ⊎ (up (map (orphaned k) (Table.delete device_id k rows)) j ≡ up rows j)
up-orphaned k j rows = elim (Bool-cases (nat_beq j k)) [
  | inl b ↦ inl (
      ground (
        arith,
        find-orphaned-none k j (Table.delete device_id k rows),
        Table.find-delete_self device_id k rows,
      ))
  | inr b ↦ elim (Option-cases (Table.find device_id j rows)) [
    | inl e ↦ inl (
        ground (
          arith,
          find-orphaned-none k j (Table.delete device_id k rows),
          Table.find-delete_ne device_id k j rows,
        ))
    | inr (d, e) ↦
        let there =
          find-orphaned-some k j (Table.delete device_id k rows) d
            (Table.find-delete_ne device_id k j rows (ground arith) ∙ e) in
        ground (arith, there, e)
  ]
]

-- Parents that are only taken away leave every chain with an end.
EndsIn-pruned :
    (rows new : List Device)
    → ((j : ℕ) → (up new j ≡ none) ⊎ (up new j ≡ up rows j))
    → (n k : ℕ) → EndsIn rows n k
    → (m : ℕ) × EndsIn new m k
EndsIn-pruned rows new cut zero k h = (0, elim (cut k) [ inl e ↦ e | inr e ↦ e ∙ h ])
EndsIn-pruned rows new cut (suc n) k (p, e, h) = elim (cut k) [
  | inl f ↦ (0, f)
  | inr f ↦ let (m, g) = EndsIn-pruned rows new cut n p h in (suc m, (p, f ∙ e, g))
]

-- A deletion, of a device that exists or not, leaves the parents without a cycle if they had none.
pub delete_device-IsForest :
    (user k : ℕ) (w : World) → IsForest w.devices → IsForest (delete_device user k w).1.devices
unfolding delete_device delete_row
delete_device-IsForest user k w forest = elim (Option-cases (Table.find device_id k w.devices)) [
  | inl e ↦ rw (e, delete_device) forest
  | inr (d, e) ↦
      rw (e, delete_device)
        (λ j.
          let (n, h) = forest j in
          EndsIn-pruned w.devices (map (orphaned k) (Table.delete device_id k w.devices))
            (λ i. up-orphaned k i w.devices) n j h)
]
