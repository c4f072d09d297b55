-- ===== src/Devices/Forest.antt =====
-- The device routes keep the parents a forest (backend/app/api/routes/devices.py).
use network_monitoring.Table
use network_monitoring.Device.{Device}
use network_monitoring.StateCache.Coherence.{device_id}
use network_monitoring.Parents.Forest.{replace-IsForest, IsForest, EndsIn, up}
use network_monitoring.Devices.Snapshot.{id-set_fields}
use network_monitoring.DeviceFields.{or_parent, Field, set_field, set_fields, parent_change}
use network_monitoring.Devices.{
  ip_taken, World, validate_parent, update_device, commit_update, parent_refused, resolve_field,
  Refusal, parent_error, resolved,
}
use network_monitoring.Prelude.{
  ℕ, zero, suc, String, refl, inl, inr, Option, none, some, List, [], arith, nat_beq, Bool-cases,
  Option-cases, Sum-cases, ◌≡◌, ◌∙◌, ◌⊎◌, ◌∷◌, nat_eq, string_eq,
}

abbrev parent_or : Option (Option ℕ) → Option ℕ → Option ℕ
parent_or none old = old
parent_or (some p) old = p

-- The parent after the changes is the one they set, or the old one.
parent_id-set_fields :
    (fs : List Field) (d : Device)
    → (set_fields fs d).parent_id ≡ parent_or (parent_change fs) d.parent_id
unfolding set_fields set_field
parent_id-set_fields [] d = refl
parent_id-set_fields (f ∷ fs) d = ground (arith, parent_id-set_fields fs (set_field f d))

or_parent-resolve_field :
    (resolve : String → String ⊎ String) (f g : Field) (rest : Option (Option ℕ))
    → resolve_field resolve f ≡ inr g
    → or_parent g rest ≡ or_parent f rest
or_parent-resolve_field resolve f g rest e = ground (arith, e)

parent_change-resolved :
    (resolve : String → String ⊎ String) (fs gs : List Field)
    → resolved resolve fs ≡ inr gs
    → parent_change gs ≡ parent_change fs
parent_change-resolved resolve [] gs e = ground (arith, e)
parent_change-resolved resolve (f ∷ fs) gs e = elim (Sum-cases (resolve_field resolve f)) [
  | inl (text, b) ↦ ground (arith, b)
  | inr (g, b) ↦ elim (Sum-cases (resolved resolve fs)) [
    | inl (text, c) ↦ ground (arith, b, c)
    | inr (hs, c) ↦ ground (
      arith,
      b,
      c,
      or_parent-resolve_field resolve f g (parent_change fs),
      parent_change-resolved resolve fs hs,
    )
  ]
]

pub parent_error-none : (v : Option (Option Refusal)) → parent_error v ≡ none → v ≡ some none
parent_error-none none e = cc
parent_error-none (some none) e = refl
parent_error-none (some (some r)) e = cc

EndsIn-same :
    (rows new : List Device)
    → ((j : ℕ) → up new j ≡ up rows j)
    → (n k : ℕ) → EndsIn rows n k
    → EndsIn new n k
EndsIn-same rows new same zero k h = same k ∙ h
EndsIn-same rows new same (suc n) k (p, e, h) = (p, same k ∙ e, EndsIn-same rows new same n p h)

up-same_parent :
    (rows : List Device) (d old : Device) (j : ℕ)
    → Table.find device_id d.id rows ≡ some old
    → d.parent_id ≡ old.parent_id
    → up (Table.replace device_id d rows) j ≡ up rows j
up-same_parent rows d old j found same = elim (Bool-cases (nat_beq j d.id)) [
  | inl b ↦ ground (arith, Table.find-replace_self device_id d old rows)
  | inr b ↦ ground (arith, Table.find-replace_ne device_id j d rows)
]

commit_update-IsForest :
    (user : ℕ) (d old : Device) (fs : List Field) (w : World)
    → IsForest w.devices
    → Table.find device_id d.id w.devices ≡ some old
    → (d.parent_id ≡ old.parent_id)
      ⊎ (validate_parent w.devices (some d.id) d.parent_id ≡ some none)
    → IsForest (commit_update user d fs w).1.devices
unfolding commit_update
commit_update-IsForest user d old fs w forest found why = elim (Bool-cases (ip_taken d w.devices)) [
  | inl e ↦ rw (e, commit_update) forest
  | inr e ↦
      rw (e, commit_update)
        (elim why [
          | inl same ↦ λ j.
              let (n, h) = forest j in
              (n, EndsIn-same w.devices _ (λ i. up-same_parent w.devices d old i found same) n j h)
          | inr ok ↦ replace-IsForest w.devices d old forest found ok
        ])
]

accepted :
    (rows : List Device) (k : ℕ) (fs : List Field) (old : Option ℕ)
    → parent_refused rows k fs ≡ none
    → (parent_or (parent_change fs) old ≡ old)
      ⊎ (validate_parent rows (some k) (parent_or (parent_change fs) old) ≡ some none)
accepted rows k fs old e = elim (Option-cases (parent_change fs)) [
  | inl f ↦ inl (ground (arith, f))
  | inr (p, f) ↦
      inr (rw f (parent_error-none (validate_parent rows (some k) p) (ground (arith, e, f))))
]

-- An update of any fields, its parent among them, leaves the parents without a cycle if they had
-- none: every chain of parents still ends, whatever the request asks for.
pub update_device-IsForest :
    (resolve : String → String ⊎ String) (user now k : ℕ) (changes : List Field) (w : World)
    → IsForest w.devices
    → IsForest (update_device resolve user now k changes w).1.devices
unfolding update_device
update_device-IsForest resolve user now k changes w forest =
    elim (Option-cases (Table.find device_id k w.devices)) [
      | inl e ↦ rw (e, update_device) forest
      | inr (d, e) ↦ elim (Option-cases (parent_refused w.devices k changes)) [
        | inr (r, f) ↦ rw (e, f, update_device) forest
        | inl f ↦ elim (Sum-cases (resolved resolve changes)) [
          | inl (text, g) ↦ rw (e, f, g, update_device) forest
          | inr (fs, g) ↦
              rw (e, f, g, update_device)
                (commit_update-IsForest user (record (set_fields fs d) { updated_at = now }) d fs w
                  forest
                  (Table.find-own_key device_id k (set_fields fs d).id w.devices d
                    (id-set_fields fs d ∙ Table.find-key device_id k w.devices d e) e)
                  (rw
                    (
                      parent_id-set_fields fs d,
                      parent_change-resolved resolve changes fs g,
                      id-set_fields fs d ∙ Table.find-key device_id k w.devices d e,
                    )
                    (accepted w.devices k changes d.parent_id f)))
        ]
      ]
    ]
