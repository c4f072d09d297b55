-- ===== src/Ssh/Snapshot.antt =====
-- What an SSH collection does to the table and the snapshot (backend/app/services/ssh_collector.py).
use network_monitoring.Prelude.{
  ℕ, String, refl, inl, inr, Option, none, some, arith, Bool-cases, Option-cases, ◌≡◌, ◌∙◌, ◌⊎◌,
  nat_eq, string_eq,
}
use network_monitoring.Table
use network_monitoring.Text.{truthy}
use network_monitoring.Device.{Device, serialize_device}
use network_monitoring.World.{World}
use network_monitoring.StateCache.Coherence.{own_key, device_id, IsLive, IsLive-write, IsLive-row}
use network_monitoring.Ssh.{
  Failure, Collection, Facts, Config, ssh_row, collected, config_of, refuse_username,
  persist_collection, collect_device,
}

id-collected :
    (dumps : Facts → String) (now : ℕ) (result : Failure ⊎ Collection) (d : Device)
    → (collected dumps now result d).id ≡ d.id
id-collected dumps now (inl f) d = refl
id-collected dumps now (inr c) d = refl

persist_collection-IsLive :
    (dumps : Facts → String) (now k : ℕ) (result : Failure ⊎ Collection) (w : World)
    → IsLive w
    → IsLive (persist_collection dumps now k result w).1
unfolding persist_collection serialize_device
persist_collection-IsLive dumps now k result w h =
    elim (Option-cases (Table.find device_id k w.devices)) [
      | inl e ↦ rw (e, persist_collection) h
      | inr (d, e) ↦
          let d' = collected dumps now result d in
          rw (e, persist_collection)
            (IsLive-write d' d w
              (Table.find-own_key device_id k d'.id w.devices d
                (id-collected dumps now result d ∙ Table.find-key device_id k w.devices d e) e)
              h)
    ]

ssh_row-found : (row : Option Device) (d : Device) → ssh_row row ≡ some d → row ≡ some d
ssh_row-found none d h = cc
ssh_row-found (some d') d h = ground arith

-- A collection of any device, on every branch, keeps a snapshot that shows the status and service
-- result of every row showing them, if what other tasks write during the session does.
pub collect_device_keeps :
    (collection : Config → Failure ⊎ Collection) (dumps : Facts → String) (now : ℕ)
    (meanwhile : World → World) (id : ℕ) (w : World)
    → ((v : World) → IsLive v → IsLive (meanwhile v))
    → IsLive w
    → IsLive (collect_device collection dumps now meanwhile id w).1
unfolding collect_device refuse_username
collect_device_keeps collection dumps now meanwhile id w others h =
    elim (Option-cases (ssh_row (Table.find device_id id w.devices))) [
      | inl e ↦ rw (e, collect_device) h
      | inr (d, e) ↦ elim (Bool-cases (truthy d.ssh_username)) [
        | inl f ↦
            rw (e, f, collect_device)
              (persist_collection-IsLive dumps now d.id (collection (config_of d)) (meanwhile w)
                (others w h))
        | inr f ↦
            rw (e, f, collect_device)
              (IsLive-row
                (record d { ssh_status = "error"; ssh_collected_at = some now; updated_at = now }) d
                w (own_key id d w (ssh_row-found (Table.find device_id id w.devices) d e)) refl refl
                h)
      ]
    ]
