-- ===== src/Snmp/Snapshot.antt =====
-- What an SNMP poll does to the table and the snapshot (backend/app/services/snmp_collector.py).
use network_monitoring.Prelude.{
  ℕ, String, refl, sym, inl, inr, true, Option, none, some, arith, Bool-cases, Option-cases,
  Sum-cases, ◌≡◌, ◌∙◌, nat_eq, string_eq,
}
use network_monitoring.Dict
use network_monitoring.Dict.{Dict}
use network_monitoring.Table
use network_monitoring.Device.{Device, serialize_device}
use network_monitoring.World.{World}
use network_monitoring.StateCache.Coherence.{
  own_key, device_id, IsCoherent, IsLive, IsCoherent-write, IsLive-write, IsLive-row,
}
use network_monitoring.Snmp.{Poll, Agent}
use network_monitoring.Snmp.Session.{Session, device_session, lacks_credentials}
use network_monitoring.Snmp.Rates.{Sample}
use network_monitoring.Snmp.Facts.{Facts, Collection, run_collection}
use network_monitoring.Snmp.Collect.{
  snmp_row, refuse_credentials, collected, persist_collection, poll_and_persist, collect_device,
}

id-collected :
    (dumps : Facts → String) (now : ℕ) (result : Poll Collection) (d : Device)
    → (collected dumps now result d).id ≡ d.id
id-collected dumps now (inl f) d = refl
id-collected dumps now (inr c) d = refl

-- The third phase of a poll keeps a snapshot that shows the table showing it, whether the poll
-- failed or the device has gone meanwhile.
pub persist_collection-IsCoherent :
    (dumps : Facts → String) (now k : ℕ) (result : Poll Collection) (w : World)
    → IsCoherent w
    → IsCoherent (persist_collection dumps now k result w).1
unfolding persist_collection serialize_device
persist_collection-IsCoherent dumps now k result w c =
    elim (Option-cases (Table.find device_id k w.devices)) [
      | inl e ↦ rw (e, persist_collection) c
      | inr (d, e) ↦
          let d' = collected dumps now result d in
          rw (e, persist_collection)
            (IsCoherent-write d' d w
              (Table.find-own_key device_id k d'.id w.devices d
                (id-collected dumps now result d ∙ Table.find-key device_id k w.devices d e) e)
              c)
    ]

persist_collection-IsLive :
    (dumps : Facts → String) (now k : ℕ) (result : Poll Collection) (w : World)
    → IsLive w
    → IsLive (persist_collection dumps now k result w).1
unfolding persist_collection serialize_device
persist_collection-IsLive dumps now k result w h =
    elim (Option-cases (Table.find device_id k w.devices)) [
      | inl e ↦ rw (e, persist_collection) h
      | inr (d, e) ↦
          let d' = collected dumps now result d in
          rw (e, persist_collection)
            (IsLive-write d' d w
              (Table.find-own_key device_id k d'.id w.devices d
                (id-collected dumps now result d ∙ Table.find-key device_id k w.devices d e) e)
              h)
    ]

snmp_row-found : (row : Option Device) (d : Device) → snmp_row row ≡ some d → row ≡ some d
unfolding snmp_row
snmp_row-found none d h = cc
snmp_row-found (some d') d h = ground arith

snmp_row-on : (d : Device) → d.snmp_enabled ≡ true → snmp_row (some d) ≡ some d
unfolding snmp_row
snmp_row-on d on = rw (on) refl

refuse_credentials-IsLive :
    (now : ℕ) (d : Device) (w : World)
    → Table.find device_id d.id w.devices ≡ some d
    → IsLive w
    → IsLive (refuse_credentials now d w)
unfolding refuse_credentials
refuse_credentials-IsLive now d w found h =
    IsLive-row (record d { snmp_status = "error"; snmp_collected_at = some now; updated_at = now })
      d w found refl refl h

module _ (repr : String → String) (show : ℕ → String) (dumps : Facts → String)
    (network : Session → Agent) (mono now : ℕ) where
  poll_and_persist-IsLive :
      (meanwhile : World → World) (d : Device) (session : Session) (w : World)
      (counters : Dict ℕ Sample)
      → IsLive (meanwhile w)
      → IsLive
          (poll_and_persist repr show dumps network mono now meanwhile d session (w, counters)).1
  unfolding poll_and_persist
  poll_and_persist-IsLive meanwhile d session w counters h =
      persist_collection-IsLive dumps now d.id
        (run_collection show (network session) mono d.id counters).0 (meanwhile w) h

  -- A poll of any device, on every branch, keeps a snapshot that shows the status and service result
  -- of every row showing them, if what other tasks write during the poll does.
  pub collect_device-IsLive :
      (meanwhile : World → World) (id : ℕ) (w : World) (counters : Dict ℕ Sample)
      → ((v : World) → IsLive v → IsLive (meanwhile v))
      → IsLive w
      → IsLive (collect_device repr show dumps network mono now meanwhile id (w, counters)).1
  unfolding collect_device
  collect_device-IsLive meanwhile id w counters others h =
      elim (Option-cases (snmp_row (Table.find device_id id w.devices))) [
        | inl e ↦ rw (e, collect_device) h
        | inr (d, e) ↦ elim (Bool-cases (lacks_credentials d)) [
          | inl f ↦
              rw (e, f, collect_device)
                (refuse_credentials-IsLive now d w
                  (own_key id d w (snmp_row-found (Table.find device_id id w.devices) d e)) h)
          | inr f ↦ elim (Sum-cases (device_session repr d)) [
            | inl (raised, g) ↦ rw (e, f, g, collect_device) h
            | inr (session, g) ↦
                rw (e, f, g, collect_device)
                  (poll_and_persist-IsLive meanwhile d session w counters (others w h))
          ]
        ]
      ]

  -- A poll of a device whose credentials are missing marks its row as failed, and leaves the snapshot
  -- showing the row from before.
  pub collect_device-stale :
      (meanwhile : World → World) (id : ℕ) (d : Device) (w : World) (counters : Dict ℕ Sample)
      → IsCoherent w
      → Table.find device_id id w.devices ≡ some d
      → d.snmp_enabled ≡ true
      → lacks_credentials d ≡ true
      → (Dict.get id
            (collect_device repr show dumps network mono now meanwhile id (w, counters)).1.cache
          ≡ some (serialize_device d))
        × (Table.find device_id id
              (collect_device repr show dumps network mono now meanwhile id (w, counters)).1.devices
            ≡ some (record d {
              snmp_status = "error";
              snmp_collected_at = some now;
              updated_at = now;
            }))
  unfolding collect_device refuse_credentials
  collect_device-stale meanwhile id d w counters c found on bare =
      let d' = record d { snmp_status = "error"; snmp_collected_at = some now; updated_at = now } in
      let same = Table.find-key device_id id w.devices d found in
      rw (found, snmp_row-on d on, bare, collect_device)
        (
          rw (c id, found) refl,
          rw (sym same) (Table.find-replace_self device_id d' d w.devices (own_key id d w found)),
        )
