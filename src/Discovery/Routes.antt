-- ===== src/Discovery/Routes.antt =====
-- backend/app/api/routes/discovery.py: what the sweeps have found, and what an admin makes of it. `day`
-- prints a time as year, month and day; `show` prints an identifier.
use network_monitoring.Prelude.{
  ℕ, String, refl, inl, inr, Bool, true, false, not, Option, none, some, List, [], leb, nat_beq,
  Bool-cases, Option-cases, length, keep, any, beq_refl, ◌≡◌, ◌∙◌, ◌⊎◌, ◌&&◌, ◌∷◌, ◌++◌, ◌==◌,
  if◌then◌else◌, nat_eq, string_eq,
}
use network_monitoring.Prelude.Int.{ℤ}
use network_monitoring.Dict
use network_monitoring.Table
use network_monitoring.Settings.{Settings}
use network_monitoring.Text.{concat, strip, text_or, truthy}
use network_monitoring.Device.{Device, DeviceType, serialize_device}
use network_monitoring.DeviceFields.{blank_device}
use network_monitoring.World.{World, DiscoveredDevice, add_audit}
use network_monitoring.StateCache.{upsert_device}
use network_monitoring.StateCache.Coherence.{device_id, IsCoherent, IsCoherent-append}
use network_monitoring.Parents.{Refusal, refuse}
use network_monitoring.Devices.{Answer, conflict, ip_taken, shown_name}
use network_monitoring.Discovery.{SweepError, Counters}

abbrev pub row_id : DiscoveredDevice → ℕ
row_id r = r.id

pub record DiscoveryStatus : Type 0 where
  pub enabled : Bool
  pub subnets : String
  pub interval_seconds : ℕ
  pub pending : ℕ
  pub ignored : ℕ

abbrev pub has_status : String → DiscoveredDevice → Bool
has_status s r = r.status == s

unfoldable pub discovery_status : Settings → World → DiscoveryStatus
discovery_status s w = record {
  enabled = s.discovery_enabled;
  subnets = s.discovery_subnets;
  interval_seconds = s.discovery_interval_seconds;
  pending = length (keep (has_status "new") w.discovered);
  ignored = length (keep (has_status "ignored") w.discovered);
}

abbrev insert_latest : DiscoveredDevice → List DiscoveredDevice → List DiscoveredDevice
insert_latest r [] = r ∷ []
insert_latest r (x ∷ xs) =
    let rest = insert_latest r xs in if leb x.last_seen r.last_seen then r ∷ x ∷ xs else x ∷ rest

-- order_by(last_seen.desc())
abbrev by_last_seen : List DiscoveredDevice → List DiscoveredDevice
by_last_seen [] = []
by_last_seen (r ∷ rows) = insert_latest r (by_last_seen rows)

unfoldable pub list_discovered : Bool → World → List DiscoveredDevice
list_discovered include_ignored w =
    by_last_seen (if include_ignored then w.discovered else keep (has_status "new") w.discovered)

-- `sweep` is run_sweep
unfoldable pub sweep_now :
    (World → (SweepError ⊎ Counters) × World)
    → Settings
    → World
    → Answer (SweepError ⊎ Counters) × World
unfolding strip
sweep_now sweep s w =
    let (result, w') = sweep w in
    if strip s.discovery_subnets == ""
    then (inl (refuse 400 "DISCOVERY_SUBNETS is not configured"), w)
    else (inr result, w')

abbrev pub no_row : Refusal
no_row = refuse 404 "Discovered device not found"

pub record ApproveRequest : Type 0 where
  pub vendor_name : Option String
  pub device_type : DeviceType
  pub is_critical : Bool
  pub latitude : Option ℤ
  pub longitude : Option ℤ
  pub location_text : Option String

abbrev pub described : (ℕ → String) → DiscoveredDevice → String
described day r = concat (
    "Auto-discovered "
    ∷ day r.first_seen
    ∷ (if truthy r.hostname then concat (" (" ∷ text_or r.hostname "" ∷ ")" ∷ []) else "")
    ∷ [])

abbrev pub adopted : (ℕ → String) → ℕ → ℕ → ℕ → ApproveRequest → DiscoveredDevice → Device
adopted day user now id body r = record (blank_device id user now) {
  vendor_name = text_or body.vendor_name (text_or r.hostname r.ip_address);
  ip_address = r.ip_address;
  description = some (described day r);
  device_type = body.device_type;
  is_critical = body.is_critical;
  latitude = body.latitude;
  longitude = body.longitude;
  location_text = body.location_text;
}

-- the commit of the new device, the deleted row and the audit row
adopt : ℕ → DiscoveredDevice → Device → World → Answer Device × World
unfolding add_audit upsert_device
adopt user r d w =
    let logged =
      add_audit (some user) "discovery.approve" (some "device") none (some (shown_name d)) w in
    if ip_taken d w.devices then (inl conflict, w) else (
      inr d,
      upsert_device (serialize_device d) (record logged {
        devices = w.devices ++ d ∷ [];
        discovered = Table.delete row_id r.id w.discovered;
      }),
    )

-- `id` is the fresh uuid4 of the device
unfoldable pub approve_discovered :
    (ℕ → String) → ℕ → ℕ → ℕ → ℕ → ApproveRequest → World → Answer Device × World
unfolding adopt
approve_discovered day user now id k body w = elim (Table.find row_id k w.discovered) [
  | none ↦ (inl no_row, w)
  | some r ↦ adopt user r (adopted day user now id body r) w
]

unfoldable pub ignore_discovered : ℕ → ℕ → World → Answer DiscoveredDevice × World
unfolding add_audit
ignore_discovered user k w = elim (Table.find row_id k w.discovered) [
  | none ↦ (inl no_row, w)
  | some r ↦
      let r' = record r { status = "ignored" } in
      let logged =
        add_audit (some user) "discovery.ignore" (some "discovered") (some k) (some r.ip_address)
          w in
      (inr r', record logged { discovered = Table.replace row_id r' w.discovered })
]

unfoldable pub delete_discovered : ℕ → ℕ → World → Option Refusal × World
unfolding add_audit
delete_discovered user k w = elim (Table.find row_id k w.discovered) [
  | none ↦ (some no_row, w)
  | some r ↦
      let logged =
        add_audit (some user) "discovery.delete" (some "discovered") (some k) (some r.ip_address)
          w in
      (none, record logged { discovered = Table.delete row_id k w.discovered })
]

-- An approval, granted or refused, keeps a snapshot that shows the table showing it, if no device
-- has the id that the new one is given.
pub approve_discovered-IsCoherent :
    (day : ℕ → String) (user now id k : ℕ) (body : ApproveRequest) (w : World)
    → Table.find device_id id w.devices ≡ none
    → IsCoherent w
    → IsCoherent (approve_discovered day user now id k body w).1
unfolding approve_discovered adopt serialize_device
approve_discovered-IsCoherent day user now id k body w fresh c =
    elim (Option-cases (Table.find row_id k w.discovered)) [
      | inl e ↦ rw (e, approve_discovered) c
      | inr (r, e) ↦ elim (Bool-cases (ip_taken (adopted day user now id body r) w.devices)) [
        | inl f ↦ rw (e, f, approve_discovered) c
        | inr f ↦
            rw (e, f, approve_discovered)
              (IsCoherent-append (adopted day user now id body r) w fresh c)
      ]
    ]

-- An approval of an address that no device has moves it: the pending row is gone, and the table has
-- a device with its address that is answered and shown by the snapshot. If a device has the address,
-- the approval is refused and changes nothing.
pub approve_discovered_moves :
    (day : ℕ → String) (user now id k : ℕ) (body : ApproveRequest) (r : DiscoveredDevice)
    (w : World)
    → Table.find device_id id w.devices ≡ none
    → Table.find row_id k w.discovered ≡ some r
    → ((any (λ (d : Device). not (nat_beq d.id id) && d.ip_address == r.ip_address) w.devices
          ≡ false)
        × ((d : Device) × (d.ip_address ≡ r.ip_address)
            × ((approve_discovered day user now id k body w).0 ≡ inr d)
            × (Table.find device_id id (approve_discovered day user now id k body w).1.devices
                ≡ some d)
            × (Table.find row_id k (approve_discovered day user now id k body w).1.discovered
                ≡ none)
            × (Dict.get id (approve_discovered day user now id k body w).1.cache
                ≡ some (serialize_device d))))
      ⊎ ((any (λ (d : Device). not (nat_beq d.id id) && d.ip_address == r.ip_address) w.devices
            ≡ true)
          × (approve_discovered day user now id k body w ≡ (inl conflict, w)))
unfolding approve_discovered adopt serialize_device
approve_discovered_moves day user now id k body r w fresh e =
    let d = adopted day user now id body r in
    elim (Bool-cases (ip_taken d w.devices)) [
      | inl f ↦ inr (f, rw (e, f, approve_discovered) refl)
      | inr f ↦ inl (
        f,
        (
          d,
          refl,
          rw (e, f, approve_discovered) refl,
          rw (e, f, approve_discovered)
              (Table.find-append_none device_id id w.devices (d ∷ []) fresh
                ∙ Table.find-one device_id id d
                ∙ rw (beq_refl id) refl),
          rw (e, f, approve_discovered)
              (rw (Table.find-key row_id k w.discovered r e)
                (Table.find-delete_self row_id k w.discovered)),
          rw (e, f, approve_discovered) (Dict.get-put_self id (serialize_device d) w.cache),
        ),
      )
    ]
