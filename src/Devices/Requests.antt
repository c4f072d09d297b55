-- ===== src/Devices/Requests.antt =====
-- Requests that write devices, one after the other: those of backend/app/api/routes/devices.py that
-- delete nothing, and the approval of backend/app/api/routes/discovery.py.
use network_monitoring.Prelude.{
  ℕ, String, Bool, true, Option, none, List, [], ◌≡◌, ◌⊎◌, ◌∷◌, nat_eq, string_eq,
}
use network_monitoring.Table
use network_monitoring.Settings.{Settings}
use network_monitoring.Device.{DeviceStatus}
use network_monitoring.DeviceFields.{Field}
use network_monitoring.World.{World}
use network_monitoring.StateCache.Coherence.{device_id, IsCoherent}
use network_monitoring.Devices.{DeviceCreate, create_device, update_device}
use network_monitoring.Devices.Actions.{
  simulate_device_status, ack_device, mute_device, maintenance_device,
}
use network_monitoring.Devices.Snapshot.{
  create_device-IsCoherent, update_device-IsCoherent, simulate_device_status-IsCoherent,
  edits-IsCoherent,
}
use network_monitoring.Discovery.Routes.{
  ApproveRequest, approve_discovered, approve_discovered-IsCoherent,
}

-- the id of the device, or the fresh id of a new one, and the body
pub data DeviceRequest : Type 0 where
  create : ℕ → DeviceCreate → DeviceRequest
  update : ℕ → List Field → DeviceRequest
  simulate : ℕ → DeviceStatus → DeviceRequest
  acknowledge : ℕ → DeviceRequest
  mute : ℕ → Bool → DeviceRequest
  maintain : ℕ → Option ℕ → DeviceRequest
  approve : ℕ → ℕ → ApproveRequest → DeviceRequest

module _ (resolve : String → String ⊎ String) (show day : ℕ → String) (s : Settings) where
  -- a request of a user at a time
  unfoldable pub handle : ℕ × ℕ × DeviceRequest → World → World
  unfolding create_device update_device simulate_device_status ack_device mute_device
      maintenance_device approve_discovered
  handle (user, now, create id body) w = (create_device resolve user now id body w).1
  handle (user, now, update k changes) w = (update_device resolve user now k changes w).1
  handle (user, now, simulate k status) w = (simulate_device_status s user now k status w).1
  handle (user, now, acknowledge k) w = (ack_device user now k w).1
  handle (user, now, mute k muted) w = (mute_device user now k muted w).1
  handle (user, now, maintain k minutes) w = (maintenance_device show user now k minutes w).1
  handle (user, now, approve k id body) w = (approve_discovered day user now id k body w).1

  unfoldable pub handle_all : List (ℕ × ℕ × DeviceRequest) → World → World
  unfolding handle
  handle_all [] w = w
  handle_all (r ∷ rs) w = handle_all rs (handle r w)

  -- the id of a new device is that of none
  abbrev pub IsFresh : DeviceRequest → World → Type 0
  IsFresh (create id body) w = Table.find device_id id w.devices ≡ none
  IsFresh (approve k id body) w = Table.find device_id id w.devices ≡ none
  IsFresh r w = Unit

  abbrev pub AllFresh : List (ℕ × ℕ × DeviceRequest) → World → Type 0
  AllFresh [] w = Unit
  AllFresh (r ∷ rs) w = IsFresh r.2 w × AllFresh rs (handle r w)

  handle-IsCoherent :
      (r : ℕ × ℕ × DeviceRequest) (w : World)
      → IsFresh r.2 w
      → IsCoherent w
      → IsCoherent (handle r w)
  unfolding handle
  handle-IsCoherent (user, now, create id body) w fresh c =
      create_device-IsCoherent resolve user now id body w fresh c
  handle-IsCoherent (user, now, update k changes) w fresh c =
      update_device-IsCoherent resolve user now k changes w c
  handle-IsCoherent (user, now, simulate k status) w fresh c =
      simulate_device_status-IsCoherent s user now k status w c
  handle-IsCoherent (user, now, acknowledge k) w fresh c =
      (edits-IsCoherent show user now k true none w c).0
  handle-IsCoherent (user, now, mute k muted) w fresh c =
      (edits-IsCoherent show user now k muted none w c).1
  handle-IsCoherent (user, now, maintain k minutes) w fresh c =
      (edits-IsCoherent show user now k true minutes w c).2
  handle-IsCoherent (user, now, approve k id body) w fresh c =
      approve_discovered-IsCoherent day user now id k body w fresh c

  -- Any requests in any order, granted or refused, keep a snapshot that shows the table showing it:
  -- creations, updates, simulated statuses, acknowledgements, mutes, maintenance and approvals, if
  -- the id given to each new device is that of none at the time.
  pub handle_all-IsCoherent :
      (rs : List (ℕ × ℕ × DeviceRequest)) (w : World)
      → AllFresh rs w
      → IsCoherent w
      → IsCoherent (handle_all rs w)
  unfolding handle_all
  handle_all-IsCoherent [] w fresh c = c
  handle_all-IsCoherent (r ∷ rs) w fresh c =
      handle_all-IsCoherent rs (handle r w) fresh.1 (handle-IsCoherent r w fresh.0 c)
