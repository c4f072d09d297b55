-- ===== src/StateCache.antt =====
-- backend/app/services/state_cache.py and cache_warm.py: the snapshot of the devices in Redis and
-- the bus of status changes. The JSON text of a device is its DeviceRead.
pub mod Coherence
use mathlib.Core.List.{foldl}
use network_monitoring.Dict
use network_monitoring.Dict.{Dict, values}
use network_monitoring.Device.{Device, DeviceRead, DeviceStatus, serialize_device}
use network_monitoring.World.{World, Change}
use network_monitoring.Prelude.{
  ℕ, String, Bool, true, false, not, Option, none, some, List, [], map, ltb, ◌&&◌, ◌∷◌, ◌++◌, ◌==◌,
  if◌then◌else◌, nat_eq, string_eq,
}

abbrev pub cache_version_now : String
cache_version_now = "3"

abbrev put_all : Dict ℕ DeviceRead → List DeviceRead → Dict ℕ DeviceRead
put_all c [] = c
put_all c (d ∷ ds) = put_all (Dict.put d.id d c) ds

-- the pipeline: delete, hset of the mapping, set of the version
unfoldable pub warm_devices : List DeviceRead → World → World
unfolding Dict.put
warm_devices serialized w = record w {
  cache = put_all [] serialized;
  cache_version = some cache_version_now;
}

unfoldable pub cache_is_current : World → Bool
cache_is_current w = elim w.cache_version [ none ↦ false | some v ↦ v == cache_version_now ]

-- `devices.sort(key=created_at)`, which is stable
insert_by_age : DeviceRead → List DeviceRead → List DeviceRead
insert_by_age d [] = d ∷ []
insert_by_age d (x ∷ xs) =
    if ltb d.created_at x.created_at then d ∷ x ∷ xs else x ∷ insert_by_age d xs

sort_by_age : List DeviceRead → List DeviceRead → List DeviceRead
unfolding insert_by_age
sort_by_age done [] = done
sort_by_age done (x ∷ xs) = sort_by_age (insert_by_age x done) xs

unfoldable pub get_all_devices : World → List DeviceRead
unfolding sort_by_age
get_all_devices w = sort_by_age [] (values w.cache)

unfoldable pub upsert_device : DeviceRead → World → World
unfolding Dict.put
upsert_device d w = record w { cache = Dict.put d.id d w.cache }

unfoldable pub remove_device : ℕ → World → World
unfolding Dict.pop
remove_device k w = record w { cache = Dict.pop k w.cache }

unfoldable pub publish_status_change : ℕ → DeviceStatus → Option ℕ → World → World
publish_status_change k status last_checked_at w = record w {
  published =
      w.published
      ++ record { device_id = k; status = status; last_checked_at = last_checked_at } ∷ [];
}

unfoldable pub update_and_publish : DeviceRead → DeviceStatus → Option ℕ → World → World
unfolding upsert_device publish_status_change
update_and_publish d status last_checked_at w =
    publish_status_change d.id status last_checked_at (upsert_device d w)

unfoldable pub set_heartbeat : ℕ → World → World
set_heartbeat now w = record w { heartbeat = some now }

unfoldable pub get_heartbeat : World → Option ℕ
get_heartbeat w = w.heartbeat

-- `select(Device).order_by(Device.created_at)`, by the same stable order
insert_row : Device → List Device → List Device
insert_row d [] = d ∷ []
insert_row d (x ∷ xs) = if ltb d.created_at x.created_at then d ∷ x ∷ xs else x ∷ insert_row d xs

unfoldable pub rows_by_age : List Device → List Device → List Device
unfolding insert_row
rows_by_age done [] = done
rows_by_age done (x ∷ xs) = rows_by_age (insert_row x done) xs

-- `existing` and `cached` are lists, and an empty list is false
abbrev pub is_empty {ℓ} : {A : Type ℓ} → List A → Bool
is_empty [] = true
is_empty (_ ∷ _) = false

-- A Redis that does not answer a read or the transaction of a write raises, and the handler goes on.
unfoldable pub warm_cache_if_cold : Bool → Bool → World → World
unfolding warm_devices cache_is_current get_all_devices rows_by_age
warm_cache_if_cold reads writes w =
    if not reads
    then w
    else if cache_is_current w && not (is_empty (get_all_devices w))
    then w
    else if writes
    then warm_devices (map serialize_device (rows_by_age [] w.devices)) w
    else w
