-- ===== src/Snmp/Loop.antt =====
-- One tick of `snmp_poll_loop` (backend/app/services/snmp_collector.py): every enabled device with SNMP
-- is polled, one after the other, and an exception of one is only logged. `meanwhile` is what other
-- tasks write during the poll of a device, the polls that run beside it among them; `mono` and `now`
-- are the clocks at its poll.
use network_monitoring.Prelude.{
  ℕ, String, inl, inr, List, [], map, Bool-cases, keep, ◌&&◌, ◌∷◌, if◌then◌else◌, nat_eq, string_eq,
}
use network_monitoring.Dict.{Dict}
use network_monitoring.Settings.{Settings}
use network_monitoring.Device.{Device}
use network_monitoring.World.{World}
use network_monitoring.StateCache.Coherence.{IsLive}
use network_monitoring.Snmp.{Agent}
use network_monitoring.Snmp.Session.{Session}
use network_monitoring.Snmp.Rates.{Sample}
use network_monitoring.Snmp.Facts.{Facts}
use network_monitoring.Snmp.Collect.{collect_device}
use network_monitoring.Snmp.Snapshot.{collect_device-IsLive}

-- select(Device.id) of the devices to poll
abbrev pub polled_ids : List Device → List ℕ
polled_ids rows =
    map (λ (d : Device). d.id) (keep (λ (d : Device). d.snmp_enabled && d.is_enabled) rows)

module _ (repr : String → String) (show : ℕ → String) (dumps : Facts → String)
    (network : Session → Agent) (mono now : ℕ → ℕ) (meanwhile : ℕ → World → World) where
  unfoldable pub poll_each : List ℕ → World × Dict ℕ Sample → World × Dict ℕ Sample
  unfolding collect_device
  poll_each [] (w, counters) = (w, counters)
  poll_each (id ∷ ids) (w, counters) =
      let (result, w', counters') =
        collect_device repr show dumps network (mono id) (now id) (meanwhile id) id (w, counters) in
      poll_each ids (w', counters')

  unfoldable pub snmp_tick : Settings → World × Dict ℕ Sample → World × Dict ℕ Sample
  unfolding poll_each
  snmp_tick s (w, counters) =
      if s.snmp_enabled then poll_each (polled_ids w.devices) (w, counters) else (w, counters)

  poll_each-IsLive :
      (ids : List ℕ) (w : World) (counters : Dict ℕ Sample)
      → ((id : ℕ) (v : World) → IsLive v → IsLive (meanwhile id v))
      → IsLive w
      → IsLive (poll_each ids (w, counters)).0
  unfolding poll_each
  poll_each-IsLive [] w counters others h = h
  poll_each-IsLive (id ∷ ids) w counters others h =
      let after =
        collect_device repr show dumps network (mono id) (now id) (meanwhile id) id (w, counters) in
      poll_each-IsLive ids after.1 after.2 others (
        collect_device-IsLive repr show dumps network (mono id) (now id) (meanwhile id) id w
          counters (others id) h)

  -- A tick of the poll loop, whatever the devices answer and whichever polls fail, keeps a snapshot
  -- that shows the status and service result of every row showing them, if what other tasks write
  -- during the polls does.
  pub snmp_tick-IsLive :
      (s : Settings) (w : World) (counters : Dict ℕ Sample)
      → ((id : ℕ) (v : World) → IsLive v → IsLive (meanwhile id v))
      → IsLive w
      → IsLive (snmp_tick s (w, counters)).0
  unfolding snmp_tick
  snmp_tick-IsLive s w counters others h = elim (Bool-cases s.snmp_enabled) [
    | inl e ↦ rw (e, snmp_tick) (poll_each-IsLive (polled_ids w.devices) w counters others h)
    | inr e ↦ rw (e, snmp_tick) h
  ]
