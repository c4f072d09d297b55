-- ===== src/Ssh/Loop.antt =====
-- One tick of `ssh_poll_loop` (backend/app/services/ssh_collector.py): every enabled device with SSH is
-- collected, one after the other. `meanwhile` is what other tasks write during the session of a device,
-- the sessions that run beside it among them; `now` is
-- the clock at its end.
use network_monitoring.Prelude.{
  ℕ, String, inl, inr, List, [], map, Bool-cases, keep, ◌⊎◌, ◌&&◌, ◌∷◌, if◌then◌else◌, nat_eq,
  string_eq,
}
use network_monitoring.Settings.{Settings}
use network_monitoring.Device.{Device}
use network_monitoring.World.{World}
use network_monitoring.StateCache.Coherence.{IsLive}
use network_monitoring.Ssh.{Failure, Collection, Facts, Config, collect_device}
use network_monitoring.Ssh.Snapshot.{collect_device_keeps}

-- select(Device.id) of the devices to log in to
abbrev pub collected_ids : List Device → List ℕ
collected_ids rows =
    map (λ (d : Device). d.id) (keep (λ (d : Device). d.ssh_enabled && d.is_enabled) rows)

module _ (collection : Config → Failure ⊎ Collection) (dumps : Facts → String) (now : ℕ → ℕ)
    (meanwhile : ℕ → World → World) where
  unfoldable pub collect_each : List ℕ → World → World
  unfolding collect_device
  collect_each [] w = w
  collect_each (id ∷ ids) w =
      collect_each ids (collect_device collection dumps (now id) (meanwhile id) id w).1

  unfoldable pub ssh_tick : Settings → World → World
  unfolding collect_each
  ssh_tick s w = if s.ssh_enabled then collect_each (collected_ids w.devices) w else w

  collect_each-IsLive :
      (ids : List ℕ) (w : World)
      → ((id : ℕ) (v : World) → IsLive v → IsLive (meanwhile id v))
      → IsLive w
      → IsLive (collect_each ids w)
  unfolding collect_each
  collect_each-IsLive [] w others h = h
  collect_each-IsLive (id ∷ ids) w others h =
      collect_each-IsLive ids (collect_device collection dumps (now id) (meanwhile id) id w).1
        others (collect_device_keeps collection dumps (now id) (meanwhile id) id w (others id) h)

  -- A tick of the SSH loop, whatever the devices answer, keeps a snapshot that shows the status and
  -- service result of every row showing them, if what other tasks write during the sessions does.
  pub ssh_tick-IsLive :
      (s : Settings) (w : World)
      → ((id : ℕ) (v : World) → IsLive v → IsLive (meanwhile id v))
      → IsLive w
      → IsLive (ssh_tick s w)
  unfolding ssh_tick
  ssh_tick-IsLive s w others h = elim (Bool-cases s.ssh_enabled) [
    | inl e ↦ rw (e, ssh_tick) (collect_each-IsLive (collected_ids w.devices) w others h)
    | inr e ↦ rw (e, ssh_tick) h
  ]
