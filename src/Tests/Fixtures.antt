-- ===== src/Tests/Fixtures.antt =====
-- A switch, a server behind it, and the world that holds them.
use network_monitoring.Dict
use network_monitoring.Table
use network_monitoring.Device.{Device, serialize_device, online, offline}
use network_monitoring.DeviceFields.{blank_device}
use network_monitoring.World.{World, empty_world}
use network_monitoring.StateCache.Coherence.{IsCoherent, IsLive, live}
use network_monitoring.Parents.Forest.{IsForest}
use network_monitoring.Devices.Growth.{HasParents}
use network_monitoring.Prelude.{refl, ap, inl, inr, some, [], arith, nat_beq, Bool-cases, ◌∷◌}

abbrev pub switch : Device
switch = record (blank_device 1 7 0) {
  vendor_name = "switch";
  ip_address = "10.0.0.1";
  current_status = online;
}

abbrev pub server : Device
server = record (blank_device 2 7 5) {
  vendor_name = "server";
  ip_address = "10.0.0.2";
  current_status = offline;
  consecutive_failures = 2;
  parent_id = some 1;
}

abbrev pub site : World
site = record empty_world {
  devices = switch ∷ server ∷ [];
  cache = (1, serialize_device switch) ∷ (2, serialize_device server) ∷ [];
}

pub site-IsCoherent : IsCoherent site
unfolding Dict.get Table.find
site-IsCoherent k = elim (Bool-cases (nat_beq 1 k)) [
  | inl e ↦ ground (arith, e)
  | inr e ↦ elim (Bool-cases (nat_beq 2 k)) [
    | inl f ↦ ground (arith, e, f)
    | inr f ↦ ground (arith, e, f)
  ]
]

pub site-IsLive : IsLive site
site-IsLive k = ap live (site-IsCoherent k)

pub site-IsForest : IsForest site.devices
unfolding Table.find
site-IsForest k = elim (Bool-cases (nat_beq 1 k)) [
  | inl e ↦ (0, ground (arith, e))
  | inr e ↦ elim (Bool-cases (nat_beq 2 k)) [
    | inl f ↦ (1, (1, ground (arith, e, f), refl))
    | inr f ↦ (0, ground (arith, e, f))
  ]
]

pub site-HasParents : HasParents site.devices
unfolding Table.find
site-HasParents k p h = elim (Bool-cases (nat_beq 1 k)) [
  | inl e ↦ ground (arith, e, h)
  | inr e ↦ elim (Bool-cases (nat_beq 2 k)) [
    | inl f ↦ ground (arith, e, f, h)
    | inr f ↦ ground (arith, e, f, h)
  ]
]
