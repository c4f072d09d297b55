-- ===== src/Ping/Verdict.antt =====
-- What the failure count and the status of a device say of its last checks (`_check_one` of
-- backend/app/services/ping_scheduler.py).
use network_monitoring.Settings.{Settings}
use network_monitoring.Device.{Device, DeviceStatus, online, offline, unknown}
use network_monitoring.World.{EventType}
use network_monitoring.Ping.{Check, observe}
use network_monitoring.Prelude.{
  ℕ, ap, inl, inr, true, false, List, [], arith, leb, Bool-cases, length, All, ◌+◌, ◌≤◌, ◌<◌, ◌≡◌,
  ◌∙◌, ◌⊎◌, ◌∷◌, ◌++◌, if◌then◌else◌, nat_eq, string_eq,
}

-- The status is the verdict on the failure count.
abbrev pub HasVerdict : Settings → Device → Type 0
HasVerdict s d =
    ((d.current_status ≡ online) × (d.consecutive_failures ≡ 0))
    ⊎ (((d.current_status ≡ unknown)
          × (0 < d.consecutive_failures)
          × (d.consecutive_failures < s.flap_threshold))
        ⊎ ((d.current_status ≡ offline) × (s.flap_threshold ≤ d.consecutive_failures)))

-- Whatever the row held, after a check a device is online with no failure counted, or unknown with
-- at least one failure and fewer than FLAP_THRESHOLD, or offline with at least FLAP_THRESHOLD
-- failures.
pub observe-HasVerdict : (s : Settings) (c : Check) (d : Device) → HasVerdict s (observe s c d).0
unfolding observe
observe-HasVerdict s c d = elim (Bool-cases c.alive) [
  | inl e ↦ inl (ground (arith, e))
  | inr e ↦ inr (elim (Bool-cases (leb s.flap_threshold (d.consecutive_failures + 1))) [
    | inl f ↦ inr (ground (arith, e, f))
    | inr f ↦ inl (ground (arith, e, f))
  ])
]

-- The checks of one device in order, with the events that they add.
unfoldable pub observe_all : Settings → List Check → Device → Device × List EventType
observe_all s [] d = (d, [])
observe_all s (c ∷ cs) d =
    let (d', events) = observe s c d in
    let (d'', rest) = observe_all s cs d' in (d'', events ++ rest)

abbrev pub verdict : Settings → ℕ → DeviceStatus
verdict s failures = if leb s.flap_threshold failures then offline else unknown

observe_failed :
    (s : Settings) (c : Check) (d : Device)
    → c.alive ≡ false
    → ((observe s c d).0.consecutive_failures ≡ d.consecutive_failures + 1)
      × ((observe s c d).0.current_status ≡ verdict s (d.consecutive_failures + 1))
unfolding observe
observe_failed s c d h = ground arith

-- After a row of one or more failed checks the count has grown by their number, and the device is
-- offline exactly if the count has reached FLAP_THRESHOLD, and unknown otherwise.
pub failed_run :
    (s : Settings) (c : Check) (cs : List Check) (d : Device)
    → All (λ k. k.alive ≡ false) (c ∷ cs)
    → ((observe_all s (c ∷ cs) d).0.consecutive_failures ≡ d.consecutive_failures + length (c ∷ cs))
      × ((observe_all s (c ∷ cs) d).0.current_status
          ≡ verdict s (d.consecutive_failures + length (c ∷ cs)))
unfolding observe_all
failed_run s c [] d h = ground (arith, observe_failed s c d h.0)
failed_run s c (k ∷ ks) d h =
    let (count, status) = failed_run s k ks (observe s c d).0 h.1 in
    let grown = (observe_failed s c d h.0).0 in
    let e : (observe s c d).0.consecutive_failures + length (k ∷ ks)
        ≡ d.consecutive_failures + length (c ∷ k ∷ ks) =
      omega arith in
    (count ∙ e, status ∙ ap (verdict s) e)

-- One answered check brings a device online with no failure counted, from any state.
pub observe_answered :
    (s : Settings) (c : Check) (d : Device)
    → c.alive ≡ true
    → ((observe s c d).0.current_status ≡ online) × ((observe s c d).0.consecutive_failures ≡ 0)
unfolding observe
observe_answered s c d h = ground arith
