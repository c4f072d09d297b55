-- ===== src/Devices/Checks.antt =====
-- The checks and histories of backend/app/api/routes/devices.py. A collector is the function of
-- services/ssh_collector.py or snmp_collector.py that the route calls; the rows of a history are what
-- the database answers, none where the query fails. Percentages are in tenths and hundredths as the
-- source rounds them, round-trip times in microseconds, rounded to 10 of them.
use network_monitoring.Rounding.{round_div}
use network_monitoring.Prelude.{
  ℕ, String, inl, inr, Bool, true, false, not, Option, none, some, List, [], map, Bool-cases,
  Option-cases, ◌⊎◌, ◌∷◌, if◌then◌else◌, nat_eq, string_eq,
}
use network_monitoring.Table
use network_monitoring.Text.{concat}
use network_monitoring.Device.{Device}
use network_monitoring.World.{World, add_audit}
use network_monitoring.StateCache.Coherence.{device_id, IsLive}
use network_monitoring.Parents.{refuse}
use network_monitoring.Devices.{Answer, not_found}

audited : ℕ → String → ℕ → World → World
unfolding add_audit
audited user action k w = add_audit (some user) action (some "device") (some k) none w

-- the answer of a collector that may find nothing configured
abbrev configured : {A : Type 0} → String → Option A → Answer A
configured text none = inl (refuse 400 text)
configured text (some a) = inr a

unfoldable pub ssh_check_device :
    {A : Type 0} → (ℕ → World → Option A × World) → ℕ → ℕ → World → Answer A × World
unfolding audited
ssh_check_device collect user k w = elim (Table.find device_id k w.devices) [
  | none ↦ (inl not_found, w)
  | some d ↦
      if not d.ssh_enabled
      then (inl (refuse 400 "SSH is not enabled for this device"), w)
      else let (result, w') = collect k (audited user "device.ssh_check" k w) in
        (configured "SSH is not configured for this device" result, w')
]

unfoldable pub snmp_check_device :
    {A : Type 0} → (ℕ → World → Option A × World) → ℕ → ℕ → World → Answer A × World
unfolding audited
snmp_check_device collect user k w = elim (Table.find device_id k w.devices) [
  | none ↦ (inl not_found, w)
  | some d ↦
      if not d.snmp_enabled
      then (inl (refuse 400 "SNMP is not enabled for this device"), w)
      else let (result, w') = collect k (audited user "device.snmp_check" k w) in
        (configured "SNMP is not configured for this device" result, w')
]

-- snmp_peek and snmp_inventory, whose collectors write nothing
unfoldable pub snmp_read : {A : Type 0} → (Device → Option A) → ℕ → World → Answer A
snmp_read collect k w = elim (Table.find device_id k w.devices) [
  | none ↦ inl not_found
  | some d ↦
      if not d.snmp_enabled
      then inl (refuse 400 "SNMP is not enabled for this device")
      else configured "SNMP is not configured for this device" (collect d)
]

-- a host of icmplib, its round-trip times in microseconds
pub record PingedHost : Type 0 where
  pub is_alive : Bool
  pub rtts : List ℕ
  pub packets_sent : ℕ
  pub packets_received : ℕ
  pub min_rtt : ℕ
  pub avg_rtt : ℕ
  pub max_rtt : ℕ
  -- packet_loss * 100, in tenths
  pub loss_tenths : ℕ

pub record PingNowResult : Type 0 where
  pub alive : Bool
  pub rtts_ms : List ℕ
  pub packets_sent : ℕ
  pub packets_received : ℕ
  pub packet_loss_pct : ℕ
  pub min_ms : Option ℕ
  pub avg_ms : Option ℕ
  pub max_ms : Option ℕ

abbrev if_any : List ℕ → ℕ → Option ℕ
if_any [] n = none
if_any (r ∷ rs) n = some (round_div n 10)

-- `ping` tries the raw socket; `unprivileged` is what `_icmp_ping` does after an OSError of it
unfoldable pub icmp_ping :
    (Bool → String → String ⊎ PingedHost) → (String → Bool) → String → String ⊎ PingedHost
icmp_ping ping is_os_error ip =
    let again = ping false ip in
    elim (ping true ip) [
      | inr host ↦ inr host
      | inl text ↦ if is_os_error text then again else inl text
    ]

unfoldable pub ping_device_now : (String → String ⊎ PingedHost) → ℕ → World → Answer PingNowResult
unfolding round_div
ping_device_now ping k w = elim (Table.find device_id k w.devices) [
  | none ↦ inl not_found
  | some d ↦ elim (ping d.ip_address) [
    | inl text ↦ inl (refuse 503 (concat ("ping failed: " ∷ text ∷ [])))
    | inr host ↦ inr record {
      alive = host.is_alive;
      rtts_ms = map (λ r. round_div r 10) host.rtts;
      packets_sent = host.packets_sent;
      packets_received = host.packets_received;
      packet_loss_pct = host.loss_tenths;
      min_ms = if_any host.rtts host.min_rtt;
      avg_ms = if_any host.rtts host.avg_rtt;
      max_ms = if_any host.rtts host.max_rtt;
    }
  ]
]

-- A check by a signed-in user, refused or not, keeps a snapshot that shows the status and service
-- result of every row showing them, if its collector does.
pub checks-IsLive :
    {A : Type 0} (collect : ℕ → World → Option A × World) (user k : ℕ) (w : World)
    → ((v : World) → IsLive v → IsLive (collect k v).1)
    → IsLive w
    → IsLive (ssh_check_device collect user k w).1 × IsLive (snmp_check_device collect user k w).1
unfolding ssh_check_device snmp_check_device audited
checks-IsLive collect user k w keeps h = elim (Option-cases (Table.find device_id k w.devices)) [
  | inl e ↦ (rw (e, ssh_check_device) h, rw (e, snmp_check_device) h)
  | inr (d, e) ↦ (
    elim (Bool-cases d.ssh_enabled) [
      | inl f ↦ rw (e, f, ssh_check_device) (keeps (audited user "device.ssh_check" k w) h)
      | inr f ↦ rw (e, f, ssh_check_device) h
    ],
    elim (Bool-cases d.snmp_enabled) [
      | inl f ↦ rw (e, f, snmp_check_device) (keeps (audited user "device.snmp_check" k w) h)
      | inr f ↦ rw (e, f, snmp_check_device) h
    ],
  )
]
