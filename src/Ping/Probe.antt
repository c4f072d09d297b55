-- ===== src/Ping/Probe.antt =====
-- `_system_ping` and `_ping_host` of backend/app/services/ping_scheduler.py. What the child process
-- and the regular expressions over its output deliver is the argument: the exit status, the number
-- of "TTL=" in the output, and the groups that matched.
use network_monitoring.Settings.{Settings}
use network_monitoring.Prelude.{
  ℕ, Bool, true, false, not, Option, none, some, arith, min, ltb, nat_beq, ◌≤◌, ◌<◌, ◌≡◌, ◌↔◌, ◌&&◌,
  ◌||◌, ◌==◌, if◌then◌else◌, nat_eq, string_eq,
}

pub record PingOutput : Type 0 where
  pub returncode : ℕ
  pub ttl_lines : ℕ
  pub received_group : Option ℕ
  pub rtt_group : Option ℕ

-- (alive, avg_rtt_ms, sent, received)
pub record Reply : Type 0 where
  pub alive : Bool
  pub rtt : Option ℕ
  pub sent : ℕ
  pub received : ℕ

silence : ℕ → Reply
silence count = record { alive = false; rtt = none; sent = count; received = 0 }

-- `count if proc.returncode == 0 else 0` where the expression does not match
linux_received : ℕ → PingOutput → ℕ
linux_received count o = elim o.received_group [
  | some n ↦ n
  | none ↦ if nat_beq o.returncode 0 then count else 0
]

-- `none` stands for a process that could not be spawned
unfoldable pub system_ping : Settings → Bool → Option PingOutput → Reply
unfolding silence linux_received
system_ping s windows none = silence s.ping_count
system_ping s true (some o) =
    if not (nat_beq o.returncode 0) || nat_beq o.ttl_lines 0 then silence s.ping_count else record {
      alive = ltb 0 o.ttl_lines;
      rtt = o.rtt_group;
      sent = s.ping_count;
      received = min o.ttl_lines s.ping_count;
    }
system_ping s false (some o) =
    let received = linux_received s.ping_count o in
    if not (nat_beq o.returncode 0) && nat_beq received 0 then silence s.ping_count else record {
      alive = ltb 0 received;
      rtt = o.rtt_group;
      sent = s.ping_count;
      received = min received s.ping_count;
    }

-- `host.avg_rtt` of icmplib is a number, 0 where nothing was measured
pub record IcmpHost : Type 0 where
  pub is_alive : Bool
  pub avg_rtt : ℕ
  pub packets_sent : ℕ
  pub packets_received : ℕ

unfoldable pub ping_host : Settings → Bool → IcmpHost → Option PingOutput → Reply
ping_host s windows host output =
    if s.ping_method == "icmplib"
    then record {
      alive = host.is_alive;
      rtt = if host.is_alive && not (nat_beq host.avg_rtt 0) then some host.avg_rtt else none;
      sent = host.packets_sent;
      received = host.packets_received;
    }
    else system_ping s windows output

-- The counts of a reply are what the loss statistics assume.
abbrev pub IsCounted : ℕ → Reply → Type 0
IsCounted count r = (r.sent ≡ count) × (r.received ≤ r.sent) × ((r.alive ≡ true) ↔ (0 < r.received))

-- Whatever the child process printed, on Windows or not, with at least one packet configured the
-- reply counts the configured packets as sent, never more packets received than sent, and the
-- device is alive exactly if a packet was received.
pub system_ping-IsCounted :
    (s : Settings) (windows : Bool) (o : Option PingOutput)
    → 0 < s.ping_count
    → IsCounted s.ping_count (system_ping s windows o)
unfolding system_ping
system_ping-IsCounted s windows none h = ground arith
system_ping-IsCounted s true (some o) h = ground arith
system_ping-IsCounted s false (some o) h = ground arith
