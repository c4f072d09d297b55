-- ===== src/Syslog/Bounds.antt =====
-- What the parser of a syslog datagram promises (backend/app/services/syslog_listener.py).
use network_monitoring.Text.{strip}
use network_monitoring.Syslog.{match_pri, priority, parse_syslog}
use network_monitoring.Prelude.{
  ℕ, String, refl, inl, inr, Option, none, some, arith, leb, Bool-cases, ◌+◌, ◌*◌, ◌≤◌, ◌<◌, ◌≡◌,
  nat_eq, string_eq,
}

-- What a priority and its decoding have to do with each other: a priority up to 191 is the facility
-- times eight and the severity; without one, the facility is unknown and the severity is info.
abbrev pub IsDecoded : Option (ℕ × String) → Option ℕ → ℕ → Type 0
IsDecoded none facility severity = (facility ≡ none) × (severity ≡ 6)
IsDecoded (some (pri, rest)) none severity = (191 < pri) × (severity ≡ 6)
IsDecoded (some (pri, rest)) (some f) severity = (pri ≤ 191) × (f ≤ 23) × (f * 8 + severity ≡ pri)

priority-IsDecoded :
    (start : Option (ℕ × String)) → IsDecoded start (priority start).0 (priority start).1
priority-IsDecoded none = (refl, refl)
priority-IsDecoded (some (pri, rest)) = elim (Bool-cases (leb pri 191)) [
  | inl e ↦ rw e (ground (arith, e), ground (arith, e), omega arith)
  | inr e ↦ rw e (ground (arith, e), refl)
]

priority-lt : (start : Option (ℕ × String)) → (priority start).1 < 8
priority-lt none = omega arith
priority-lt (some (pri, rest)) = elim (Bool-cases (leb pri 191)) [
  | inl e ↦ rw e (omega arith)
  | inr e ↦ rw e (omega arith)
]

-- Whatever a datagram holds, its severity indexes the eight names of SEVERITY_NAMES, and facility and
-- severity decode the priority that stands in front, if one does.
pub parse_syslog-IsDecoded :
    (raw : String)
    → ((parse_syslog raw).severity < 8)
      × IsDecoded (match_pri (strip raw)) (parse_syslog raw).facility (parse_syslog raw).severity
unfolding parse_syslog
parse_syslog-IsDecoded raw =
    (priority-lt (match_pri (strip raw)), priority-IsDecoded (match_pri (strip raw)))
