-- ===== src/Snmp/Uptime.antt =====
-- `_format_uptime` of snmp_collector.py and ssh_collector.py in backend/app/services. `show` prints a number.
use network_monitoring.Prelude.{
  ℕ, String, [], arith, nat_beq, ◌+◌, ◌*◌, ◌/◌, ◌%◌, ◌≤◌, ◌<◌, ◌&&◌, ◌∷◌, ◌++◌, if◌then◌else◌,
  nat_eq, string_eq,
}
use network_monitoring.Text.{concat, join}

-- days, hours and minutes of a number of seconds
unfoldable pub uptime_parts : ℕ → ℕ × ℕ × ℕ
uptime_parts secs = let rem = secs % 86400 in (secs / 86400, rem / 3600, rem % 3600 / 60)

-- the text that both collectors make of a number of seconds
unfoldable pub format_seconds : (ℕ → String) → ℕ → String
unfolding uptime_parts
format_seconds show secs =
    let (d, h, m) = uptime_parts secs in
    let days = if nat_beq d 0 then [] else concat (show d ∷ "d" ∷ []) ∷ [] in
    let hours = if nat_beq h 0 && nat_beq d 0 then [] else concat (show h ∷ "h" ∷ []) ∷ [] in
    join " " (days ++ (hours ++ concat (show m ∷ "m" ∷ []) ∷ []))

-- `ticks` are TimeTicks, hundredths of a second
unfoldable pub format_uptime : (ℕ → String) → ℕ → String
unfolding format_seconds
format_uptime show ticks = format_seconds show (ticks / 100)

abbrev pub minutes_of : ℕ × ℕ × ℕ → ℕ
minutes_of (d, h, m) = m + 60 * (h + 24 * d)

-- The parts of an uptime give it back to the minute: hours and minutes are below 24 and 60, and the
-- uptime lies in the minute that the parts name.
pub uptime_parts-bounds :
    (secs : ℕ)
    → ((uptime_parts secs).1 < 24)
      × ((uptime_parts secs).2 < 60)
      × (60 * minutes_of (uptime_parts secs) ≤ secs)
      × (secs < 60 * minutes_of (uptime_parts secs) + 60)
unfolding uptime_parts
uptime_parts-bounds secs = (omega arith, omega arith, omega arith, omega arith)
