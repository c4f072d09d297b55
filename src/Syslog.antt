-- ===== src/Syslog.antt =====
-- backend/app/services/syslog_listener.py: the parser of a datagram and the receiver around the
-- shared buffer (Ingest.antt). The character classes of the patterns are those of ASCII texts. A
-- pattern is a chain of readers, each of which gives what it matched and the rest of the text;
-- where two alternatives of a pattern can both begin, they are tried in the pattern's order.
pub mod Bounds
pub mod Receiver
use Prim.Native.String
use Prim.Native.Char.{Char, code}
use network_monitoring.Readers.{
  is_digit, is_upper, is_lower, one_of, is_word, is_host, is_tag, is_mark, span, many, char, lit,
  chars, skip_space, digits_value, int_of,
}
use network_monitoring.Text.{text_length, concat, first_chars, is_blank, strip}
use network_monitoring.Prelude.{
  ℕ, String, Option, none, some, [], leb, ◌-◌, ◌/◌, ◌%◌, ◌||◌, ◌∷◌, ◌==◌, if◌then◌else◌, ◌>>=◌,
  nat_eq, string_eq,
}

-- `^<(\d{1,3})>`
unfoldable pub match_pri : String → Option (ℕ × String)
unfolding char many int_of text_length
match_pri s = do
  s ← char (lit b'<') s
  (digits, s) ← many is_digit s
  rest ← char (lit b'>') s
  if leb (text_length digits) 3 then some (int_of digits, rest) else none

-- `\S+ `
word : String → Option (String × String)
unfolding many char
word s = do (w, s) ← many is_mark s; rest ← char (lit b' ') s; some (w, rest)

-- the text after the first `]`
after_bracket : String → Option String
after_bracket String.[] = none
after_bracket (String.◌∷◌ c s) = let rest = after_bracket s in if lit b']' c then some s else rest

-- `(?:\[.*?\]|-)`
structured : String → Option String
unfolding char after_bracket
structured s = elim (char (lit b'[') s) [
  | some rest ↦ after_bracket rest
  | none ↦ char (lit b'-') s
]

-- the app name and the message of RFC 5424
unfoldable pub match_rfc5424 : String → Option (String × String)
unfolding chars word structured skip_space
match_rfc5424 s = do
  s ← chars (lit b'1' ∷ lit b' ' ∷ []) s
  (ts, s) ← word s
  (host, s) ← word s
  (app, s) ← word s
  (procid, s) ← word s
  (msgid, s) ← word s
  s ← structured s
  some (app, skip_space s)

-- `[A-Z][a-z]{2} [ \d]\d \d{2}:\d{2}:\d{2} `
timestamp : String → Option String
unfolding chars
timestamp = chars (
    is_upper
    ∷ is_lower
    ∷ is_lower
    ∷ lit b' '
    ∷ (λ c. lit b' ' c || is_digit c)
    ∷ is_digit
    ∷ lit b' '
    ∷ is_digit
    ∷ is_digit
    ∷ lit b':'
    ∷ is_digit
    ∷ is_digit
    ∷ lit b':'
    ∷ is_digit
    ∷ is_digit
    ∷ lit b' '
    ∷ [])

-- `[\w.:-]+ `
host_field : String → Option String
unfolding many char
host_field s = do (h, s) ← many is_host s; char (lit b' ') s

-- `(?:\[\d+\])?:`: the text of the group and the rest
pid_colon : String → Option (String × String)
unfolding many char
pid_colon s = elim (char (lit b':') s) [
  | some rest ↦ some ("", rest)
  | none ↦ do
    s ← char (lit b'[') s
    (pid, s) ← many is_digit s
    s ← char (lit b']') s
    rest ← char (lit b':') s
    some (concat ("[" ∷ pid ∷ "]" ∷ []), rest)
]

-- `(?P<tag>[\w./-]+(?:\[\d+\])?): ?(?P<msg>.*)$`
tag_and_message : String → Option (String × String)
unfolding many pid_colon skip_space
tag_and_message s = do
  (tag, s) ← many is_tag s
  (pid, s) ← pid_colon s
  some (concat (tag ∷ pid ∷ []), skip_space s)

abbrev or_else {ℓ} : {A : Type ℓ} → Option A → Option A → Option A
or_else none b = b
or_else (some a) b = some a

-- with the host if the rest of the pattern then matches, and else without it
with_host : String → Option (String × String)
unfolding host_field tag_and_message
with_host s =
    or_else (elim (host_field s) [ none ↦ none | some rest ↦ tag_and_message rest ])
      (tag_and_message s)

-- the tag and the message of RFC 3164
unfoldable pub match_rfc3164 : String → Option (String × String)
unfolding timestamp with_host
match_rfc3164 s =
    or_else (elim (timestamp s) [ none ↦ none | some rest ↦ with_host rest ]) (with_host s)

-- The facility, the severity, the app name and the message of a datagram.
pub record Parsed : Type 0 where
  pub facility : Option ℕ
  pub severity : ℕ
  pub app_name : Option String
  pub message : String

-- `divmod(pri, 8)` of a priority up to 191; the facility and the severity of any other start
abbrev pub priority : Option (ℕ × String) → Option ℕ × ℕ
priority none = (none, 6)
priority (some (pri, rest)) = if leb pri 191 then (some (pri / 8), pri % 8) else (none, 6)

abbrev pub after_pri : String → Option (ℕ × String) → String
after_pri s none = s
after_pri s (some (pri, rest)) = rest

abbrev app_of : String → Option String
app_of app = if app == "-" then none else some (first_chars 100 app)

-- the app name and the message of the text after the priority
unfoldable pub body_of : String → Option String × String
unfolding match_rfc5424 match_rfc3164 strip
body_of rest = elim (match_rfc5424 rest) [
  | some m ↦ (app_of m.0, strip m.1)
  | none ↦ elim (match_rfc3164 rest) [
    | some m ↦ if m.0 == "" then (none, rest) else (some (first_chars 100 m.0), strip m.1)
    | none ↦ (none, rest)
  ]
]

unfoldable pub parse_syslog : String → Parsed
unfolding match_pri body_of strip
parse_syslog raw =
    let start = match_pri (strip raw) in
    let (facility, severity) = priority start in
    let (app_name, message) = body_of (after_pri (strip raw) start) in
    record { facility = facility; severity = severity; app_name = app_name; message = message }
