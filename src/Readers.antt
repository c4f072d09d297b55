-- ===== src/Readers.antt =====
-- The character classes and the readers out of which the patterns of
-- backend/app/services/syslog_listener.py are built. The classes are those of ASCII texts; a reader
-- gives what it matched and the rest of the text.
use Prim.Native.Char.{Char, code}
use network_monitoring.Text.{is_blank}
use network_monitoring.Prelude.{
  ℕ, String, Bool, not, Option, none, some, List, [], leb, nat_beq, contains, ◌+◌, ◌-◌, ◌*◌, ◌&&◌,
  ◌||◌, ◌∷◌, ◌==◌, if◌then◌else◌, nat_eq, string_eq,
}

abbrev pub is_digit : Char → Bool
is_digit c = leb b'0' (code c) && leb (code c) b'9'

abbrev pub is_upper : Char → Bool
is_upper c = leb b'A' (code c) && leb (code c) b'Z'

abbrev pub is_lower : Char → Bool
is_lower c = leb b'a' (code c) && leb (code c) b'z'

abbrev pub one_of : List ℕ → Char → Bool
one_of codes c = contains (code c) codes

-- \w
abbrev pub is_word : Char → Bool
is_word c = is_digit c || is_upper c || is_lower c || one_of (b'_' ∷ []) c

-- [\w.:-]
abbrev pub is_host : Char → Bool
is_host c = is_word c || one_of (b'.' ∷ b':' ∷ b'-' ∷ []) c

-- [\w./-]
abbrev pub is_tag : Char → Bool
is_tag c = is_word c || one_of (b'.' ∷ b'/' ∷ b'-' ∷ []) c

-- \S
abbrev pub is_mark : Char → Bool
is_mark c = not (is_blank c)

-- the longest run of a class, and the rest
unfoldable pub span : (Char → Bool) → String → String × String
span p String.[] = ("", "")
span p (String.◌∷◌ c s) =
    let (run, rest) = span p s in if p c then (String.◌∷◌ c run, rest) else ("", String.◌∷◌ c s)

-- a class with `+`: no reader that follows begins in the class, so the longest run is the match
unfoldable pub many : (Char → Bool) → String → Option (String × String)
unfolding span
many p s = let (run, rest) = span p s in if run == "" then none else some (run, rest)

-- one character of a class
unfoldable pub char : (Char → Bool) → String → Option String
char p String.[] = none
char p (String.◌∷◌ c s) = if p c then some s else none

abbrev pub lit : ℕ → Char → Bool
lit n c = nat_beq (code c) n

-- one character for each class
unfoldable pub chars : List (Char → Bool) → String → Option String
unfolding char
chars [] s = some s
chars (p ∷ ps) s = elim (char p s) [ none ↦ none | some rest ↦ chars ps rest ]

-- " ?"
unfoldable pub skip_space : String → String
unfolding char
skip_space s = elim (char (lit b' ') s) [ none ↦ s | some rest ↦ rest ]

unfoldable pub digits_value : ℕ → String → ℕ
digits_value n String.[] = n
digits_value n (String.◌∷◌ c s) = digits_value (10 * n + (code c - b'0')) s

-- int(digits)
unfoldable pub int_of : String → ℕ
unfolding digits_value
int_of s = digits_value 0 s
