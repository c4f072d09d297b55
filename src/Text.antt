-- ===== src/Text.antt =====
-- What the program does with whole texts: f-strings, `s[:n]`, `sep.join(parts)` and truth values.
use Prim.Native.String
use text.Mathlib.TextLemmas.{cons-append, nil-append}
use Prim.Native.Char.{Char, code}
use network_monitoring.Prelude.{
  ℕ, zero, suc, String, refl, Bool, true, false, not, Option, none, some, List, [], map, arith, leb,
  nat_beq, keep, contains, ◌≡◌, ◌&&◌, ◌||◌, ◌∷◌, ◌==◌, if◌then◌else◌, nat_eq, string_eq,
}

-- an f-string, given by its parts
abbrev pub concat : List String → String
concat [] = ""
concat (s ∷ ss) = String.◌++◌ s (concat ss)

-- s[:n]
abbrev pub first_chars : ℕ → String → String
first_chars zero s = ""
first_chars (suc n) String.[] = ""
first_chars (suc n) (String.◌∷◌ c s) = String.◌∷◌ c (first_chars n s)

-- s.startswith(prefix)
unfoldable pub starts_with : String → String → Bool
starts_with String.[] s = true
starts_with (String.◌∷◌ b p) String.[] = false
starts_with (String.◌∷◌ b p) (String.◌∷◌ c s) =
    let rest = starts_with p s in nat_beq (code b) (code c) && rest

-- s[n:]
unfoldable pub chars_after : ℕ → String → String
chars_after zero s = s
chars_after (suc n) String.[] = ""
chars_after (suc n) (String.◌∷◌ c s) = chars_after n s

-- len(s)
unfoldable pub text_length : String → ℕ
text_length String.[] = 0
text_length (String.◌∷◌ c s) = suc (text_length s)

pub starts_with-append : (p s : String) → starts_with p (String.◌++◌ p s) ≡ true
unfolding starts_with
starts_with-append String.[] s = refl
starts_with-append (String.◌∷◌ c p) s =
    rw (cons-append c p s) (ground (arith, starts_with-append p s))

pub chars_after-append : (p s : String) → chars_after (text_length p) (String.◌++◌ p s) ≡ s
unfolding chars_after text_length
chars_after-append String.[] s = nil-append s
chars_after-append (String.◌∷◌ c p) s = rw (cons-append c p s) (chars_after-append p s)

-- sep.join(parts)
abbrev pub join : String → List String → String
join sep [] = ""
join sep (s ∷ []) = s
join sep (s ∷ t ∷ ss) = String.◌++◌ s (String.◌++◌ sep (join sep (t ∷ ss)))

-- bool(s) of an optional text
abbrev pub truthy : Option String → Bool
truthy none = false
truthy (some s) = not (s == "")

-- bool(n) of an optional number
abbrev pub nonzero : Option ℕ → Bool
nonzero none = false
nonzero (some n) = not (nat_beq n 0)

-- o or d
abbrev pub text_or : Option String → String → String
text_or none d = d
text_or (some s) d = if s == "" then d else s

abbrev pub number_or : Option ℕ → ℕ → ℕ
number_or none d = d
number_or (some n) d = if nat_beq n 0 then d else n

abbrev pub is_comma : Char → Bool
is_comma c = nat_beq (code c) b','

-- c.isspace(): the blanks that `str.strip` takes off
abbrev pub is_blank : Char → Bool
is_blank c =
    (leb 9 (code c) && leb (code c) 13)
    || (leb 28 (code c) && leb (code c) 32)
    || (leb 8192 (code c) && leb (code c) 8202)
    || contains (code c) (133 ∷ 160 ∷ 5760 ∷ 8232 ∷ 8233 ∷ 8239 ∷ 8287 ∷ 12288 ∷ [])

lstrip : String → String
lstrip String.[] = ""
lstrip (String.◌∷◌ c s) = let rest = lstrip s in if is_blank c then rest else String.◌∷◌ c s

rstrip : String → String
rstrip String.[] = ""
rstrip (String.◌∷◌ c s) =
    let rest = rstrip s in if is_blank c && (rest == "") then "" else String.◌∷◌ c rest

-- s.strip()
unfoldable pub strip : String → String
unfolding lstrip rstrip
strip s = lstrip (rstrip s)

-- The fields of s.split(","): the first one and the others.
split_commas : String → String × List String
split_commas String.[] = ("", [])
split_commas (String.◌∷◌ c s) =
    let (field, fields) = split_commas s in
    if is_comma c then ("", field ∷ fields) else (String.◌∷◌ c field, fields)

-- [p.strip() for p in s.split(",") if p.strip()]
unfoldable pub comma_list : String → List String
unfolding strip split_commas
comma_list s =
    let (field, fields) = split_commas s in keep (λ p. not (p == "")) (map strip (field ∷ fields))

unfoldable pub split_at : (Char → Bool) → String → String × List String
split_at p String.[] = ("", [])
split_at p (String.◌∷◌ c s) =
    let (part, parts) = split_at p s in
    if p c then ("", part ∷ parts) else (String.◌∷◌ c part, parts)

abbrev some_texts : List String → List String
some_texts = keep (λ s. not (s == ""))

-- s.split()
unfoldable pub words : String → List String
unfolding split_at
words s = let (part, parts) = split_at is_blank s in some_texts (part ∷ parts)

-- s.split(sep), for one character
unfoldable pub split_on : ℕ → String → List String
unfolding split_at
split_on sep s = let (part, parts) = split_at (λ c. nat_beq (code c) sep) s in part ∷ parts

-- the boundaries of `str.splitlines`
abbrev is_break : Char → Bool
is_break c =
    (leb 10 (code c) && leb (code c) 13)
    || (leb 28 (code c) && leb (code c) 30)
    || contains (code c) (133 ∷ 8232 ∷ 8233 ∷ [])

-- s.splitlines(), without the empty lines
unfoldable pub lines : String → List String
unfolding split_at
lines s = let (part, parts) = split_at is_break s in some_texts (part ∷ parts)
