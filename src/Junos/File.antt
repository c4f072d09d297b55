-- ===== src/Junos/File.antt =====
-- The configuration file of the emulated router reads back (lab/junos-emu/jcli.py).
use network_monitoring.Prelude.{
  String, refl, ap, Bool, true, false, not, some, List, [], arith, nat_beq, keep, all, ◌≡◌, ◌∙◌,
  ◌&&◌, ◌||◌, ◌∷◌, ◌++◌, ◌==◌, nat_eq, string_eq,
}
use Prim.Native.String
use Prim.Native.Char.{Char, char, code}
use text.Mathlib.TextLemmas.{cons-append, nil-append, append_assoc}
use network_monitoring.Text.{join, split_at, split_on, strip}
use network_monitoring.Junos.{is_return, universal, file_lines, read_committed, write_committed}

abbrev newline : Char
newline = char 10 tt

abbrev is_newline : Char → Bool
is_newline c = nat_beq (code c) 10

-- a text without a line end
abbrev pub one_line : String → Bool
one_line String.[] = true
one_line (String.◌∷◌ c s) = let rest = one_line s in not (is_newline c || is_return c) && rest

both_true : (a b : Bool) → (a && b) ≡ true → (a ≡ true) × (b ≡ true)
both_true a b h = ground arith

off : (a b : Bool) → not (a || b) ≡ true → (a ≡ false) × (b ≡ false)
off a b h = ground arith

split_at-line :
    (l s : String)
    → one_line l ≡ true
    → split_at is_newline (String.◌++◌ l (String.◌∷◌ newline s))
      ≡ (l, (split_at is_newline s).0 ∷ (split_at is_newline s).1)
unfolding split_at
split_at-line String.[] s h = rw (nil-append (String.◌∷◌ newline s)) refl
split_at-line (String.◌∷◌ c l) s h =
    let (here, later) = both_true (not (is_newline c || is_return c)) (one_line l) h in
    rw (cons-append c l (String.◌∷◌ newline s))
      (rw ((off (is_newline c) (is_return c) here).0, split_at-line l s later) refl)

split_on-line :
    (l s : String)
    → one_line l ≡ true
    → split_on 10 (String.◌++◌ l (String.◌∷◌ newline s)) ≡ l ∷ split_on 10 s
unfolding split_on
split_on-line l s h = rw (split_at-line l s h) refl

-- the text of the lines, each with its newline
file_text : List String → String
file_text [] = ""
file_text (l ∷ ls) = String.◌++◌ l (String.◌∷◌ newline (file_text ls))

write-file_text : (l : String) (ls : List String) → write_committed (l ∷ ls) ≡ file_text (l ∷ ls)
unfolding write_committed file_text
write-file_text l [] = refl
write-file_text l (m ∷ ls) =
    let rest = join "\n" (m ∷ ls) in
    append_assoc l (String.◌++◌ "\n" rest) "\n"
    ∙ ap (String.◌++◌ l) (
        ap (λ t. String.◌++◌ t "\n")
          (cons-append newline "" rest ∙ ap (String.◌∷◌ newline) (nil-append rest))
        ∙ cons-append newline rest "\n"
        ∙ ap (String.◌∷◌ newline) (write-file_text m ls))

split_on-file_text :
    (ls : List String) → all one_line ls ≡ true → split_on 10 (file_text ls) ≡ ls ++ "" ∷ []
unfolding split_on split_at file_text
split_on-file_text [] h = refl
split_on-file_text (l ∷ ls) h =
    let (here, later) = both_true (one_line l) (all one_line ls) h in
    split_on-line l (file_text ls) here ∙ ap (◌∷◌ l) (split_on-file_text ls later)

universal-line :
    (l s : String)
    → one_line l ≡ true
    → universal (String.◌++◌ l (String.◌∷◌ newline s))
      ≡ String.◌++◌ l (String.◌∷◌ newline (universal s))
unfolding universal
universal-line String.[] s h =
    rw (nil-append (String.◌∷◌ newline s), nil-append (String.◌∷◌ newline (universal s))) refl
universal-line (String.◌∷◌ c l) s h =
    let (here, later) = both_true (not (is_newline c || is_return c)) (one_line l) h in
    rw (cons-append c l (String.◌∷◌ newline s), cons-append c l (String.◌∷◌ newline (universal s)))
      (rw ((off (is_newline c) (is_return c) here).1, universal-line l s later) refl)

-- Lines without a line end in them are read as they are.
universal-file_text :
    (ls : List String) → all one_line ls ≡ true → universal (file_text ls) ≡ file_text ls
unfolding universal file_text
universal-file_text [] h = refl
universal-file_text (l ∷ ls) h =
    let (here, later) = both_true (one_line l) (all one_line ls) h in
    universal-line l (file_text ls) here
    ∙ ap (λ t. String.◌++◌ l (String.◌∷◌ newline t)) (universal-file_text ls later)

abbrev pub is_filled : String → Bool
is_filled l = not (strip l == "")

keep-filled : (ls : List String) → all is_filled ls ≡ true → keep is_filled (ls ++ "" ∷ []) ≡ ls
unfolding strip
keep-filled [] h = refl
keep-filled (l ∷ ls) h =
    let (here, later) = both_true (is_filled l) (all is_filled ls) h in
    rw (here) (ap (◌∷◌ l) (keep-filled ls later))

file_lines-write_committed :
    (l : String) (ls : List String)
    → all one_line (l ∷ ls) ≡ true
    → all is_filled (l ∷ ls) ≡ true
    → file_lines (write_committed (l ∷ ls)) ≡ l ∷ ls
unfolding file_lines
file_lines-write_committed l ls single filled =
    ap (λ t. keep is_filled (split_on 10 (universal t))) (write-file_text l ls)
    ∙ ap (λ t. keep is_filled (split_on 10 t)) (universal-file_text (l ∷ ls) single)
    ∙ ap (keep is_filled) (split_on-file_text (l ∷ ls) single)
    ∙ keep-filled (l ∷ ls) filled

-- A configuration of at least one line reads back from the file as it was written, if no line is
-- blank or has a line end (a newline or a carriage return) in it.
pub read_committed-write_committed :
    (default : List String) (l : String) (ls : List String)
    → all one_line (l ∷ ls) ≡ true
    → all is_filled (l ∷ ls) ≡ true
    → read_committed default (some (write_committed (l ∷ ls))) ≡ l ∷ ls
unfolding read_committed
read_committed-write_committed default l ls single filled =
    rw (file_lines-write_committed l ls single filled, read_committed) refl
