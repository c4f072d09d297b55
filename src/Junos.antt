-- ===== src/Junos.antt =====
-- lab/junos-emu/jcli.py: the configuration of the emulated router, its file and its configuration mode.
-- What the show commands print of other things is left out. `default` is default_config().
pub mod File
pub mod Commit
use network_monitoring.Prelude.{
  ℕ, zero, suc, String, Bool, true, false, not, Option, none, some, List, [], nat_beq, keep,
  contains, ◌+◌, ◌||◌, ◌∷◌, ◌++◌, ◌==◌, if◌then◌else◌, nat_eq, string_eq,
}
use Prim.Native.String
use Prim.Native.Char.{Char, code}
use network_monitoring.Text.{concat, join, split_on, starts_with, chars_after, strip, words}

abbrev pub is_return : Char → Bool
is_return c = nat_beq (code c) 13

-- what a file in text mode is read as: "\r\n" and "\r" are line ends too
unfoldable pub universal : String → String
unfolding starts_with
universal String.[] = ""
universal (String.◌∷◌ c s) =
    let rest = universal s in
    if is_return c
    then (if starts_with "\n" s then rest else String.◌++◌ "\n" rest)
    else String.◌∷◌ c rest

unfoldable pub file_lines : String → List String
unfolding split_on strip universal
file_lines text = keep (λ l. not (strip l == "")) (split_on 10 (universal text))

-- `file` is the text of COMMIT_FILE, none where it cannot be read
unfoldable pub read_committed : List String → Option String → List String
unfolding file_lines
read_committed default none = default
read_committed default (some text) = elim (file_lines text) [ [] ↦ default | l ∷ ls ↦ l ∷ ls ]

-- the text that write_committed leaves in the file
unfoldable pub write_committed : List String → String
write_committed lines = String.◌++◌ (join "\n" lines) "\n"

-- a dict of dicts: no entry, or a key with its dict and the entries after it
pub data Tree : Type 0 where
  empty : Tree
  entry : String → Tree → Tree → Tree

-- node.setdefault(tok, {}) for one token after the other
add_path : List String → Tree → Tree
add_path [] t = t
add_path (tok ∷ toks) empty = entry tok (add_path toks empty) empty
add_path (tok ∷ toks) (entry k child rest) =
    let here = add_path toks child in
    let later = add_path (tok ∷ toks) rest in
    if k == tok then entry k here rest else entry k child later

add_lines : List String → Tree → Tree
unfolding add_path starts_with chars_after words
add_lines [] t = t
add_lines (line ∷ lines) t =
    add_lines lines (if starts_with "set " line then add_path (words (chars_after 4 line)) t else t)

unfoldable pub set_to_tree : List String → Tree
unfolding add_lines
set_to_tree lines = add_lines lines empty

abbrev repeat : ℕ → String → String
repeat zero s = ""
repeat (suc n) s = String.◌++◌ s (repeat n s)

unfoldable pub render_tree : Tree → ℕ → List String
render_tree empty indent = []
render_tree (entry k empty rest) indent =
    concat (repeat indent "    " ∷ k ∷ ";" ∷ []) ∷ render_tree rest indent
render_tree (entry k (entry j child more) rest) indent =
    let inner = render_tree (entry j child more) (indent + 1) in
    let later = render_tree rest indent in
    concat (repeat indent "    " ∷ k ∷ " {" ∷ [])
    ∷ (inner ++ concat (repeat indent "    " ∷ "}" ∷ []) ∷ later)

-- l == prefix or l.startswith(prefix + " ")
unfoldable pub at_or_below : String → String → Bool
unfolding starts_with
at_or_below prefix l = l == prefix || starts_with (String.◌++◌ prefix " ") l

abbrev is_no_args : List String → Bool
is_no_args [] = true
is_no_args (a ∷ args) = false

unfoldable pub show_configuration : List String → List String → Bool → String
unfolding at_or_below set_to_tree render_tree
show_configuration args cfg disp_set =
    let lines =
      if is_no_args args
      then cfg
      else keep (at_or_below (concat ("set " ∷ join " " args ∷ []))) cfg in
    if disp_set then join "\n" lines else join "\n" (render_tree (set_to_tree lines) 0)

-- the local variables of `repl`, and the file; the candidate is there in configuration mode
pub data Mode : Type 0 where
  op : Mode
  config : List String → Mode

pub record Repl : Type 0 where
  pub committed : List String
  pub file : Option String
  pub mode : Mode

unfoldable pub start : List String → Option String → Repl
unfolding read_committed
start default file = record { committed = read_committed default file; file = file; mode = op }

abbrev enters_config : String → Bool
enters_config line =
    line == "configure"
    || (line == "configure exclusive" || (line == "configure private" || line == "edit"))

abbrev leaves_config : String → Bool
leaves_config line =
    line == "exit" || (line == "quit" || (line == "exit configuration-mode" || line == "top"))

-- `x in s`
has_text : String → String → Bool
unfolding starts_with
has_text x String.[] = x == ""
has_text x (String.◌∷◌ c s) = let later = has_text x s in starts_with x (String.◌∷◌ c s) || later

abbrev pub deleted : String → List String → List String
deleted line candidate =
    keep (λ l. not (at_or_below (String.◌++◌ "set " (strip (chars_after 7 line))) l)) candidate

abbrev pub shows : String → Bool
shows line = starts_with "run " line || (line == "show" || starts_with "show " line)

-- a line of configuration mode
unfoldable pub config_line : List String → String → List String → Repl → Repl
unfolding starts_with strip chars_after at_or_below read_committed write_committed has_text
config_line default line candidate s =
    if leaves_config line
    then record s { mode = op }
    else if shows line
    then s
    else if starts_with "set " line
    then record s {
      mode = config (if contains line candidate then candidate else candidate ++ line ∷ []);
    }
    else if starts_with "delete " line
    then record s { mode = config (deleted line candidate) }
    else if starts_with "rollback" line
    then record s { mode = config (read_committed default s.file) }
    else if starts_with "commit" line
    then record {
      committed = candidate;
      file = some (write_committed candidate);
      mode = if has_text "and-quit" line then op else config candidate;
    }
    else s

-- a stripped line that does not end the session
unfoldable pub repl_line : List String → String → Repl → Repl
unfolding read_committed config_line
repl_line default line s = if line == "" then s else elim s.mode [
  | op ↦
      if enters_config line then record s { mode = config (read_committed default s.file) } else s
  | config candidate ↦ config_line default line candidate s
]

unfoldable pub repl : List String → List String → Repl → Repl
unfolding repl_line
repl default [] s = s
repl default (line ∷ lines) s = repl default lines (repl_line default line s)
