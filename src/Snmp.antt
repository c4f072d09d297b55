-- ===== src/Snmp.antt =====
-- backend/app/services/snmp_collector.py: what a poll reads of an agent. pysnmp is a library: a
-- `Response` is one answer of its get_cmd or walk_cmd, and a `Value` is what `int`, `str` and
-- `asOctets` give of one of its objects (none where they raise). Integers are those that are not
-- negative. An agent answers an OID the same way during one session.
pub mod Oids
pub mod Session
pub mod Walks
pub mod Usage
pub mod Rates
pub mod Uptime
pub mod Facts
pub mod Collect
pub mod Snapshot
pub mod Loop
pub mod Decode
pub mod System
pub mod Hardware
pub mod Tables
pub mod Inventory
pub mod Caps
use network_monitoring.Prelude.{
  ℕ, String, inl, inr, Bool, true, false, Option, none, some, List, [], leb, nat_beq, Eq, length,
  ◌⊎◌, ◌||◌, ◌∷◌, ◌++◌, if◌then◌else◌, nat_eq, string_eq,
}
use Prim.Native.String
use Prim.Native.Char.{code}
use network_monitoring.Dict
use network_monitoring.Dict.{Dict}
use network_monitoring.Readers.{int_of}
use network_monitoring.Text.{starts_with, chars_after, text_length}

-- an exception: the name of its class, and its text
pub record Failure : Type 0 where
  pub kind : String
  pub text : String

abbrev pub failure : String → String → Failure
failure kind text = record { kind = kind; text = text }

abbrev pub Poll : Type 0 → Type 0
Poll A = Failure ⊎ A

infixl 1 ◌>>=◌
abbrev pub ◌>>=◌ : {A B : Type 0} → Poll A → (A → Poll B) → Poll B
inl f >>= k = inl f
inr a >>= k = k a

-- `try: ... except Exception: pass`
abbrev pub swallow : {A : Type 0} → Poll A → Option A
swallow (inl f) = none
swallow (inr a) = some a

pub record Value : Type 0 where
  pub number : Option ℕ
  pub text : String
  pub octets : Option (List ℕ)
  pub is_missing : Bool

pub record Response : Type 0 where
  pub err_ind : Option String
  pub err_status : Option String
  pub var_binds : List (String × Value)

pub record Agent : Type 0 where
  pub got : List String → Response
  pub walked : String → List Response

-- int(value)
unfoldable pub int : Value → Poll ℕ
int v = elim v.number [ none ↦ inl (failure "ValueError" v.text) | some n ↦ inr n ]

-- [int(v) for v in values]
unfoldable pub ints : List Value → Poll (List ℕ)
unfolding int
ints [] = inr []
ints (v ∷ vs) = do n ← int v; ns ← ints vs; inr (n ∷ ns)

-- the exception that an answer raises
unfoldable pub raised : Response → Option Failure
raised r = elim r.err_ind [
  | some text ↦ some (failure "TimeoutError" text)
  | none ↦ elim r.err_status [ some text ↦ some (failure "RuntimeError" text) | none ↦ none ]
]

unfoldable pub present : List (String × Value) → Dict String Value → Dict String Value
unfolding Dict.put
present [] out = out
present ((name, value) ∷ binds) out =
    present binds (if value.is_missing then out else Dict.put name value out)

unfoldable pub get : Agent → List String → Poll (Dict String Value)
unfolding raised present
get a oids = elim (raised (a.got oids)) [
  | some f ↦ inl f
  | none ↦ inr (present (a.got oids).var_binds [])
]

-- The rows of a walk: `index` gives the index of an oid of the subtree. The rows so far, and whether
-- the walk has left the subtree.
module _ {K : Type 0} ⦃e : Eq K⦄ (index : String → Option K) where
  unfoldable pub add_binds : List (String × Value) → Dict K Value → Dict K Value × Bool
  unfolding Dict.put
  add_binds [] out = (out, false)
  add_binds ((name, value) ∷ binds) out = elim (index name) [
    | none ↦ (out, true)
    | some i ↦ add_binds binds (Dict.put i value out)
  ]

  abbrev pub enough : Option ℕ → Dict K Value → Bool
  enough none out = false
  enough (some rows) out = leb rows (length out)

  unfoldable pub walk_rows : Option ℕ → List Response → Dict K Value → Poll (Dict K Value)
  unfolding raised add_binds
  walk_rows max_rows [] out = inr out
  walk_rows max_rows (r ∷ rs) out = elim (raised r) [
    | some f ↦ inl f
    | none ↦
        let (rows, left) = add_binds r.var_binds out in
        let rest = walk_rows max_rows rs rows in
        if left || enough max_rows rows then inr rows else rest
  ]

-- the part of an oid after the prefix `base_oid + "."`
unfoldable pub suffix_of : String → String → Option String
unfolding starts_with chars_after text_length
suffix_of base oid =
    let prefix = String.◌++◌ base "." in
    if starts_with prefix oid then some (chars_after (text_length prefix) oid) else none

has_dot : String → Bool
has_dot String.[] = false
has_dot (String.◌∷◌ c s) = nat_beq (code c) b'.' || has_dot s

-- oid.rsplit(".", 1)[1]
unfoldable pub last_part : String → String
unfolding has_dot
last_part String.[] = ""
last_part (String.◌∷◌ c s) =
    let rest = last_part s in
    if has_dot s then rest else if nat_beq (code c) b'.' then s else String.◌∷◌ c s

unfoldable pub index_of : String → String → Option ℕ
unfolding suffix_of last_part int_of
index_of base oid = elim (suffix_of base oid) [ none ↦ none | some s ↦ some (int_of (last_part s)) ]

unfoldable pub walk : Agent → String → Poll (Dict ℕ Value)
unfolding walk_rows index_of
walk a base = walk_rows (index_of base) none (a.walked base) []

unfoldable pub walk_full : Agent → String → Option ℕ → Poll (Dict String Value)
unfolding walk_rows suffix_of
walk_full a base max_rows = walk_rows (suffix_of base) max_rows (a.walked base) []
