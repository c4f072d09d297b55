-- ===== src/Snmp/Decode.antt =====
-- How the inventory of backend/app/services/snmp_collector.py decodes values and indexes. `hex` prints a
-- number with at least two hexadecimal digits.
use network_monitoring.Prelude.{
  ℕ, zero, suc, String, refl, sym, ap, inl, inr, not, Option, none, some, List, [], map, arith, ltb,
  nat_beq, length, take, drop, ◌+◌, ◌*◌, ◌/◌, ◌%◌, ◌^◌, ◌≤◌, ◌<◌, ◌≡◌, ◌&&◌, ◌||◌, ◌∷◌, ◌==◌,
  if◌then◌else◌, ◌>>=◌, nat_eq, string_eq,
}
use network_monitoring.Dict
use network_monitoring.Dict.{Dict}
use network_monitoring.Text.{join, strip, split_on}
use network_monitoring.Readers.{is_digit, span, int_of}
use network_monitoring.Snmp.{Value, Agent, walk, walk_full}

unfoldable pub enterprise_vendors : Dict ℕ String
enterprise_vendors =
    (9, "Cisco")
    ∷ (2636, "Juniper")
    ∷ (6527, "Nokia")
    ∷ (2011, "Huawei")
    ∷ (8072, "Net-SNMP")
    ∷ (11, "HP")
    ∷ (14988, "MikroTik")
    ∷ (30065, "Arista")
    ∷ (2352, "Redback")
    ∷ (25506, "H3C")
    ∷ (12356, "Fortinet")
    ∷ (1991, "Foundry")
    ∷ []

-- `_as_int` of `rows.get(key)`
abbrev pub as_int : Option Value → Option ℕ
as_int none = none
as_int (some v) = v.number

abbrev pub stripped : String → Option String
stripped s = if s == "" then none else some s

unfoldable pub as_str : Option Value → Option String
unfolding strip
as_str none = none
as_str (some v) = stripped (strip v.text)

-- `_mac`: one to eight octets
unfoldable pub mac : (ℕ → String) → Option Value → Option String
mac hex none = none
mac hex (some v) = elim v.octets [
  | none ↦ none
  | some raw ↦
      if nat_beq (length raw) 0 || ltb 8 (length raw) then none else some (join ":" (map hex raw))
]

-- int(text), for a text of digits
unfoldable pub int_text : String → Option ℕ
unfolding span int_of
int_text s =
    let (digits, rest) = span is_digit s in
    if not (digits == "") && rest == "" then some (int_of digits) else none

unfoldable pub vendor_from_oid : Option String → Option String
unfolding split_on int_text Dict.get enterprise_vendors
vendor_from_oid none = none
vendor_from_oid (some oid) =
    let parts = split_on b'.' oid in
    elim (drop 6 parts) [
      | [] ↦ none
      | number ∷ rest ↦
          if join "." (take 6 parts) == "1.3.6.1.4.1"
          then elim (int_text number) [ none ↦ none | some n ↦ Dict.get n enterprise_vendors ]
          else none
    ]

-- bin(n).count("1"); the fuel n is enough
unfoldable pub ones : ℕ → ℕ → ℕ
ones zero n = 0
ones (suc fuel) n = n % 2 + ones fuel (n / 2)

sum_of_ones : List String → Option ℕ
unfolding int_text ones
sum_of_ones [] = some 0
sum_of_ones (o ∷ os) = do n ← int_text o; rest ← sum_of_ones os; some (ones n n + rest)

unfoldable pub prefix_len : List String → ℕ
unfolding sum_of_ones
prefix_len mask_octets = elim (sum_of_ones mask_octets) [ none ↦ 0 | some n ↦ n ]

-- a walk of an optional column
unfoldable pub safe_walk : Agent → String → Dict ℕ Value
unfolding walk
safe_walk a oid = elim (walk a oid) [ inl f ↦ [] | inr rows ↦ rows ]

unfoldable pub safe_walk_full : Agent → String → Option ℕ → Dict String Value
unfolding walk_full
safe_walk_full a oid max_rows = elim (walk_full a oid max_rows) [ inl f ↦ [] | inr rows ↦ rows ]

half_of : (n m : ℕ) → n < 2 * m → n / 2 < m
half_of n m h = omega arith

pub ones-le : (bits fuel n : ℕ) → n < 2 ^ bits → ones fuel n ≤ bits
unfolding ones
ones-le bits zero n h = omega arith
ones-le zero (suc fuel) n h = omega (arith, ones-le zero fuel (n / 2) (omega arith))
ones-le (suc bits) (suc fuel) n h =
    omega (arith, ones-le bits fuel (n / 2) (half_of n (2 ^ bits) (omega arith)))

ones-zero : (fuel : ℕ) → ones fuel 0 ≡ 0
unfolding ones
ones-zero zero = refl
ones-zero (suc fuel) = omega (arith, ones-zero fuel)

same_ones : (f g n : ℕ) → n ≤ f → n ≤ g → ones f n ≡ ones g n
unfolding ones
same_ones zero g zero hf hg = sym (ones-zero g)
same_ones zero g (suc n) hf hg = omega arith
same_ones (suc f) zero zero hf hg = omega (arith, ones-zero f)
same_ones (suc f) zero (suc n) hf hg = omega arith
same_ones (suc f) (suc g) n hf hg =
    ap (λ k. n % 2 + k) (same_ones f g (n / 2) (omega arith) (omega arith))

-- The fuel of a count of bits is enough: more of it counts the same.
ones_enough : (fuel n : ℕ) → n ≤ fuel → ones fuel n ≡ ones n n
ones_enough fuel n h = same_ones fuel n n h (omega arith)
