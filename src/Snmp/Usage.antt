-- ===== src/Snmp/Usage.antt =====
-- CPU and memory of a polled device (`_mem_percent`, `_vendor_cpu`, `_vendor_mem` and their callers
-- in backend/app/services/snmp_collector.py). A percentage is a number of tenths, rounded as the
-- exact quotient is. Case is that of ASCII.
use network_monitoring.Rounding.{round_div}
use network_monitoring.Prelude.{
  ℕ, String, inl, inr, Bool, true, false, Option, none, some, List, [], ltb, nat_beq, Eq, length,
  keep, ◌+◌, ◌*◌, ◌&&◌, ◌||◌, ◌∷◌, ◌==◌, if◌then◌else◌, nat_eq, string_eq,
}
use Prim.Native.Char.{Char, code}
use network_monitoring.Dict
use network_monitoring.Dict.{Dict}
use network_monitoring.Text.{text_length}
use network_monitoring.Readers.{is_upper}
use network_monitoring.Snmp.{failure, Poll, ◌>>=◌, Value, Agent, int, ints, get, walk}
use network_monitoring.Snmp.Oids.{
  oid_hr_cpu_load, oid_hr_storage_descr, oid_hr_storage_units, oid_hr_storage_size,
  oid_hr_storage_used, oid_cisco_cpu_5min, oid_cisco_mem_used, oid_cisco_mem_free, oid_juniper_cpu,
  oid_juniper_mem, oid_nokia_cpu, oid_nokia_mem_used, oid_nokia_mem_avail,
}

-- the number of a letter in lower case
abbrev lower_code : Char → ℕ
lower_code c = if is_upper c then code c + 32 else code c

-- `s.lower().startswith(prefix)`, for a prefix in lower case
lower_starts : String → String → Bool
lower_starts String.[] s = true
lower_starts (String.◌∷◌ b p) String.[] = false
lower_starts (String.◌∷◌ b p) (String.◌∷◌ c s) =
    let rest = lower_starts p s in nat_beq (code b) (lower_code c) && rest

-- `part in s.lower()`
lower_has : String → String → Bool
unfolding lower_starts
lower_has part String.[] = part == ""
lower_has part (String.◌∷◌ c s) =
    let later = lower_has part s in lower_starts part (String.◌∷◌ c s) || later

unfoldable pub is_memory : String → Bool
unfolding lower_starts lower_has text_length
is_memory s =
    lower_has "physical memory" s
    || lower_has "real memory" s
    || (lower_starts "memory" s && nat_beq (text_length s) 6)

-- rows[key]
unfoldable pub item : {K : Type 0} ⦃e : Eq K⦄ → K → Dict K Value → Poll Value
unfolding Dict.get
item key rows = elim (Dict.get key rows) [ none ↦ inl (failure "KeyError" "") | some v ↦ inr v ]

size_and_used : ℕ → Dict ℕ Value → Dict ℕ Value → Dict ℕ Value → Poll (ℕ × ℕ)
unfolding item int
size_and_used idx units sizes useds = do
  size_value ← item idx sizes
  size ← int size_value
  used_value ← item idx useds
  used ← int used_value
  unit_value ← item idx units
  unit ← int unit_value
  inr (size, used)

-- `descrs` are the rows that are still to be looked at
unfoldable pub mem_percent : Dict ℕ Value → Dict ℕ Value → Dict ℕ Value → Dict ℕ Value → Option ℕ
unfolding is_memory size_and_used round_div
mem_percent [] units sizes useds = none
mem_percent ((idx, descr) ∷ descrs) units sizes useds =
    let later = mem_percent descrs units sizes useds in
    if is_memory descr.text
    then elim (size_and_used idx units sizes useds) [
      | inl f ↦ none
      | inr (size, used) ↦ if ltb 0 size then some (round_div (1000 * used) size) else later
    ]
    else later

abbrev sum : List ℕ → ℕ
sum [] = 0
sum (n ∷ ns) = n + sum ns

-- round(sum(vals) / len(vals), 1), if there are any
unfoldable pub average : List ℕ → Option ℕ
unfolding round_div
average [] = none
average (n ∷ ns) = some (round_div (10 * sum (n ∷ ns)) (length (n ∷ ns)))

-- round(used / (used + free) * 100, 1), if there is any
unfoldable pub share : ℕ → ℕ → Option ℕ
unfolding round_div
share used free = if ltb 0 (used + free) then some (round_div (1000 * used) (used + free)) else none

-- the first that answers
abbrev pub or_else : {A : Type 0} → Option A → Option A → Option A
or_else none b = b
or_else (some a) b = some a

-- a `try` block that may leave its result None
abbrev pub tried : {A : Type 0} → Poll (Option A) → Option A
tried (inl f) = none
tried (inr o) = o

walked_ints : Agent → String → Poll (List ℕ)
unfolding walk ints
walked_ints a oid = do rows ← walk a oid; ints (Dict.values rows)

-- the average of the rows above zero
abbrev active_average : Poll (List ℕ) → Option ℕ
active_average (inl f) = none
active_average (inr ns) = average (keep (λ n. ltb 0 n) ns)

first_scalar : Dict String Value → Poll (Option ℕ)
unfolding int
first_scalar [] = inr none
first_scalar ((oid, v) ∷ rest) = do n ← int v; inr (some (10 * n))

nokia_cpu : Agent → Poll (Option ℕ)
unfolding get first_scalar
nokia_cpu a = do vals ← get a (oid_nokia_cpu ∷ []); first_scalar vals

unfoldable pub vendor_cpu : Agent → Option ℕ
unfolding walked_ints average nokia_cpu
vendor_cpu a =
    or_else (active_average (walked_ints a oid_cisco_cpu_5min))
      (or_else (active_average (walked_ints a oid_juniper_cpu)) (tried (nokia_cpu a)))

cisco_mem : Agent → Poll (Option ℕ)
unfolding walk ints share
cisco_mem a = do
  used_rows ← walk a oid_cisco_mem_used
  free_rows ← walk a oid_cisco_mem_free
  used ← ints (Dict.values used_rows)
  free ← ints (Dict.values free_rows)
  inr (share (sum used) (sum free))

nokia_mem : Agent → Poll (Option ℕ)
unfolding get item int share
nokia_mem a = do
  vals ← get a (oid_nokia_mem_used ∷ oid_nokia_mem_avail ∷ [])
  used_value ← item oid_nokia_mem_used vals
  used ← int used_value
  avail_value ← item oid_nokia_mem_avail vals
  avail ← int avail_value
  inr (share used avail)

unfoldable pub vendor_mem : Agent → Option ℕ
unfolding cisco_mem walked_ints average nokia_mem
vendor_mem a =
    or_else (tried (cisco_mem a))
      (or_else (active_average (walked_ints a oid_juniper_mem)) (tried (nokia_mem a)))

hr_cpu : Agent → Poll (Option ℕ)
unfolding walked_ints average
hr_cpu a = do loads ← walked_ints a oid_hr_cpu_load; inr (average loads)

hr_mem_of : Agent → Dict ℕ Value → Poll (Option ℕ)
unfolding walk mem_percent
hr_mem_of a descrs = do
  units ← walk a oid_hr_storage_units
  sizes ← walk a oid_hr_storage_size
  useds ← walk a oid_hr_storage_used
  inr (mem_percent descrs units sizes useds)

unfoldable pub hr_mem : Agent → Poll (Option ℕ)
unfolding walk hr_mem_of
hr_mem a = do
  descrs ← walk a oid_hr_storage_descr
  if nat_beq (length descrs) 0 then inr none else hr_mem_of a descrs

-- HOST-RESOURCES, and else the vendor's MIB
unfoldable pub cpu_percent : Agent → Option ℕ
unfolding hr_cpu vendor_cpu
cpu_percent a = or_else (tried (hr_cpu a)) (vendor_cpu a)

unfoldable pub memory_percent : Agent → Option ℕ
unfolding hr_mem vendor_mem
memory_percent a = or_else (tried (hr_mem a)) (vendor_mem a)
