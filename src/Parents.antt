-- ===== src/Parents.antt =====
-- The graph of parents of backend/app/api/routes/devices.py: `_validate_parent` and the chains of
-- ancestors it walks. The loop runs on fuel, and `none` says that the fuel ran out.
pub mod Forest
use network_monitoring.Table
use network_monitoring.Device.{Device}
use network_monitoring.StateCache.Coherence.{device_id}
use network_monitoring.Prelude.{
  ℕ, zero, suc, String, refl, inl, inr, Bool, true, false, not, Option, none, some, List, [], arith,
  nat_beq, Option-cases, is_some, length, keep, length-keep-le, contains, ◌≤◌, ◌<◌, ◌≡◌, ◌∷◌,
  if◌then◌else◌, nat_eq, string_eq,
}

-- HTTPException
pub record Refusal : Type 0 where
  pub status : ℕ
  pub detail : String

abbrev pub refuse : ℕ → String → Refusal
refuse status detail = record { status = status; detail = detail }

-- `device_id is not None and current == device_id`
abbrev pub is_device : Option ℕ → ℕ → Bool
is_device none current = false
is_device (some k) current = nat_beq current k

abbrev not_found : ℕ → ℕ → Option Refusal
not_found parent current =
    if nat_beq current parent then some (refuse 422 "Parent device not found") else none

-- the `while` loop: what it raises, if anything
unfoldable pub walk : ℕ → List Device → Option ℕ → ℕ → List ℕ → Option ℕ → Option (Option Refusal)
walk fuel rows device parent seen none = some none
walk zero rows device parent seen (some current) = none
walk (suc fuel) rows device parent seen (some current) =
    if is_device device current
    then some (some (refuse 422 "This parent would create a dependency cycle"))
    else if contains current seen
    then some none
    else elim (Table.find device_id current rows) [
      | none ↦ some (not_found parent current)
      | some ancestor ↦ walk fuel rows device parent (current ∷ seen) ancestor.parent_id
    ]

-- `seen` holds ids of rows but for the last one, so that one round more than there are rows is
-- enough.
unfoldable pub validate_parent : List Device → Option ℕ → Option ℕ → Option (Option Refusal)
validate_parent rows device none = some none
validate_parent rows device (some parent) =
    if is_device device parent
    then some (some (refuse 422 "A device cannot be its own parent"))
    else walk (suc (length rows)) rows device parent [] (some parent)

-- the rows whose id is not in `seen`
abbrev unseen : List ℕ → List Device → ℕ
unseen seen rows = length (keep (λ d. not (contains d.id seen)) rows)

unseen-cons_le :
    (c : ℕ) (seen : List ℕ) (rows : List Device) → unseen (c ∷ seen) rows ≤ unseen seen rows
unseen-cons_le c seen [] = omega arith
unseen-cons_le c seen (d ∷ rows) = ground (arith, unseen-cons_le c seen rows)

unseen-cons_lt :
    (c : ℕ) (seen : List ℕ) (rows : List Device) (a : Device)
    → contains c seen ≡ false
    → Table.find device_id c rows ≡ some a
    → unseen (c ∷ seen) rows < unseen seen rows
unfolding Table.find
unseen-cons_lt c seen [] a h found = cc
unseen-cons_lt c seen (d ∷ rows) a h found =
    ground (arith, unseen-cons_lt c seen rows a, unseen-cons_le c seen rows)

walk-is_some :
    (fuel : ℕ) (rows : List Device) (device : Option ℕ) (parent : ℕ) (seen : List ℕ)
    (current : Option ℕ)
    → unseen seen rows < fuel
    → is_some (walk fuel rows device parent seen current) ≡ true
unfolding walk
walk-is_some fuel rows device parent seen none h = refl
walk-is_some zero rows device parent seen (some c) h = ground arith
walk-is_some (suc fuel) rows device parent seen (some c) h =
    elim (Option-cases (Table.find device_id c rows)) [
      | inl e ↦ ground (arith, e)
      | inr (a, e) ↦ ground (
        arith,
        unseen-cons_lt c seen rows a,
        walk-is_some fuel rows device parent (c ∷ seen) a.parent_id,
      )
    ]

-- The walk over the ancestors ends within one round more than there are devices, whatever cycles
-- the stored parents already form.
pub validate_parent-is_some :
    (rows : List Device) (device parent : Option ℕ)
    → is_some (validate_parent rows device parent) ≡ true
unfolding validate_parent
validate_parent-is_some rows device none = refl
validate_parent-is_some rows device (some p) = ground (
  arith,
  length-keep-le (λ d. not (contains d.id [])) rows,
  walk-is_some (suc (length rows)) rows device p [] (some p),
)
