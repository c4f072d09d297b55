-- ===== src/Snmp/Rates.antt =====
-- Interface rates from counter deltas (`_run_collection` of backend/app/services/snmp_collector.py).
-- Times are microseconds of the monotonic clock.
use network_monitoring.Rounding.{round_div}
use network_monitoring.Prelude.{
  ℕ, refl, sym, ap, inl, inr, Bool, true, false, not, Option, none, some, [], arith, ltb,
  Bool-cases, ◌+◌, ◌-◌, ◌*◌, ◌%◌, ◌^◌, ◌≤◌, ◌<◌, ◌≡◌, ◌∙◌, ◌≢◌, ◌⊎◌, ◌&&◌, ◌∷◌, if◌then◌else◌,
  nat_eq, string_eq,
}
use network_monitoring.Dict
use network_monitoring.Dict.{Dict}
use network_monitoring.Snmp.{Poll, ◌>>=◌, Value, int}

-- one device of `_last_counters` or `_peek_counters`
pub record Sample : Type 0 where
  pub t : ℕ
  pub hc : Bool
  pub octets : Dict ℕ (ℕ × ℕ)

-- 2**64 if hc else 2**32
abbrev pub wrap_of : Bool → ℕ
wrap_of true = 2 ^ 64
wrap_of false = 2 ^ 32

-- (cur - prev) % wrap, of Python's integers
unfoldable pub delta : ℕ → ℕ → ℕ → ℕ
delta wrap cur prev = (cur + (wrap - prev % wrap)) % wrap

out_octets_at : ℕ → Dict ℕ Value → Poll ℕ
unfolding Dict.get int
out_octets_at i outs = elim (Dict.get i outs) [ none ↦ inr 0 | some v ↦ int v ]

-- the counters of a poll by interface; both of the loops over them convert these
unfoldable pub octets_of : Dict ℕ Value → Dict ℕ Value → Poll (Dict ℕ (ℕ × ℕ))
unfolding int out_octets_at
octets_of [] outs = inr []
octets_of ((i, v) ∷ ins) outs = do
  n_in ← int v
  n_out ← out_octets_at i outs
  rest ← octets_of ins outs
  inr ((i, (n_in, n_out)) ∷ rest)

-- the octets that passed each interface that both polls saw
unfoldable pub deltas : ℕ → Dict ℕ (ℕ × ℕ) → Dict ℕ (ℕ × ℕ) → Dict ℕ (ℕ × ℕ)
unfolding Dict.get delta
deltas wrap before [] = []
deltas wrap before ((i, (n_in, n_out)) ∷ now) =
    let rest = deltas wrap before now in
    elim (Dict.get i before) [
      | none ↦ rest
      | some (p_in, p_out) ↦ (i, (delta wrap n_in p_in, delta wrap n_out p_out)) ∷ rest
    ]

abbrev same_width : Bool → Bool → Bool
same_width true b = b
same_width false b = not b

-- `if prev and prev.get("hc") == hc` and `if 0 < dt < 3600`
unfoldable pub comparable : ℕ → Bool → Sample → Bool
comparable now hc prev =
    same_width prev.hc hc && (ltb 0 (now - prev.t) && ltb (now - prev.t) 3600000000)

unfoldable pub passed : Option Sample → ℕ → Bool → Dict ℕ (ℕ × ℕ) → Dict ℕ (ℕ × ℕ)
unfolding deltas comparable
passed none now hc octets = []
passed (some prev) now hc octets =
    if comparable now hc prev then deltas (wrap_of hc) prev.octets octets else []

-- round(octets * 8 / dt), bits per second
unfoldable pub bps : ℕ → ℕ → ℕ
unfolding round_div
bps octets dt = round_div (octets * 8 * 1000000) dt

-- the bits of a counter of ifXTable (ifHCInOctets) and of ifTable (ifInOctets)
abbrev pub width : Bool → ℕ
width true = 64
width false = 32

-- A counter that has wrapped at most once gives the octets that passed.
pub delta-exact :
    (hc : Bool) (p d : ℕ)
    → d < 2 ^ width hc
    → delta (wrap_of hc) ((p + d) % 2 ^ width hc) (p % 2 ^ width hc) ≡ d
unfolding delta
delta-exact true p d small = omega arith
delta-exact false p d small = omega arith

delta-restarted :
    (hc : Bool) (n p : ℕ) → p < wrap_of hc → n < p → delta (wrap_of hc) n p ≡ wrap_of hc - p + n
unfolding delta
delta-restarted true n p old less = omega arith
delta-restarted false n p old less = omega arith

abbrev both : ℕ → Option (ℕ × ℕ) → Option (ℕ × ℕ) → Option (ℕ × ℕ)
both wrap none now = none
both wrap (some p) none = none
both wrap (some p) (some n) = some (delta wrap n.0 p.0, delta wrap n.1 p.1)

pub get-deltas :
    (wrap i : ℕ) (before now : Dict ℕ (ℕ × ℕ))
    → Dict.get i (deltas wrap before now) ≡ both wrap (Dict.get i before) (Dict.get i now)
unfolding Dict.get deltas
get-deltas wrap i before [] = ground arith
get-deltas wrap i before ((j, (n_in, n_out)) ∷ now) = ground (arith, get-deltas wrap i before now)

same_width-eq : (a b : Bool) → same_width a b ≡ true → b ≡ a
same_width-eq true true h = refl
same_width-eq true false h = cc
same_width-eq false true h = cc
same_width-eq false false h = refl

same_width-ne : (a b : Bool) → same_width a b ≡ false → b ≢ a
same_width-ne true true h = cc
same_width-ne true false h = λ e. cc
same_width-ne false true h = λ e. cc
same_width-ne false false h = cc

comparable-true :
    (now : ℕ) (hc : Bool) (prev : Sample)
    → comparable now hc prev ≡ true
    → (hc ≡ prev.hc) × (prev.t < now) × (now < prev.t + 3600000000)
unfolding comparable
comparable-true now hc prev h = elim (Bool-cases (same_width prev.hc hc)) [
  | inl e ↦ (same_width-eq prev.hc hc e, ground (arith, e, h), ground (arith, e, h))
  | inr e ↦ ground (arith, e, h)
]

comparable-false :
    (now : ℕ) (hc : Bool) (prev : Sample)
    → comparable now hc prev ≡ false
    → (hc ≢ prev.hc) ⊎ ((now ≤ prev.t) ⊎ (prev.t + 3600000000 ≤ now))
unfolding comparable
comparable-false now hc prev h = elim (Bool-cases (same_width prev.hc hc)) [
  | inr e ↦ inl (same_width-ne prev.hc hc e)
  | inl e ↦ inr (ground (arith, e, h))
]

-- Two polls of an interface that both saw, between which less than a full turn of the counter of the
-- second (of 64 or of 32 bits) passed in each direction: either their counters have the same width and
-- they lie less than an hour apart in order, and the interface is given exactly the octets that
-- passed, whatever the counters had wrapped to, or not, and no interface is given any.
pub get-passed :
    (prev : Sample) (now : ℕ) (hc : Bool) (octets : Dict ℕ (ℕ × ℕ)) (i p_in p_out d_in d_out : ℕ)
    → d_in < 2 ^ width hc
    → d_out < 2 ^ width hc
    → Dict.get i prev.octets ≡ some (p_in % 2 ^ width prev.hc, p_out % 2 ^ width prev.hc)
    → Dict.get i octets ≡ some ((p_in + d_in) % 2 ^ width hc, (p_out + d_out) % 2 ^ width hc)
    → ((hc ≡ prev.hc)
        × (prev.t < now)
        × (now < prev.t + 3600000000)
        × (Dict.get i (passed (some prev) now hc octets) ≡ some (d_in, d_out)))
      ⊎ (((hc ≢ prev.hc) ⊎ ((now ≤ prev.t) ⊎ (prev.t + 3600000000 ≤ now)))
          × (passed (some prev) now hc octets ≡ []))
unfolding passed
get-passed prev now hc octets i p_in p_out d_in d_out less_in less_out was is =
    elim (Bool-cases (comparable now hc prev)) [
      | inr far ↦ inr (comparable-false now hc prev far, rw (far, passed) refl)
      | inl near ↦
          let (same, later, soon) = comparable-true now hc prev near in
          inl (
            same,
            later,
            soon,
            (let was' : Dict.get i prev.octets ≡ some (p_in % 2 ^ width hc, p_out % 2 ^ width hc) =
                  was ∙ ap (λ b. some (p_in % 2 ^ width b, p_out % 2 ^ width b)) (sym same) in
                rw
                  (
                    near,
                    get-deltas (wrap_of hc) i prev.octets octets,
                    was',
                    is,
                    delta-exact hc p_in d_in less_in,
                    delta-exact hc p_out d_out less_out,
                  )
                  refl),
          )
    ]

-- A counter that has started again from zero (its agent has restarted) is taken for one that has
-- wrapped: it is given what was missing to a full turn, besides what has passed.
pub get-passed_restarted :
    (prev : Sample) (now : ℕ) (octets : Dict ℕ (ℕ × ℕ)) (i p_in p_out n_in n_out : ℕ)
    → comparable now prev.hc prev ≡ true
    → p_in < wrap_of prev.hc
    → p_out < wrap_of prev.hc
    → n_in < p_in
    → n_out < p_out
    → Dict.get i prev.octets ≡ some (p_in, p_out)
    → Dict.get i octets ≡ some (n_in, n_out)
    → Dict.get i (passed (some prev) now prev.hc octets)
      ≡ some (wrap_of prev.hc - p_in + n_in, wrap_of prev.hc - p_out + n_out)
unfolding passed
get-passed_restarted prev now octets i p_in p_out n_in n_out near old_in old_out less_in less_out
      was is =
    rw
      (
        near,
        get-deltas (wrap_of prev.hc) i prev.octets octets,
        was,
        is,
        delta-restarted prev.hc n_in p_in old_in less_in,
        delta-restarted prev.hc n_out p_out old_out less_out,
      )
      refl
