-- ===== src/Rounding.antt =====
-- Python's `round` of a quotient, with the exact quotient in place of the float.
use network_monitoring.Prelude.{
  ℕ, ap, inl, inr, arith, ltb, Bool-cases, ◌+◌, ◌*◌, ◌/◌, ◌%◌, ◌≤◌, ◌<◌, ◌≡◌, if◌then◌else◌, nat_eq,
  string_eq,
}
use native.Mathlib.Nat.{div-add-mod, div-le_of_le-mul, mod-lt}

-- round(a / b): the nearest whole number, a tie to the even one
unfoldable pub round_div : ℕ → ℕ → ℕ
round_div a b =
    let q = a / b in
    let r = 2 * (a % b) in if ltb r b then q else if ltb b r then q + 1 else q + q % 2

no_rest : (q r b k : ℕ) → q ≡ k → b * q + r ≤ b * k → r ≡ 0
no_rest q r b k e h = omega (arith, ap (λ n. b * n) e)

round_div-at :
    (q r b k : ℕ)
    → 0 < b
    → r < b
    → q ≤ k
    → b * q + r ≤ b * k
    → (if ltb (2 * r) b then q else if ltb b (2 * r) then q + 1 else q + q % 2) ≤ k
round_div-at q r b k some_b small le sum = elim (Bool-cases (ltb q k)) [
  | inl less ↦ ground (arith, less)
  | inr more ↦ let e : q ≡ k = ground (arith, le, more) in ground (arith, no_rest q r b k e sum)
]

-- A quotient that is at most k rounds to at most k.
pub round_div-le : (a b k : ℕ) → 0 < b → a ≤ b * k → round_div a b ≤ k
unfolding round_div
round_div-le a b k some_b h =
    round_div-at (a / b) (a % b) b k some_b (mod-lt a some_b) (div-le_of_le-mul b h)
      (omega (arith, div-add-mod a b))
