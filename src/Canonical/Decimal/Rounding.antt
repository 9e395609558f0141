-- ===== src/Canonical/Decimal/Rounding.antt =====
-- Rounding half to even: the nearest integers, and zeros that are appended to both numbers.
use native.Mathlib.Nat.{div-add-mod', mod-lt, mul-div-mul_right}
use apichain_backend.Base.{
  ℕ, ◌+◌, ◌*◌, ◌/◌, ◌%◌, ◌≤◌, ◌<◌, ◌≡◌, refl, sym, ap, ◌∙◌, ◌⊎◌, inl, inr, arith, ltb,
  if◌then◌else◌, Bool-cases, ltb→lt, lt→ltb, ◌==◌,
}

-- `c / d` to the nearest integer, a tie to the even one.
unfoldable pub round_half_even : ℕ → ℕ → ℕ
round_half_even c d =
    let q = c / d in
    let r = c % d in if ltb (2 * r) d then q else if ltb d (2 * r) then q + 1 else q + q % 2

parity : (n : ℕ) → (n % 2 ≡ 0) ⊎ (n % 2 ≡ 1)
parity n = elim (Bool-cases (n % 2 == 0)) [
  | inl e ↦ inl (ground arith)
  | inr e ↦ inr (ground arith)
]

-- The rounded value is within half of `d` of `c`.
pub round_half_even_bounds :
    (c d : ℕ)
    → 0 < d
    → (2 * (round_half_even c d * d) ≤ 2 * c + d) × (2 * c ≤ 2 * (round_half_even c d * d) + d)
unfolding round_half_even
round_half_even_bounds c d h = elim (Bool-cases (ltb (2 * (c % d)) d)) [
  | inl low ↦ rw low (omega (arith, ltb→lt _ _ low, div-add-mod' c d))
  | inr up ↦ elim (Bool-cases (ltb d (2 * (c % d)))) [
    | inl high ↦ rw (up, high) (omega (arith, ltb→lt _ _ high, div-add-mod' c d, mod-lt c h))
    | inr tie ↦
        let half : 2 * (c % d) ≡ d = ground arith in
        rw (up, tie)
          (elim (parity (c / d)) [
            | inl even ↦ rw even (omega (arith, half, div-add-mod' c d))
            | inr odd ↦ rw odd (omega (arith, half, div-add-mod' c d))
          ])
  ]
]

-- Zeros appended to both numbers change nothing.
mod-mul_right : (c d k : ℕ) → 0 < k → (c * k) % (d * k) ≡ c % d * k
mod-mul_right c d k h =
    let e : c / d * (d * k) + (c * k) % (d * k) ≡ c * k =
      rw (mul-div-mul_right c d h) at (div-add-mod' (c * k) (d * k)) in
    omega (arith, e, ap (λ (t : ℕ). t * k) (div-add-mod' c d))

mul_lt_mul : (a b k : ℕ) → 0 < k → a < b → a * k < b * k
mul_lt_mul a b k h lt = grind arith

mul_le_mul : (a b k : ℕ) → a ≤ b → a * k ≤ b * k
mul_le_mul a b k le = grind arith

ltb-mul_right : (a b k : ℕ) → 0 < k → ltb (a * k) (b * k) ≡ ltb a b
ltb-mul_right a b k h = elim (Bool-cases (ltb a b)) [
  | inl y ↦ lt→ltb _ _ (mul_lt_mul a b k h (ltb→lt a b y)) ∙ sym y
  | inr n ↦ let le = mul_le_mul b a k (ground arith) in ground arith
]

pub round_half_even-mul_right :
    (c d k : ℕ) → 0 < k → round_half_even (c * k) (d * k) ≡ round_half_even c d
unfolding round_half_even
round_half_even-mul_right c d k h =
    let twice : 2 * (c % d * k) ≡ 2 * (c % d) * k = omega arith in
    rw
      (
        mod-mul_right c d k h,
        mul-div-mul_right c d h,
        twice,
        ltb-mul_right (2 * (c % d)) d k h,
        ltb-mul_right d (2 * (c % d)) k h,
      )
      refl
