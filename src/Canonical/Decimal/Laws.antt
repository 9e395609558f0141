-- ===== src/Canonical/Decimal/Laws.antt =====
-- `quantize`, `str` and the value of a decimal that is written with more or fewer zeros.
use native.Mathlib.Nat.{pow-suc, pow-zero, eq_of_mul-eq-mul_right, le_dest, add-zero, add-suc}
use native.Mathlib.Decide.{dec_le}
use apichain_backend.Base.{
  ℕ, zero, suc, ◌+◌, ◌*◌, ◌^◌, ◌≤◌, ◌<◌, ◌≡◌, refl, sym, ap, ap₂, ◌∙◌, arith,
}
use apichain_backend.Canonical.Decimal.{Decimal, hundredths, two_places}
use apichain_backend.Canonical.Decimal.Rounding.{round_half_even, round_half_even-mul_right}

pow_pos : (k : ℕ) → 0 < 10 ^ k
pow_pos zero = rw (pow-zero 10) (omega arith)
pow_pos (suc k) = rw (pow-suc 10 k) (omega (arith, pow_pos k))

pow-add : (m k : ℕ) → 10 ^ (m + k) ≡ 10 ^ m * 10 ^ k
pow-add m zero = rw (add-zero m, pow-zero 10) (omega arith)
pow-add m (suc k) = rw (add-suc m k, pow-suc 10 (m + k), pow-suc 10 k, pow-add m k) (omega arith)

pub round_half_even-one : (c : ℕ) → round_half_even c 1 ≡ c
unfolding round_half_even
round_half_even-one c = ground arith

-- One more zero on both the coefficient and the places.
hundredths-zero : (c p : ℕ) → hundredths (c * 10) (suc p) ≡ hundredths c p
hundredths-zero c zero = omega arith
hundredths-zero c (suc zero) = rw (pow-zero 10) (round_half_even-one (c * 10))
hundredths-zero c (suc (suc k)) =
    rw (pow-suc 10 k) (round_half_even-mul_right c (10 ^ k) 10 (omega arith))

hundredths-zeros : (c p k : ℕ) → hundredths (c * 10 ^ k) (p + k) ≡ hundredths c p
hundredths-zeros c p zero = ap₂ hundredths (rw (pow-zero 10) (omega arith)) (add-zero p)
hundredths-zeros c p (suc k) =
    ap₂ hundredths (rw (pow-suc 10 k) (omega arith)) (add-suc p k)
    ∙ hundredths-zero (c * 10 ^ k) (p + k)
    ∙ hundredths-zeros c p k

-- Two decimals with one sign and one value.
abbrev pub SameValue : Decimal → Decimal → Type 0
SameValue x y =
    (x.is_negative ≡ y.is_negative)
    × (x.coefficient * 10 ^ y.places ≡ y.coefficient * 10 ^ x.places)

hundredths_ext_le :
    (c p d q : ℕ) → p ≤ q → c * 10 ^ q ≡ d * 10 ^ p → hundredths c p ≡ hundredths d q
hundredths_ext_le c p d q h e =
    let (k, s) = le_dest h in
    let e' : c * 10 ^ k * 10 ^ p ≡ d * 10 ^ p =
      omega (
        arith,
        e,
        pow-add p k,
        ap (λ (t : ℕ). c * 10 ^ t) s,
        ap (λ (t : ℕ). c * t) (pow-add p k),
      ) in
    let same = eq_of_mul-eq-mul_right (10 ^ p) (pow_pos p) (c * 10 ^ k) d e' in
    sym (hundredths-zeros c p k) ∙ ap₂ hundredths same s

hundredths_ext : (c p d q : ℕ) → c * 10 ^ q ≡ d * 10 ^ p → hundredths c p ≡ hundredths d q
hundredths_ext c p d q e = elim (dec_le p q) [
  | yes h ↦ hundredths_ext_le c p d q h e
  | no h ↦ sym (hundredths_ext_le d q c p (omega arith) (sym e))
]

-- Two decimals of one sign and one value are rendered alike in a hashed payload, however many zeros
-- each was sent with.
pub two_places_ext : (x y : Decimal) → SameValue x y → two_places x ≡ two_places y
unfolding two_places
two_places_ext x y (s, v) =
    rw (s, hundredths_ext x.coefficient x.places y.coefficient y.places v) refl
