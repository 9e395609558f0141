-- ===== src/Canonical/Decimal.antt =====
-- `Decimal`, as far as the program uses it: `quantize` to two places with the default rounding, the
-- comparisons, and `str`. A value is a sign, a coefficient and a number of decimal places.
pub mod Rounding
pub mod Laws
use apichain_backend.Base.{
  ℕ, zero, suc, ◌+◌, ◌*◌, ◌/◌, ◌%◌, ◌^◌, Bool, true, false, ◌&&◌, Option, none, some, List, [], ◌∷◌,
  ◌++◌, ltb, leb, ◌==◌, if◌then◌else◌,
}
use apichain_backend.Canonical.Text.{Text, decimal, padded}
use apichain_backend.Canonical.Decimal.Rounding.{round_half_even}

pub record Decimal : Type 0 where
  pub is_negative : Bool
  pub coefficient : ℕ
  pub places : ℕ

-- The coefficient at two places.
abbrev pub hundredths : ℕ → ℕ → ℕ
hundredths c zero = c * 100
hundredths c (suc zero) = c * 10
hundredths c (suc (suc k)) = round_half_even c (10 ^ k)

-- `quantize(Decimal("0.01"))`
abbrev pub quantize : Decimal → Decimal
quantize x = record {
  is_negative = x.is_negative;
  coefficient = hundredths x.coefficient x.places;
  places = 2;
}

-- `a <= b`; the two zeros are equal.
abbrev pub signed_leb : Bool → ℕ → Bool → ℕ → Bool
signed_leb false a false b = leb a b
signed_leb false a true b = a == 0 && b == 0
signed_leb true a false b = true
signed_leb true a true b = leb b a

unfoldable pub decimal_leb : Decimal → Decimal → Bool
decimal_leb a b =
    signed_leb a.is_negative (a.coefficient * 10 ^ b.places) b.is_negative
      (b.coefficient * 10 ^ a.places)

-- `str(x.quantize(Decimal("0.01")))`
unfoldable pub two_places : Decimal → Text
unfolding decimal padded round_half_even
two_places x =
    let c = hundredths x.coefficient x.places in
    (if x.is_negative then 45 ∷ [] else []) ++ decimal (c / 100) ++ 46 ∷ padded 2 c []

-- `_q2`: absent values stay `None`.
unfoldable pub q2 : Option Decimal → Option Text
unfolding two_places
q2 none = none
q2 (some x) = some (two_places x)
