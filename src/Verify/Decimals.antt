-- ===== src/Verify/Decimals.antt =====
-- How the numbers that the payload builders write are read as decimals.
use apichain_backend.Base.{
  ℕ, zero, suc, ◌+◌, ◌-◌, ◌*◌, ◌/◌, ◌%◌, ◌≤◌, ◌≡◌, refl, Bool, true, false, ◌&&◌, some, [], ◌∷◌,
  ◌++◌, ◌==◌, leb, ltb, arith, Bool-cases, inl, inr, if◌then◌else◌,
}
use apichain_backend.Canonical.Text.{Text, digits_onto, decimal, padded}
use apichain_backend.Canonical.Decimal.{Decimal, two_places, hundredths}
use apichain_backend.Lifecycle.Payloads.{six_places, millionths}
use apichain_backend.Verify.Public.{parse_digits, parse_unsigned, parse_decimal}

abbrev IsDigit : ℕ → Type 0
IsDigit c = (48 ≤ c) × (c ≤ 57)

abbrev AllDigits : Text → Type 0
AllDigits [] = Unit
AllDigits (c ∷ t) = IsDigit c × AllDigits t

-- Digits, and at least one of them.
abbrev Numeral : Text → Type 0
Numeral [] = ⊥
Numeral (c ∷ t) = IsDigit c × AllDigits t

AllDigits-padded : (width n : ℕ) (acc : Text) → AllDigits acc → AllDigits (padded width n acc)
unfolding padded
AllDigits-padded zero n acc h = h
AllDigits-padded (suc width) n acc h =
    AllDigits-padded width (n / 10) ((48 + n % 10) ∷ acc) ((omega arith, omega arith), h)

Numeral-digits_onto : (fuel n : ℕ) (acc : Text) → Numeral acc → Numeral (digits_onto fuel n acc)
unfolding digits_onto
Numeral-digits_onto zero n [] h = h
Numeral-digits_onto zero n (c ∷ acc) h = h
Numeral-digits_onto (suc fuel) n [] h = absurd h
Numeral-digits_onto (suc fuel) n (c ∷ acc) h = elim (Bool-cases (ltb n 10)) [
  | inl y ↦ rw y ((omega arith, small n y), h)
  | inr m ↦
      rw m (
        Numeral-digits_onto fuel (n / 10) ((48 + n % 10) ∷ c ∷ acc) ((omega arith, omega arith), h))
]
  where
    small : (k : ℕ) → ltb k 10 ≡ true → 48 + k ≤ 57
    small k e = ground arith

Numeral-decimal : (n : ℕ) → Numeral (decimal n)
unfolding decimal digits_onto
Numeral-decimal n = elim (Bool-cases (ltb n 10)) [
  | inl y ↦ rw y ((omega arith, small n y), tt)
  | inr m ↦
      rw m (Numeral-digits_onto n (n / 10) ((48 + n % 10) ∷ []) ((omega arith, omega arith), tt))
]
  where
    small : (k : ℕ) → ltb k 10 ≡ true → 48 + k ≤ 57
    small k e = ground arith

digit_test : (c : ℕ) → IsDigit c → (leb 48 c && leb c 57) ≡ true
digit_test c (l, u) = ground arith

-- What is read after digits.
abbrev Reads : Bool → Bool → Text → Type 0
Reads negative fraction t =
    (c places : ℕ) → (x : Decimal) × (parse_digits negative fraction c places t ≡ some x)

Reads-append :
    (negative fraction : Bool) (ds t : Text)
    → AllDigits ds
    → Reads negative fraction t
    → Reads negative fraction (ds ++ t)
unfolding parse_digits
Reads-append negative fraction [] t h r = r
Reads-append negative fraction (d ∷ ds) t (one, h) r = λ c places.
    let rest =
      Reads-append negative fraction ds t h r (c * 10 + (d - 48))
        (if fraction then places + 1 else places) in
    rw (digit_test d one, parse_digits) rest

Reads-all : (negative fraction : Bool) (ds : Text) → AllDigits ds → Reads negative fraction ds
unfolding parse_digits
Reads-all negative fraction [] h = λ c places. (_, refl)
Reads-all negative fraction (d ∷ ds) (one, h) = λ c places.
    let rest =
      Reads-all negative fraction ds h (c * 10 + (d - 48))
        (if fraction then places + 1 else places) in
    rw (digit_test d one, parse_digits) rest

Reads-point : (negative : Bool) (t : Text) → Reads negative true t → Reads negative false (46 ∷ t)
unfolding parse_digits
Reads-point negative t r = λ c places. r c places

unsigned_read :
    (negative : Bool) (ds t : Text)
    → Numeral ds
    → Reads negative false t
    → (x : Decimal) × (parse_unsigned negative (ds ++ t) ≡ some x)
unsigned_read negative [] t h r = absurd h
unsigned_read negative (d ∷ ds) t (one, h) r =
    rw (digit_test d one) (Reads-append negative false ds t h r (d - 48) 0)

-- A sign, digits, a point and digits.
signed_read :
    (negative : Bool) (ds fs : Text)
    → Numeral ds
    → AllDigits fs
    → (x : Decimal) × (parse_decimal ((if negative then 45 ∷ [] else []) ++ ds ++ 46 ∷ fs) ≡ some x)
unfolding parse_decimal
signed_read negative [] fs h f = absurd h
signed_read true (d ∷ ds) fs h f =
    unsigned_read true (d ∷ ds) (46 ∷ fs) h (Reads-point true fs (Reads-all true true fs f))
signed_read false (d ∷ ds) fs (one, h) f = rw (not_minus d one) (
    unsigned_read false (d ∷ ds) (46 ∷ fs) (one, h)
      (Reads-point false fs (Reads-all false true fs f)))
  where
    not_minus : (c : ℕ) → IsDigit c → (c == 45) ≡ false
    not_minus c (l, u) = ground arith

pub six_places_read : (x : Decimal) → (y : Decimal) × (parse_decimal (six_places x) ≡ some y)
unfolding six_places
six_places_read x =
    signed_read x.is_negative (decimal (millionths x.coefficient x.places / 1000000))
      (padded 6 (millionths x.coefficient x.places) [])
      (Numeral-decimal (millionths x.coefficient x.places / 1000000))
      (AllDigits-padded 6 (millionths x.coefficient x.places) [] tt)

pub two_places_read : (x : Decimal) → (y : Decimal) × (parse_decimal (two_places x) ≡ some y)
unfolding two_places
two_places_read x =
    signed_read x.is_negative (decimal (hundredths x.coefficient x.places / 100))
      (padded 2 (hundredths x.coefficient x.places) [])
      (Numeral-decimal (hundredths x.coefficient x.places / 100))
      (AllDigits-padded 2 (hundredths x.coefficient x.places) [] tt)
