-- ===== src/Base/Result.antt =====
-- A call that returns a value or raises.
use mathlib.Core.Path.{◌≡◌, refl}
use mathlib.Core.Logic.{◌⊎◌, inl, inr}

pub data Result (E A : Type 0) : Type 0 where
  err : E → Result E A
  ok : A → Result E A

infixl 5 ◌>>=◌
abbrev pub ◌>>=◌ : {E A B : Type 0} → Result E A → (A → Result E B) → Result E B
err raised >>= next = err raised
ok value >>= next = next value

-- A sequence of two calls that raised: either one of them did.
pub >>=-eq-err :
    {E A B : Type 0} (call : Result E A) (next : A → Result E B) {raised : E}
    → (call >>= next) ≡ err raised
    → (call ≡ err raised) ⊎ ((value : A) × (call ≡ ok value) × (next value ≡ err raised))
>>=-eq-err (err e) next h = inl cc
>>=-eq-err (ok value) next h = inr (value, refl, h)

-- A sequence of two calls that returned: both did.
pub >>=-eq-ok :
    {E A B : Type 0} (call : Result E A) (next : A → Result E B) {result : B}
    → (call >>= next) ≡ ok result
    → (value : A) × (call ≡ ok value) × (next value ≡ ok result)
>>=-eq-ok (err e) next h = cc
>>=-eq-ok (ok value) next h = (value, refl, h)
