-- ===== src/Canonical/Text.antt =====
-- Texts as lists of code points, and the decimal and hexadecimal forms that the serializer prints.
use Prim.Native.Char.{code}
use Prim.Native.String.{String}
use apichain_backend.Base.{ℕ, zero, suc, ◌+◌, ◌/◌, ◌%◌, List, [], ◌∷◌, ltb, if◌then◌else◌}

abbrev pub Text : Type 0
Text = List ℕ

-- The code points of a literal.
abbrev pub codes : String → Text
codes String.[] = []
codes (String.◌∷◌ c s) = code c ∷ codes s

-- One hexadecimal digit, in lower case.
abbrev pub hex_digit : ℕ → ℕ
hex_digit d = if ltb d 10 then 48 + d else 87 + d

-- `bytes.hex()`
unfoldable pub hex : List ℕ → Text
hex [] = []
hex (b ∷ bs) = hex_digit (b / 16 % 16) ∷ hex_digit (b % 16) ∷ hex bs

-- `str` of a natural number: the digits of `n` before `acc`, on fuel.
unfoldable pub digits_onto : ℕ → ℕ → Text → Text
digits_onto zero n acc = acc
digits_onto (suc fuel) n acc =
    let rest = digits_onto fuel (n / 10) ((48 + n % 10) ∷ acc) in
    if ltb n 10 then (48 + n) ∷ acc else rest

-- A number has at most as many digits as its value and one more.
unfoldable pub decimal : ℕ → Text
unfolding digits_onto
decimal n = digits_onto (suc n) n []

-- `f"{n:02d}"` and its kin: the last `width` digits.
unfoldable pub padded : ℕ → ℕ → Text → Text
padded zero n acc = acc
padded (suc width) n acc = padded width (n / 10) ((48 + n % 10) ∷ acc)
