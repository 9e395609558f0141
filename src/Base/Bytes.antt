-- ===== src/Base/Bytes.antt =====
-- Byte strings as lists of numbers, and the equations by which a concatenation is taken apart.
use Prim.Native.Nat.{ℕ}
use mathlib.Core.Path.{◌≡◌, refl, ap, ap₂}
use mathlib.Core.Bool.{Bool, true, false, ◌&&◌}
use mathlib.Core.List.{List, [], ◌∷◌, ◌++◌}
use native.Mathlib.Omega.{arith}
use native.Mathlib.Decide.{ℕ_discrete}
use apichain_backend.Base.Tests.{◌==◌}
use apichain_backend.Base.Lists.{length, length-append}

abbrev pub Bytes : Type 0
Bytes = List ℕ

pub Bytes-discrete : Discrete Bytes
Bytes-discrete = hlevel ℕ_discrete

-- Two distinct inputs with one digest.
abbrev pub Collision : (Bytes → Bytes) → Type 0
Collision h = (a : Bytes) × (b : Bytes) × ¬ (a ≡ b) × (h a ≡ h b)

pub head-eq : {x y : ℕ} {xs ys : Bytes} → x ∷ xs ≡ y ∷ ys → x ≡ y
head-eq e = cc

pub tail-eq : {x y : ℕ} {xs ys : Bytes} → x ∷ xs ≡ y ∷ ys → xs ≡ ys
tail-eq e = cc

-- Concatenations whose first parts have one length agree part by part.
pub append_inj_left : (a b c d : Bytes) → length a ≡ length c → a ++ b ≡ c ++ d → (a ≡ c) × (b ≡ d)
append_inj_left [] b [] d n e = (refl, e)
append_inj_left [] b (y ∷ c) d n e = absurd (omega arith)
append_inj_left (x ∷ a) b [] d n e = absurd (omega arith)
append_inj_left (x ∷ a) b (y ∷ c) d n e =
    let (p, q) = append_inj_left a b c d (omega arith) (tail-eq e) in (ap₂ ◌∷◌ (head-eq e) p, q)

-- So do those whose last parts have one length.
pub append_inj_right : (a b c d : Bytes) → length b ≡ length d → a ++ b ≡ c ++ d → (a ≡ c) × (b ≡ d)
append_inj_right a b c d n e =
    append_inj_left a b c d (omega (arith, length-append a b, length-append c d, ap length e)) e

-- `a == b` on `bytes`.
unfoldable pub bytes_eq : Bytes → Bytes → Bool
bytes_eq [] [] = true
bytes_eq [] (y ∷ ys) = false
bytes_eq (x ∷ xs) [] = false
bytes_eq (x ∷ xs) (y ∷ ys) = x == y && bytes_eq xs ys

pub eq_of_bytes_eq : (a b : Bytes) → bytes_eq a b ≡ true → a ≡ b
unfolding bytes_eq
eq_of_bytes_eq [] [] e = refl
eq_of_bytes_eq [] (y ∷ ys) e = cc
eq_of_bytes_eq (x ∷ xs) [] e = cc
eq_of_bytes_eq (x ∷ xs) (y ∷ ys) e = ground (arith, eq_of_bytes_eq xs ys)

pub bytes_eq_refl : (a : Bytes) → bytes_eq a a ≡ true
unfolding bytes_eq
bytes_eq_refl [] = refl
bytes_eq_refl (x ∷ xs) = ground (arith, bytes_eq_refl xs)
