-- ===== src/Base/Lists.antt =====
-- Lists measured and indexed by the native numbers, under the library's names.
use Prim.Native.Nat.{ℕ, zero, suc, ◌+◌, ◌<◌}
use mathlib.Core.Path.{◌≡◌, refl, ap}
use mathlib.Core.Logic.{◌⊎◌, inl, inr}
use mathlib.Core.List.{List, [], ◌∷◌, ◌++◌, map}
use mathlib.Core.Option.{Option, none, some}
use native.Mathlib.Omega.{arith}

module _ {ℓ} {A : Type ℓ} where
  abbrev pub length : List A → ℕ
  length [] = 0
  length (x ∷ xs) = suc (length xs)

  abbrev pub get_elem? : List A → ℕ → Option A
  get_elem? [] i = none
  get_elem? (x ∷ xs) zero = some x
  get_elem? (x ∷ xs) (suc i) = get_elem? xs i

  abbrev pub take : ℕ → List A → List A
  take zero xs = []
  take (suc n) [] = []
  take (suc n) (x ∷ xs) = x ∷ take n xs

  pub length-append : (xs ys : List A) → length (xs ++ ys) ≡ length xs + length ys
  length-append [] ys = omega arith
  length-append (x ∷ xs) ys = omega (arith, length-append xs ys)

  -- What is taken is a prefix.
  pub take_split : (n : ℕ) (xs : List A) → (rest : List A) × (xs ≡ take n xs ++ rest)
  take_split zero xs = (xs, refl)
  take_split (suc n) [] = ([], refl)
  take_split (suc n) (x ∷ xs) = let (rest, e) = take_split n xs in (rest, ap (◌∷◌ x) e)

  -- Every index below the length holds an item, and no other does.
  pub get_elem?_of_lt : (xs : List A) (i : ℕ) → i < length xs → (x : A) × (get_elem? xs i ≡ some x)
  get_elem?_of_lt [] i h = elim h [ ]
  get_elem?_of_lt (x ∷ xs) zero h = (x, refl)
  get_elem?_of_lt (x ∷ xs) (suc i) h = get_elem?_of_lt xs i (omega arith)

  pub lt_of_get_elem? : (xs : List A) (i : ℕ) {x : A} → get_elem? xs i ≡ some x → i < length xs
  lt_of_get_elem? [] i e = cc
  lt_of_get_elem? (x ∷ xs) zero e = omega arith
  lt_of_get_elem? (x ∷ xs) (suc i) e = omega (arith, lt_of_get_elem? xs i e)

module _ {ℓ κ} {A : Type ℓ} {B : Type κ} (f : A → B) where
  pub length-map : (xs : List A) → length (map f xs) ≡ length xs
  length-map [] = refl
  length-map (x ∷ xs) = ap suc (length-map xs)

  pub get_elem?-map :
      (xs : List A) (i : ℕ) {x : A} → get_elem? xs i ≡ some x → get_elem? (map f xs) i ≡ some (f x)
  get_elem?-map [] i e = cc
  get_elem?-map (y ∷ xs) zero e = cc
  get_elem?-map (y ∷ xs) (suc i) e = get_elem?-map xs i e

-- A predicate on every item, and membership, by recursion: the tactics compute with both.
abbrev pub All {ℓ} : {A : Type ℓ} → (A → Type 0) → List A → Type 0
All P [] = Unit
All P (x ∷ xs) = P x × All P xs

abbrev pub Member : {A : Type 0} → A → List A → Type 0
Member a [] = ⊥
Member a (x ∷ xs) = (a ≡ x) ⊎ Member a xs

pub Member-of_get_elem? :
    {A : Type 0} (xs : List A) (i : ℕ) {x : A} → get_elem? xs i ≡ some x → Member x xs
Member-of_get_elem? [] i e = cc
Member-of_get_elem? (y ∷ xs) zero e = inl (cc)
Member-of_get_elem? (y ∷ xs) (suc i) e = inr (Member-of_get_elem? xs i e)

pub Member-append_left : {A : Type 0} (x : A) (xs ys : List A) → Member x xs → Member x (xs ++ ys)
Member-append_left x [] ys h = absurd h
Member-append_left x (y ∷ xs) ys (inl e) = inl e
Member-append_left x (y ∷ xs) ys (inr h) = inr (Member-append_left x xs ys h)

pub Member-append_right : {A : Type 0} (x : A) (xs ys : List A) → Member x ys → Member x (xs ++ ys)
Member-append_right x [] ys h = h
Member-append_right x (y ∷ xs) ys h = inr (Member-append_right x xs ys h)
