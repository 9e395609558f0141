-- ===== src/Merkle/Levels.antt =====
-- One round of the loops: which item of the next level an item of this level goes into.
use apichain_backend.Base.{
  ℕ, zero, suc, ◌+◌, ◌*◌, ◌/◌, ◌<◌, ◌≡◌, List, [], ◌∷◌, some, arith, length, get_elem?, lt→ltb,
}
use apichain_backend.Base.Bytes.{Bytes}
use apichain_backend.Merkle.{internal, next_level, root_loop}

module _ (sha256 : Bytes → Bytes) where
  pub length-next_level :
      (level : List Bytes) → length (next_level sha256 level) ≡ (length level + 1) / 2
  unfolding next_level
  length-next_level [] = omega arith
  length-next_level (x ∷ []) = omega arith
  length-next_level (x ∷ y ∷ level) = omega (arith, length-next_level level)

  -- The items at 2j and 2j + 1 are combined into item j.
  pub get_elem?-next_level_pair :
      (level : List Bytes) (j i : ℕ) {x y : Bytes}
      → i ≡ 2 * j
      → get_elem? level i ≡ some x
      → get_elem? level (suc i) ≡ some y
      → get_elem? (next_level sha256 level) j ≡ some (internal sha256 x y)
  unfolding next_level
  get_elem?-next_level_pair [] j i e p q = cc
  get_elem?-next_level_pair (a ∷ []) zero zero e p q = cc
  get_elem?-next_level_pair (a ∷ []) zero (suc i) e p q = cc
  get_elem?-next_level_pair (a ∷ []) (suc j) zero e p q = cc
  get_elem?-next_level_pair (a ∷ []) (suc j) (suc i) e p q = cc
  get_elem?-next_level_pair (a ∷ b ∷ level) zero zero e p q = cc
  get_elem?-next_level_pair (a ∷ b ∷ level) zero (suc i) e p q = absurd (omega arith)
  get_elem?-next_level_pair (a ∷ b ∷ level) (suc j) zero e p q = absurd (omega arith)
  get_elem?-next_level_pair (a ∷ b ∷ level) (suc j) (suc zero) e p q = absurd (omega arith)
  get_elem?-next_level_pair (a ∷ b ∷ level) (suc j) (suc (suc i)) e p q =
      get_elem?-next_level_pair level j i (omega arith) p q

  -- The last item of a level of 2j + 1 items is item j of the next level.
  pub get_elem?-next_level_last :
      (level : List Bytes) (j i : ℕ) {x : Bytes}
      → i ≡ 2 * j
      → length level ≡ suc i
      → get_elem? level i ≡ some x
      → get_elem? (next_level sha256 level) j ≡ some x
  unfolding next_level
  get_elem?-next_level_last [] j i e n p = cc
  get_elem?-next_level_last (a ∷ []) zero zero e n p = p
  get_elem?-next_level_last (a ∷ []) zero (suc i) e n p = absurd (omega arith)
  get_elem?-next_level_last (a ∷ []) (suc j) zero e n p = absurd (omega arith)
  get_elem?-next_level_last (a ∷ []) (suc j) (suc i) e n p = cc
  get_elem?-next_level_last (a ∷ b ∷ level) zero zero e n p = absurd (omega arith)
  get_elem?-next_level_last (a ∷ b ∷ level) zero (suc i) e n p = absurd (omega arith)
  get_elem?-next_level_last (a ∷ b ∷ level) (suc j) zero e n p = absurd (omega arith)
  get_elem?-next_level_last (a ∷ b ∷ level) (suc j) (suc zero) e n p = absurd (omega arith)
  get_elem?-next_level_last (a ∷ b ∷ level) (suc j) (suc (suc i)) e n p =
      get_elem?-next_level_last level j i (omega arith) (omega arith) p

  -- A level of two or more takes one more round.
  pub root_loop-next_level :
      (fuel : ℕ) (level : List Bytes)
      → 1 < length level
      → root_loop sha256 (suc fuel) level ≡ root_loop sha256 fuel (next_level sha256 level)
  unfolding root_loop
  root_loop-next_level fuel level h = rw (lt→ltb _ _ h, root_loop)
