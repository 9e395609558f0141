-- ===== src/Merkle.antt =====
-- app/services/merkle.py: the sha256 tree over `audit_log` row hashes. The hash function is the
-- parameter `sha256`; bytes are numbers, and the two prefixes are the first byte of each input.
pub mod Levels
pub mod Completeness
pub mod Tree
pub mod Binding
use apichain_backend.Base.{
  ℕ, zero, suc, ◌+◌, ◌-◌, ◌/◌, ◌%◌, Bool, true, false, ◌&&◌, List, [], ◌∷◌, ◌++◌, Option, none,
  some, ltb, ◌==◌, if◌then◌else◌, length, get_elem?,
}
use apichain_backend.Base.Bytes.{Bytes, bytes_eq}
use apichain_backend.Base.Result.{Result, ok, err, ◌>>=◌}

-- `ValueError` and `IndexError`.
pub data Error : Type 0 where
  value_error index_error : Error

-- The side the sibling sits on; `unknown` is any string but "left" and "right".
pub data Position : Type 0 where
  left right unknown : Position

pub record ProofStep : Type 0 where
  pub sibling : Bytes
  pub position : Position

-- `level[i]`
abbrev pub item : List Bytes → ℕ → Result Error Bytes
item level i = elim (get_elem? level i) [ none ↦ err index_error | some x ↦ ok x ]

-- `idx ^ 1`: the other index of the pair that `idx` is in.
abbrev pub flip_last_bit : ℕ → ℕ
flip_last_bit idx = if idx % 2 == 0 then idx + 1 else idx - 1

-- `idx == len(level) - 1 and len(level) % 2`
abbrev pub is_promoted : List Bytes → ℕ → Bool
is_promoted level idx = idx == length level - 1 && length level % 2 == 1

module _ (sha256 : Bytes → Bytes) where
  unfoldable pub leaf_hash : Bytes → Bytes
  leaf_hash row_hash = sha256 (0 ∷ row_hash)

  unfoldable pub internal : Bytes → Bytes → Bytes
  internal l r = sha256 (1 ∷ l ++ r)

  -- The pairs are combined from the left, and an odd last node is promoted.
  unfoldable pub next_level : List Bytes → List Bytes
  next_level [] = []
  next_level (x ∷ []) = x ∷ []
  next_level (x ∷ y ∷ level) = internal x y ∷ next_level level

  -- `while len(level) > 1: level = _next_level(level)`
  unfoldable pub root_loop : ℕ → List Bytes → List Bytes
  root_loop zero level = level
  root_loop (suc fuel) level = elim (ltb 1 (length level)) [
    | true ↦ root_loop fuel (next_level level)
    | false ↦ level
  ]

  -- The fuel is the number of leaves: a level of two or more gets shorter.
  unfoldable pub build_root : List Bytes → Result Error Bytes
  unfolding root_loop next_level internal
  build_root [] = err value_error
  build_root (x ∷ leaves) = item (root_loop (length (x ∷ leaves)) (x ∷ leaves)) 0

  -- The sibling of `level[idx]` and the side that it sits on.
  unfoldable pub sibling_step : List Bytes → ℕ → Result Error ProofStep
  sibling_step level idx =
      let other = flip_last_bit idx in
      item level other >>= λ s.
      ok (record { sibling = s; position = if ltb other idx then left else right })

  -- The loop of `inclusion_proof`; the steps come out in the order of the `append` calls.
  unfoldable pub proof_loop : ℕ → List Bytes → ℕ → Result Error (List ProofStep)
  proof_loop zero level idx = ok []
  proof_loop (suc fuel) level idx =
      let idx' = if is_promoted level idx then length level / 2 else idx / 2 in
      let rest = proof_loop fuel (next_level level) idx' in
      if ltb 1 (length level)
      then (if is_promoted level idx
          then rest
          else sibling_step level idx >>= λ step. rest >>= λ path. ok (step ∷ path))
      else ok []

  unfoldable pub inclusion_proof : List Bytes → ℕ → Result Error (List ProofStep)
  unfolding proof_loop sibling_step next_level internal
  inclusion_proof [] index = err value_error
  inclusion_proof (x ∷ leaves) index =
      if ltb index (length (x ∷ leaves))
      then proof_loop (length (x ∷ leaves)) (x ∷ leaves) index
      else err index_error

  -- The loop of `verify_inclusion`.
  unfoldable pub fold_path : Bytes → List ProofStep → Result Error Bytes
  fold_path current [] = ok current
  fold_path current (step ∷ path) = elim step.position [
    | left ↦ fold_path (internal step.sibling current) path
    | right ↦ fold_path (internal current step.sibling) path
    | unknown ↦ err value_error
  ]

  unfoldable pub verify_inclusion : Bytes → List ProofStep → Bytes → Result Error Bool
  unfolding fold_path internal bytes_eq
  verify_inclusion leaf path root = fold_path leaf path >>= λ current. ok (bytes_eq current root)
