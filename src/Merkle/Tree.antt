-- ===== src/Merkle/Tree.antt =====
-- The tree that `build_root` hashes, with its leaves kept: a description of the root that is
-- independent of the loops.
use apichain_backend.Base.{
  ℕ, zero, suc, ◌+◌, ◌/◌, ◌≤◌, ◌<◌, ◌≡◌, refl, sym, ap, ◌∙◌, List, [], ◌∷◌, ◌++◌, map, arith,
  length, length-map,
}
use mathlib.Core.List.{append-nil, append_assoc}
use apichain_backend.Base.Bytes.{Bytes}
use apichain_backend.Base.Result.{ok}
use apichain_backend.Merkle.{leaf_hash, internal, next_level, root_loop, build_root, item}
use apichain_backend.Merkle.Levels.{root_loop-next_level}

pub data Tree : Type 0 where
  leaf : Bytes → Tree
  node : Tree → Tree → Tree

-- The row hashes at the leaves, from the left.
abbrev pub row_hashes : Tree → List Bytes
row_hashes (leaf r) = r ∷ []
row_hashes (node l r) = row_hashes l ++ row_hashes r

abbrev pub forest : List Tree → List Bytes
forest [] = []
forest (t ∷ ts) = row_hashes t ++ forest ts

join_pairs : List Tree → List Tree
join_pairs [] = []
join_pairs (t ∷ []) = t ∷ []
join_pairs (t ∷ u ∷ ts) = node t u ∷ join_pairs ts

forest-join_pairs : (ts : List Tree) → forest (join_pairs ts) ≡ forest ts
unfolding join_pairs
forest-join_pairs [] = refl
forest-join_pairs (t ∷ []) = refl
forest-join_pairs (t ∷ u ∷ ts) = simp (forest-join_pairs ts, append_assoc)

length-join_pairs : (ts : List Tree) → length (join_pairs ts) ≡ (length ts + 1) / 2
unfolding join_pairs
length-join_pairs [] = omega arith
length-join_pairs (t ∷ []) = omega arith
length-join_pairs (t ∷ u ∷ ts) = omega (arith, length-join_pairs ts)

forest-leaves : (rows : List Bytes) → forest (map leaf rows) ≡ rows
forest-leaves [] = refl
forest-leaves (r ∷ rows) = ap (◌∷◌ r) (forest-leaves rows)

module _ (sha256 : Bytes → Bytes) where
  unfoldable pub digest : Tree → Bytes
  digest (leaf r) = leaf_hash sha256 r
  digest (node l r) = internal sha256 (digest l) (digest r)

  map-digest-join_pairs :
      (ts : List Tree) → map digest (join_pairs ts) ≡ next_level sha256 (map digest ts)
  unfolding join_pairs next_level digest
  map-digest-join_pairs [] = refl
  map-digest-join_pairs (t ∷ []) = refl
  map-digest-join_pairs (t ∷ u ∷ ts) =
      ap (◌∷◌ (internal sha256 (digest t) (digest u))) (map-digest-join_pairs ts)

  map-digest-leaves : (rows : List Bytes) → map digest (map leaf rows) ≡ map (leaf_hash sha256) rows
  unfolding digest
  map-digest-leaves [] = refl
  map-digest-leaves (r ∷ rows) = ap (◌∷◌ (leaf_hash sha256 r)) (map-digest-leaves rows)

  -- The loop ends at the digest of one tree over the same row hashes.
  abbrev Hashes : ℕ → List Tree → Type 0
  Hashes fuel ts =
      (t : Tree) × (root_loop sha256 fuel (map digest ts) ≡ digest t ∷ [])
      × (row_hashes t ≡ forest ts)

  root_loop-digest_up :
      (fuel : ℕ) (ts : List Tree)
      → 1 < length ts
      → Hashes fuel (join_pairs ts)
      → Hashes (suc fuel) ts
  root_loop-digest_up fuel ts h (t, e, f) = (
    t,
    root_loop-next_level sha256 fuel (map digest ts) (omega (arith, length-map digest ts))
        ∙ ap (root_loop sha256 fuel) (sym (map-digest-join_pairs ts))
        ∙ e,
    f ∙ forest-join_pairs ts,
  )

  root_loop-digest :
      (fuel : ℕ) (ts : List Tree) → length ts ≤ suc fuel → 0 < length ts → Hashes fuel ts
  unfolding root_loop
  root_loop-digest fuel [] h p = absurd (omega arith)
  root_loop-digest zero (t ∷ []) h p = (t, refl, sym (append-nil (row_hashes t)))
  root_loop-digest zero (t ∷ u ∷ ts) h p = absurd (omega arith)
  root_loop-digest (suc fuel) (t ∷ []) h p = (t, refl, sym (append-nil (row_hashes t)))
  root_loop-digest (suc fuel) (t ∷ u ∷ ts) h p =
      root_loop-digest_up fuel (t ∷ u ∷ ts) (omega arith) (
        root_loop-digest fuel (join_pairs (t ∷ u ∷ ts))
          (omega (arith, length-join_pairs (t ∷ u ∷ ts)))
          (omega (arith, length-join_pairs (t ∷ u ∷ ts))))

  -- `build_root` over the leaves of a non-empty run of row hashes is the digest of a tree whose
  -- leaves are these row hashes in this order.
  pub build_root-digest :
      (r : Bytes) (rows : List Bytes)
      → (t : Tree) × (build_root sha256 (map (leaf_hash sha256) (r ∷ rows)) ≡ ok (digest t))
        × (row_hashes t ≡ r ∷ rows)
  unfolding build_root
  build_root-digest r rows =
      let leaves = map (leaf_hash sha256) (r ∷ rows) in
      let (t, e, f) =
        root_loop-digest (length leaves) (map leaf (r ∷ rows))
          (omega (arith, length-map leaf rows, length-map (leaf_hash sha256) rows)) (omega arith) in
      (
        t,
        ap (λ level. item level 0)
            (ap (root_loop sha256 (length leaves)) (sym (map-digest-leaves (r ∷ rows))) ∙ e),
        f ∙ forest-leaves (r ∷ rows),
      )
