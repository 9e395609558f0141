-- ===== src/Merkle/Completeness.antt =====
-- `inclusion_proof` against `build_root` and `verify_inclusion`.
use apichain_backend.Base.{
  ℕ, zero, suc, ◌+◌, ◌-◌, ◌/◌, ◌%◌, ◌≤◌, ◌<◌, ◌≡◌, refl, true, false, inl, inr, List, [], ◌∷◌, some,
  arith, ltb, ◌==◌, length, get_elem?, get_elem?_of_lt, lt_of_get_elem?, Bool-cases, ap, lt→ltb,
  ◌∙◌,
}
use apichain_backend.Base.Bytes.{Bytes, bytes_eq_refl}
use apichain_backend.Base.Result.{ok}
use apichain_backend.Merkle.{
  ProofStep, left, right, is_promoted, internal, next_level, root_loop, build_root, sibling_step,
  proof_loop, inclusion_proof, fold_path, verify_inclusion,
}
use apichain_backend.Merkle.Levels.{
  length-next_level, get_elem?-next_level_pair, get_elem?-next_level_last,
}

module _ (sha256 : Bytes → Bytes) where
  -- One round at a node with a sibling: the step that is emitted, and the parent.
  abbrev Rises : List Bytes → ℕ → Bytes → Type 0
  Rises level idx x =
      (step : ProofStep) × (parent : Bytes) × (sibling_step sha256 level idx ≡ ok step)
      × (get_elem? (next_level sha256 level) (idx / 2) ≡ some parent)
      × ((path : List ProofStep) → fold_path sha256 x (step ∷ path) ≡ fold_path sha256 parent path)

  Rises-even :
      (level : List Bytes) (idx : ℕ) {x : Bytes}
      → idx % 2 ≡ 0
      → idx + 1 < length level
      → get_elem? level idx ≡ some x
      → Rises level idx x
  unfolding sibling_step fold_path
  Rises-even level idx {x} e h p =
      let (y, q) = get_elem?_of_lt level (idx + 1) h in
      let q' : get_elem? level (suc idx) ≡ some y = ground arith in
      (
        record { sibling = y; position = right },
        internal sha256 x y,
        ground arith,
        get_elem?-next_level_pair sha256 level (idx / 2) idx (omega arith) p q',
        λ path. refl,
      )

  Rises-odd :
      (level : List Bytes) (idx : ℕ) {x : Bytes}
      → idx % 2 ≡ 1
      → get_elem? level idx ≡ some x
      → Rises level idx x
  unfolding sibling_step fold_path
  Rises-odd level idx {x} e p =
      let h : idx < length level = lt_of_get_elem? level idx p in
      let (y, q) = get_elem?_of_lt level (idx - 1) (omega arith) in
      let s : suc (idx - 1) ≡ idx = omega arith in
      let p' : get_elem? level (suc (idx - 1)) ≡ some x = rw s p in
      (
        record { sibling = y; position = left },
        internal sha256 y x,
        ground arith,
        get_elem?-next_level_pair sha256 level (idx / 2) (idx - 1) (omega arith) q p',
        λ path. refl,
      )

  rises :
      (level : List Bytes) (idx : ℕ) {x : Bytes}
      → is_promoted level idx ≡ false
      → get_elem? level idx ≡ some x
      → Rises level idx x
  rises level idx n p = elim (Bool-cases (idx % 2 == 0)) [
    | inl e ↦ Rises-even level idx (ground arith) (ground (arith, lt_of_get_elem? level idx p)) p
    | inr o ↦ Rises-odd level idx (ground arith) p
  ]

  -- What a run of the two loops from one node promises: a path, which folds to the root.
  abbrev Proves : ℕ → List Bytes → ℕ → Bytes → Type 0
  Proves fuel level idx x =
      (path : List ProofStep) × (root : Bytes) × (proof_loop sha256 fuel level idx ≡ ok path)
      × (root_loop sha256 fuel level ≡ root ∷ [])
      × (fold_path sha256 x path ≡ ok root)

  Proves-single :
      (fuel : ℕ) (level : List Bytes) (idx : ℕ) {x : Bytes}
      → length level ≤ 1
      → get_elem? level idx ≡ some x
      → Proves fuel level idx x
  unfolding proof_loop root_loop fold_path
  Proves-single fuel [] idx h p = cc
  Proves-single zero (y ∷ []) zero {x} h p = ([], x, refl, cc, refl)
  Proves-single (suc fuel) (y ∷ []) zero {x} h p = ([], x, refl, cc, refl)
  Proves-single fuel (y ∷ []) (suc idx) h p = cc
  Proves-single fuel (y ∷ z ∷ level) idx h p = absurd (omega arith)

  -- A round in which the node is promoted, and one in which it has a sibling.
  Proves-promoted :
      (fuel : ℕ) (level : List Bytes) (idx : ℕ) (x : Bytes)
      → ltb 1 (length level) ≡ true
      → is_promoted level idx ≡ true
      → Proves fuel (next_level sha256 level) (length level / 2) x
      → Proves (suc fuel) level idx x
  unfolding proof_loop root_loop
  Proves-promoted fuel level idx x many up (path, root, e, r, f) =
      (path, root, rw (many, up) e, rw (many, root_loop) r, f)

  Proves-pair :
      (fuel : ℕ) (level : List Bytes) (idx : ℕ) (x : Bytes)
      → ltb 1 (length level) ≡ true
      → is_promoted level idx ≡ false
      → (u : Rises level idx x) → Proves fuel (next_level sha256 level) (idx / 2) u.1
      → Proves (suc fuel) level idx x
  unfolding proof_loop root_loop
  Proves-pair fuel level idx x many pair (step, parent, s, q, folds) (path, root, e, r, f) =
      (step ∷ path, root, rw (many, pair, s, e) refl, rw (many, root_loop) r, folds path ∙ f)

  proves :
      (fuel : ℕ) (level : List Bytes) (idx : ℕ) {x : Bytes}
      → length level ≤ suc fuel
      → get_elem? level idx ≡ some x
      → Proves fuel level idx x
  proves zero level idx h p = Proves-single zero level idx h p
  proves (suc fuel) level idx {x} h p = elim (Bool-cases (ltb 1 (length level))) [
    | inl many ↦
        let n : length (next_level sha256 level) ≤ suc fuel =
          ground (arith, length-next_level sha256 level) in
        elim (Bool-cases (is_promoted level idx)) [
          | inl up ↦ Proves-promoted fuel level idx _ many up (
              proves fuel (next_level sha256 level) (length level / 2) n (
                get_elem?-next_level_last sha256 level (length level / 2) idx (ground arith)
                  (ground arith) p))
          | inr pair ↦
              let u = rises level idx pair p in
              Proves-pair fuel level idx _ many pair u
                (proves fuel (next_level sha256 level) (idx / 2) n u.3)
        ]
    | inr few ↦ Proves-single (suc fuel) level idx (ground arith) p
  ]

  -- For every tree and every index in range, `inclusion_proof` returns a path, `build_root` returns
  -- a root, and `verify_inclusion` accepts the leaf at that index with this path and root.
  pub inclusion_proof-verify_inclusion :
      (leaves : List Bytes) (index : ℕ) {leaf : Bytes}
      → get_elem? leaves index ≡ some leaf
      → (path : List ProofStep) × (root : Bytes) × (inclusion_proof sha256 leaves index ≡ ok path)
        × (build_root sha256 leaves ≡ ok root)
        × (verify_inclusion sha256 leaf path root ≡ ok true)
  unfolding inclusion_proof build_root verify_inclusion
  inclusion_proof-verify_inclusion [] index p = cc
  inclusion_proof-verify_inclusion (x ∷ leaves) index p =
      let h : index < length (x ∷ leaves) = lt_of_get_elem? (x ∷ leaves) index p in
      let (path, root, e, r, f) = proves (length (x ∷ leaves)) (x ∷ leaves) index (omega arith) p in
      (path, root, rw (lt→ltb _ _ h) e, rw r refl, rw f (ap ok (bytes_eq_refl root)))
