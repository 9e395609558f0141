-- ===== src/Merkle/Binding.antt =====
-- What a root and an accepted path say of the row hashes below the root, for a hash function whose
-- digests have one length.
use mathlib.Core.Path.{subst}
use apichain_backend.Base.{
  ℕ, ◌≡◌, refl, sym, ap, ap₂, ◌∙◌, true, ◌⊎◌, inl, inr, List, [], ◌∷◌, ◌++◌, map, arith, length,
  Member, Member-append_left, Member-append_right,
}
use apichain_backend.Base.Bytes.{
  Bytes, Bytes-discrete, Collision, head-eq, tail-eq, append_inj_left, append_inj_right, bytes_eq,
  eq_of_bytes_eq,
}
use apichain_backend.Base.Result.{ok, err, >>=-eq-ok}
use apichain_backend.Merkle.{
  value_error, Position, left, right, unknown, ProofStep, leaf_hash, internal, build_root,
  fold_path, verify_inclusion,
}
use apichain_backend.Merkle.Tree.{Tree, leaf, node, row_hashes, digest, build_root-digest}

module _ (sha256 : Bytes → Bytes) (length-sha256 : (x : Bytes) → length (sha256 x) ≡ 32) where
  same_input : (a b : Bytes) → sha256 a ≡ sha256 b → (a ≡ b) ⊎ Collision sha256
  same_input a b e = elim (Bytes-discrete a b) [ yes p ↦ inl p | no n ↦ inr (a, b, n, e) ]

  length-digest : (t : Tree) → length (digest sha256 t) ≡ 32
  unfolding digest leaf_hash internal
  length-digest (leaf r) = length-sha256 (0 ∷ r)
  length-digest (node l r) = length-sha256 (1 ∷ digest sha256 l ++ digest sha256 r)

  -- Trees with one digest are equal, unless a collision is at hand.
  digest_inj : (t u : Tree) → digest sha256 t ≡ digest sha256 u → (t ≡ u) ⊎ Collision sha256
  unfolding digest leaf_hash internal
  digest_inj (leaf r) (leaf s) e = elim (same_input (0 ∷ r) (0 ∷ s) e) [
    | inl p ↦ inl (ap leaf (tail-eq p))
    | inr c ↦ inr c
  ]
  digest_inj (leaf r) (node u v) e =
      elim (same_input (0 ∷ r) (1 ∷ digest sha256 u ++ digest sha256 v) e) [
        | inl p ↦ absurd (let h : ◌≡◌ {A = ℕ} 0 1 = head-eq p in omega arith)
        | inr c ↦ inr c
      ]
  digest_inj (node t s) (leaf r) e =
      elim (same_input (1 ∷ digest sha256 t ++ digest sha256 s) (0 ∷ r) e) [
        | inl p ↦ absurd (let h : ◌≡◌ {A = ℕ} 1 0 = head-eq p in omega arith)
        | inr c ↦ inr c
      ]
  digest_inj (node t s) (node u v) e =
      elim (same_input (1 ∷ digest sha256 t ++ digest sha256 s)
        (1 ∷ digest sha256 u ++ digest sha256 v) e) [
          | inr c ↦ inr c
          | inl p ↦
              let (el, er) =
                append_inj_left (digest sha256 t) (digest sha256 s) (digest sha256 u)
                  (digest sha256 v) (length-digest t ∙ sym (length-digest u)) (tail-eq p) in
              both (digest_inj t u el) (digest_inj s v er)
        ]
    where
      both :
          (t ≡ u) ⊎ Collision sha256
          → (s ≡ v) ⊎ Collision sha256
          → (node t s ≡ node u v) ⊎ Collision sha256
      both (inl p) (inl q) = inl (ap₂ node p q)
      both (inl p) (inr c) = inr c
      both (inr c) _ = inr c

  -- The root commits to the row hashes, their order and their number: two runs of row hashes with
  -- one root are equal, or they exhibit a collision of the hash function.
  pub build_root_binding :
      (rows rows' : List Bytes) (root : Bytes)
      → build_root sha256 (map (leaf_hash sha256) rows) ≡ ok root
      → build_root sha256 (map (leaf_hash sha256) rows') ≡ ok root
      → (rows ≡ rows') ⊎ Collision sha256
  unfolding build_root
  build_root_binding [] rows' root e e' = cc
  build_root_binding (r ∷ rows) [] root e e' = cc
  build_root_binding (r ∷ rows) (s ∷ rows') root e e' =
      let (t, p, q) = build_root-digest sha256 r rows in
      let (u, p', q') = build_root-digest sha256 s rows' in
      let d : digest sha256 t ≡ digest sha256 u = cc in
      elim (digest_inj t u d) [ inl same ↦ inl (sym q ∙ ap row_hashes same ∙ q') | inr c ↦ inr c ]

  -- A node of the tree with the digest `c`.
  abbrev Below : Bytes → Tree → Type 0
  Below c t =
      (u : Tree) × (c ≡ digest sha256 u)
      × ((r : Bytes) → Member r (row_hashes u) → Member r (row_hashes t))

  right_child :
      (s c : Bytes) (t : Tree)
      → length c ≡ 32
      → internal sha256 s c ≡ digest sha256 t
      → Below c t ⊎ Collision sha256
  unfolding digest leaf_hash internal
  right_child s c (leaf r) n e = elim (same_input (1 ∷ s ++ c) (0 ∷ r) e) [
    | inl p ↦ absurd (let h : ◌≡◌ {A = ℕ} 1 0 = head-eq p in omega arith)
    | inr x ↦ inr x
  ]
  right_child s c (node u v) n e =
      elim (same_input (1 ∷ s ++ c) (1 ∷ digest sha256 u ++ digest sha256 v) e) [
        | inl p ↦ inl (
          v,
          (append_inj_right s c (digest sha256 u) (digest sha256 v) (n ∙ sym (length-digest v))
              (tail-eq p)).1,
          λ r. Member-append_right r (row_hashes u) (row_hashes v),
        )
        | inr x ↦ inr x
      ]

  left_child :
      (c s : Bytes) (t : Tree)
      → length c ≡ 32
      → internal sha256 c s ≡ digest sha256 t
      → Below c t ⊎ Collision sha256
  unfolding digest leaf_hash internal
  left_child c s (leaf r) n e = elim (same_input (1 ∷ c ++ s) (0 ∷ r) e) [
    | inl p ↦ absurd (let h : ◌≡◌ {A = ℕ} 1 0 = head-eq p in omega arith)
    | inr x ↦ inr x
  ]
  left_child c s (node u v) n e =
      elim (same_input (1 ∷ c ++ s) (1 ∷ digest sha256 u ++ digest sha256 v) e) [
        | inl p ↦ inl (
          u,
          (append_inj_left c s (digest sha256 u) (digest sha256 v) (n ∙ sym (length-digest u))
              (tail-eq p)).0,
          λ r. Member-append_left r (row_hashes u) (row_hashes v),
        )
        | inr x ↦ inr x
      ]

  -- The path is followed from the root down: what folds to a node's digest is the digest of a node
  -- below it.
  down :
      (child parent : Bytes) (t : Tree)
      → ((u : Tree) → parent ≡ digest sha256 u → Below child u ⊎ Collision sha256)
      → Below parent t ⊎ Collision sha256
      → Below child t ⊎ Collision sha256
  down child parent t step (inr x) = inr x
  down child parent t step (inl (u, e, sub)) = elim (step u e) [
    | inl (v, e', sub') ↦ inl (v, e', λ r m. sub r (sub' r m))
    | inr x ↦ inr x
  ]

  fold_path-Below :
      (path : List ProofStep) (c : Bytes) (t : Tree)
      → length c ≡ 32
      → fold_path sha256 c path ≡ ok (digest sha256 t)
      → Below c t ⊎ Collision sha256
  unfolding fold_path internal
  fold_path-Below [] c t n e = inl (t, (cc), λ r m. m)
  fold_path-Below (step ∷ path) c t n e =
      by_side step.position refl
        (fold_path-Below path (internal sha256 step.sibling c) t (length-sha256 _))
        (fold_path-Below path (internal sha256 c step.sibling) t (length-sha256 _))
    where
      by_side :
          (p : Position)
          → step.position ≡ p
          → (fold_path sha256 (internal sha256 step.sibling c) path ≡ ok (digest sha256 t)
              → Below (internal sha256 step.sibling c) t ⊎ Collision sha256)
          → (fold_path sha256 (internal sha256 c step.sibling) path ≡ ok (digest sha256 t)
              → Below (internal sha256 c step.sibling) t ⊎ Collision sha256)
          → Below c t ⊎ Collision sha256
      by_side left q up_left up_right =
          down c (internal sha256 step.sibling c) t (λ u e'. right_child step.sibling c u n e')
            (up_left (rw (q, fold_path) at e))
      by_side right q up_left up_right =
          down c (internal sha256 c step.sibling) t (λ u e'. left_child c step.sibling u n e')
            (up_right (rw (q, fold_path) at e))
      by_side unknown q up_left up_right =
          absurd (let h : err value_error ≡ ok (digest sha256 t) = rw (q, fold_path) at e in cc)

  -- A row hash whose leaf is accepted with some path under the root of a run of row hashes is one
  -- of the run, or a collision of the hash function is exhibited. The path may be any path.
  pub verify_inclusion_sound :
      (rows : List Bytes) (row_hash root : Bytes) (path : List ProofStep)
      → build_root sha256 (map (leaf_hash sha256) rows) ≡ ok root
      → verify_inclusion sha256 (leaf_hash sha256 row_hash) path root ≡ ok true
      → Member row_hash rows ⊎ Collision sha256
  unfolding build_root verify_inclusion leaf_hash digest
  verify_inclusion_sound [] row_hash root path b v = cc
  verify_inclusion_sound (r ∷ rows) row_hash root path b v =
      let (t, p, q) = build_root-digest sha256 r rows in
      let d : digest sha256 t ≡ root = cc in
      let (top, f, same) =
        >>=-eq-ok (fold_path sha256 (leaf_hash sha256 row_hash) path)
          (λ current. ok (bytes_eq current root)) v in
      let e : top ≡ root = eq_of_bytes_eq top root (cc) in
      elim (fold_path-Below path (leaf_hash sha256 row_hash) t (length-sha256 _)
        (f ∙ ap ok (e ∙ sym d))) [
          | inr x ↦ inr x
          | inl (u, h, sub) ↦ elim (digest_inj (leaf row_hash) u h) [
            | inr x ↦ inr x
            | inl same_tree ↦ inl (
                subst (Member row_hash) q
                  (sub row_hash (subst (λ w. Member row_hash (row_hashes w)) same_tree (inl refl))))
          ]
        ]
