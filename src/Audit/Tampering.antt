-- ===== src/Audit/Tampering.antt =====
-- Tamper evidence: the newest row hash commits to the contents of every row before it.
use apichain_backend.Base.{
  ◌≡◌, refl, sym, ap, ap₂, ◌∙◌, true, ◌⊎◌, inl, inr, none, List, [], ◌∷◌, ◌++◌, map, length,
}
use apichain_backend.Base.Bytes.{Bytes, Bytes-discrete, Collision, append_inj_left}
use mathlib.Core.List.{append-nil}
use apichain_backend.Audit.Content.{AuditRow, genesis_prev_hash, content_bytes, compute_row_hash}
use apichain_backend.Audit.Chain.{tail_hash, verify_chain}
use apichain_backend.Audit.Verdict.{IsLink, Linked, verify_chain-iff-Linked}

-- The bytes of a row that its hash covers behind the previous hash.
abbrev pub recorded : AuditRow → Bytes
recorded row = content_bytes row.prev_hash row.entry row.payload_hash row.created_at

abbrev reverse_onto {ℓ} : {A : Type ℓ} → List A → List A → List A
reverse_onto [] acc = acc
reverse_onto (x ∷ xs) acc = reverse_onto xs (x ∷ acc)

reverse_onto-reverse_onto {ℓ} :
    {A : Type ℓ} (xs acc zs : List A)
    → reverse_onto (reverse_onto xs acc) zs ≡ reverse_onto acc (xs ++ zs)
reverse_onto-reverse_onto [] acc zs = refl
reverse_onto-reverse_onto (x ∷ xs) acc zs = reverse_onto-reverse_onto xs (x ∷ acc) zs

map-reverse_onto :
    (rows acc : List AuditRow)
    → map recorded (reverse_onto rows acc) ≡ reverse_onto (map recorded rows) (map recorded acc)
map-reverse_onto [] acc = refl
map-reverse_onto (row ∷ rows) acc = map-reverse_onto rows (row ∷ acc)

recorded_of_reverse :
    (xs ys : List AuditRow)
    → map recorded (reverse_onto xs []) ≡ map recorded (reverse_onto ys [])
    → map recorded xs ≡ map recorded ys
recorded_of_reverse xs ys e = forwards xs ∙ ap (λ zs. reverse_onto zs []) e ∙ sym (forwards ys)
  where
    forwards :
        (zs : List AuditRow) → map recorded zs ≡ reverse_onto (map recorded (reverse_onto zs [])) []
    forwards zs = sym (
        ap (λ w. reverse_onto w []) (map-reverse_onto zs [])
        ∙ reverse_onto-reverse_onto (map recorded zs) [] []
        ∙ append-nil (map recorded zs))

-- The newest hash of rows that are listed from the newest.
abbrev newest : List AuditRow → Bytes
newest [] = genesis_prev_hash
newest (row ∷ older) = row.row_hash

module _ (keccak : Bytes → Bytes) (length-keccak : (x : Bytes) → length (keccak x) ≡ 32) where
  -- Two inputs with one digest, or an input whose digest is the genesis hash.
  abbrev pub Broken : Type 0
  Broken = Collision keccak ⊎ ((a : Bytes) × (keccak a ≡ genesis_prev_hash))

  abbrev LinkedBack : List AuditRow → Type 0
  LinkedBack [] = Unit
  LinkedBack (row ∷ older) = IsLink keccak (newest older) row × LinkedBack older

  LinkedBack-reverse :
      (before : Bytes) (rows acc : List AuditRow)
      → newest acc ≡ before
      → Linked keccak before rows
      → LinkedBack acc
      → LinkedBack (reverse_onto rows acc)
        × (newest (reverse_onto rows acc) ≡ tail_hash before rows)
  unfolding tail_hash
  LinkedBack-reverse before [] acc e l b = (b, e)
  LinkedBack-reverse before (row ∷ rows) acc e ((p, q, r), l) b =
      LinkedBack-reverse row.row_hash rows (row ∷ acc) refl l ((p ∙ sym e, q, r), b)

  length-newest : (rows : List AuditRow) → LinkedBack rows → length (newest rows) ≡ 32
  unfolding compute_row_hash
  length-newest [] l = refl
  length-newest (row ∷ older) ((p, q, r), l) = ap length (sym r) ∙ length-keccak _

  same_history :
      (xs ys : List AuditRow)
      → LinkedBack xs
      → LinkedBack ys
      → newest xs ≡ newest ys
      → (map recorded xs ≡ map recorded ys) ⊎ Broken
  unfolding compute_row_hash
  same_history [] [] lx ly e = inl refl
  same_history [] (y ∷ ys) lx ((p, q, r), ly) e = inr (inr (_, r ∙ sym e))
  same_history (x ∷ xs) [] ((p, q, r), lx) ly e = inr (inr (_, r ∙ e))
  same_history (x ∷ xs) (y ∷ ys) ((p, q, r), lx) ((p', q', r'), ly) e =
      elim (Bytes-discrete (x.prev_hash ++ recorded x) (y.prev_hash ++ recorded y)) [
        | no differ ↦ inr (inl (_, _, differ, r ∙ e ∙ sym r'))
        | yes same ↦
            let (eh, ec) =
              append_inj_left x.prev_hash (recorded x) y.prev_hash (recorded y)
                (ap length p ∙ length-newest xs lx ∙ sym (ap length p' ∙ length-newest ys ly))
                same in
            elim (same_history xs ys lx ly (sym p ∙ eh ∙ p')) [
              | inl rest ↦ inl (ap₂ ◌∷◌ ec rest)
              | inr broken ↦ inr broken
            ]
      ]

  -- Two tables that `verify_chain` accepts and that end in one row hash hold the same hashed
  -- contents, row by row; otherwise they exhibit a collision of the hash function or a preimage of
  -- the genesis hash.
  pub verify_chain_binding :
      (rows rows' : List AuditRow)
      → (verify_chain keccak none none rows).is_ok ≡ true
      → (verify_chain keccak none none rows').is_ok ≡ true
      → tail_hash genesis_prev_hash rows ≡ tail_hash genesis_prev_hash rows'
      → (map recorded rows ≡ map recorded rows') ⊎ Broken
  verify_chain_binding rows rows' v v' e =
      let (b, h) =
        LinkedBack-reverse genesis_prev_hash rows [] refl
          ((verify_chain-iff-Linked keccak rows).0 v) tt in
      let (b', h') =
        LinkedBack-reverse genesis_prev_hash rows' [] refl
          ((verify_chain-iff-Linked keccak rows').0 v') tt in
      elim (same_history (reverse_onto rows []) (reverse_onto rows' []) b b' (h ∙ e ∙ sym h')) [
        | inl same ↦ inl (recorded_of_reverse rows rows' same)
        | inr broken ↦ inr broken
      ]
