-- ===== src/Audit/Verdict.antt =====
-- What a verdict of `verify_chain` means, against a description of a linked chain that does not
-- mention the loop.
use apichain_backend.Base.{
  ℕ, ◌+◌, ◌≡◌, refl, ap, ◌∙◌, true, false, ◌↔◌, inl, inr, none, List, [], ◌∷◌, arith, length,
  Option-cases,
}
use apichain_backend.Base.Bytes.{Bytes, eq_of_bytes_eq, bytes_eq_refl}
use apichain_backend.Canonical.Json.{compute_data_hash}
use apichain_backend.Audit.Content.{AuditRow, genesis_prev_hash, compute_row_hash}
use apichain_backend.Audit.Chain.{accepted, is_within, select_rows, check_row, walk, verify_chain}

-- With no bounds every row is selected.
pub select_rows_all : (rows : List AuditRow) → select_rows (is_within none none) rows ≡ rows
unfolding select_rows
select_rows_all [] = refl
select_rows_all (row ∷ rows) = ap (◌∷◌ row) (select_rows_all rows)

module _ (keccak : Bytes → Bytes) where
  -- A row that links to the hash before it and whose two hashes are those of its contents.
  abbrev pub IsLink : Bytes → AuditRow → Type 0
  IsLink before row =
      (row.prev_hash ≡ before)
      × (compute_data_hash keccak row.entry.payload ≡ row.payload_hash)
      × (compute_row_hash keccak row.prev_hash row.entry row.payload_hash row.created_at
          ≡ row.row_hash)

  abbrev pub Linked : Bytes → List AuditRow → Type 0
  Linked before [] = Unit
  Linked before (row ∷ rows) = IsLink before row × Linked row.row_hash rows

  pub IsLink-of_check_row :
      (before : Bytes) (row : AuditRow) → check_row keccak before row ≡ none → IsLink before row
  unfolding check_row
  IsLink-of_check_row before row h = ground (
    arith,
    eq_of_bytes_eq row.prev_hash before,
    eq_of_bytes_eq (compute_data_hash keccak row.entry.payload) row.payload_hash,
    eq_of_bytes_eq (compute_row_hash keccak row.prev_hash row.entry row.payload_hash row.created_at)
        row.row_hash,
  )

  pub check_row_of_IsLink :
      (before : Bytes) (row : AuditRow) → IsLink before row → check_row keccak before row ≡ none
  unfolding check_row
  check_row_of_IsLink before row (p, q, r) =
      rw (p, q, bytes_eq_refl before, bytes_eq_refl row.payload_hash)
        (ground (arith, bytes_eq_refl row.row_hash))

  walk-Linked :
      (before : Bytes) (n : ℕ) (rows : List AuditRow)
      → (walk keccak before n rows).is_ok ≡ true
      → Linked before rows
  unfolding walk
  walk-Linked before n [] h = tt
  walk-Linked before n (row ∷ rows) h = elim (Option-cases (check_row keccak before row)) [
    | inl e ↦ (
      IsLink-of_check_row before row e,
      walk-Linked row.row_hash (n + 1) rows (rw (e, walk) at h),
    )
    | inr (why, e) ↦ absurd (let f : false ≡ true = rw (e, walk) at h in cc)
  ]

  -- Over a linked chain the loop counts every row and reports no divergence.
  pub walk_of_Linked :
      (before : Bytes) (n : ℕ) (rows : List AuditRow)
      → Linked before rows
      → walk keccak before n rows ≡ accepted (n + length rows)
  unfolding walk
  walk_of_Linked before n [] h = ground arith
  walk_of_Linked before n (row ∷ rows) (link, rest) =
      rw (check_row_of_IsLink before row link, walk)
        (walk_of_Linked row.row_hash (n + 1) rows rest ∙ ap accepted (omega arith))

  -- `verify_chain` over the whole table answers ok exactly when the rows form one chain from the
  -- genesis hash in which every payload hash and every row hash is that of the row's contents.
  pub verify_chain-iff-Linked :
      (rows : List AuditRow)
      → ((verify_chain keccak none none rows).is_ok ≡ true) ↔ Linked genesis_prev_hash rows
  unfolding verify_chain
  verify_chain-iff-Linked rows = (
    λ h. walk-Linked genesis_prev_hash 0 rows (rw (select_rows_all rows) at h),
    λ h. rw (select_rows_all rows) (rw (walk_of_Linked genesis_prev_hash 0 rows h) refl),
  )
