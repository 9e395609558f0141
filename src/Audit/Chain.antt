-- ===== src/Audit/Chain.antt =====
-- `verify_chain`, and what its verdict means: an independent description of a linked chain.
use apichain_backend.Base.{
  ℕ, ◌+◌, Bool, true, false, not, ◌&&◌, Option, none, some, List, [], ◌∷◌, ltb, leb, if◌then◌else◌,
}
use apichain_backend.Base.Bytes.{Bytes, bytes_eq}
use apichain_backend.Canonical.Json.{compute_data_hash}
use apichain_backend.Audit.Content.{AuditRow, genesis_prev_hash, compute_row_hash}

-- The three reasons of a refusal.
pub data Reason : Type 0 where
  linkage_broken payload_hash_mismatch row_hash_mismatch : Reason

pub record ChainVerdict : Type 0 where
  pub is_ok : Bool
  pub checked : ℕ
  pub first_divergent_id : Option ℕ
  pub reason : Option Reason

-- `ChainVerdict(True, checked, None, None)`
abbrev pub accepted : ℕ → ChainVerdict
accepted n = record { is_ok = true; checked = n; first_divergent_id = none; reason = none }

-- `ChainVerdict(False, checked, row.id, why)`
abbrev pub refused : ℕ → ℕ → Reason → ChainVerdict
refused n id why = record {
  is_ok = false;
  checked = n;
  first_divergent_id = some id;
  reason = some why;
}

-- `where(AuditLog.id >= from_id)` and `where(AuditLog.id <= to_id)`, when they are given.
abbrev pub is_within : Option ℕ → Option ℕ → AuditRow → Bool
is_within from to row =
    (elim from [ none ↦ true | some f ↦ leb f row.id ])
    && (elim to [ none ↦ true | some t ↦ leb row.id t ])

unfoldable pub select_rows : (AuditRow → Bool) → List AuditRow → List AuditRow
select_rows test [] = []
select_rows test (row ∷ rows) =
    if test row then row ∷ select_rows test rows else select_rows test rows

-- `order_by(id.desc()).limit(1)` over the row hashes, or the genesis hash over no row.
unfoldable pub tail_hash : Bytes → List AuditRow → Bytes
tail_hash before [] = before
tail_hash before (row ∷ rows) = tail_hash row.row_hash rows

module _ (keccak : Bytes → Bytes) where
  -- The first of the three tests that a row fails.
  unfoldable pub check_row : Bytes → AuditRow → Option Reason
  unfolding bytes_eq compute_data_hash compute_row_hash
  check_row expected_prev row =
      if not (bytes_eq row.prev_hash expected_prev)
      then some linkage_broken
      else if not (bytes_eq (compute_data_hash keccak row.entry.payload) row.payload_hash)
      then some payload_hash_mismatch
      else if not (
          bytes_eq (compute_row_hash keccak row.prev_hash row.entry row.payload_hash row.created_at)
            row.row_hash)
      then some row_hash_mismatch
      else none

  -- The loop of `verify_chain`.
  unfoldable pub walk : Bytes → ℕ → List AuditRow → ChainVerdict
  walk expected_prev checked [] = accepted checked
  walk expected_prev checked (row ∷ rows) = elim (check_row expected_prev row) [
    | some why ↦ refused (checked + 1) row.id why
    | none ↦ walk row.row_hash (checked + 1) rows
  ]

  -- The hash before the first row that is walked.
  unfoldable pub expected_before : Option ℕ → List AuditRow → Bytes
  unfolding select_rows tail_hash
  expected_before none rows = genesis_prev_hash
  expected_before (some f) rows =
      tail_hash genesis_prev_hash (select_rows (λ row. ltb row.id f) rows)

  unfoldable pub verify_chain : Option ℕ → Option ℕ → List AuditRow → ChainVerdict
  unfolding walk expected_before select_rows
  verify_chain from to rows =
      walk (expected_before from rows) 0 (select_rows (is_within from to) rows)
