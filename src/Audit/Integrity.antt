-- ===== src/Audit/Integrity.antt =====
-- app/services/integrity.py: the scheduled check of the whole chain and the module's status. The clock is
-- an argument, and the log is only read.
use apichain_backend.Base.{ℕ, ◌≡◌, ◌↔◌, Bool, true, Option, none, some, List}
use apichain_backend.Base.Bytes.{Bytes}
use apichain_backend.Canonical.DateTime.{DateTime}
use apichain_backend.Audit.Content.{AuditRow, genesis_prev_hash}
use apichain_backend.Audit.Chain.{verify_chain}
use apichain_backend.Audit.Verdict.{Linked, verify_chain-iff-Linked}

pub record IntegrityStatus : Type 0 where
  pub chain_ok : Bool
  pub checked_at : Option DateTime
  pub rows_checked : ℕ
  pub first_divergent_id : Option ℕ

-- The status of a module that has checked nothing, and what `reset` leaves.
abbrev pub initial_status : IntegrityStatus
initial_status = record {
  chain_ok = true;
  checked_at = none;
  rows_checked = 0;
  first_divergent_id = none;
}

-- `check_with_session`, in which every field of the status is set.
unfoldable pub check_with_session : (Bytes → Bytes) → DateTime → List AuditRow → IntegrityStatus
unfolding verify_chain
check_with_session keccak now rows =
    let verdict = verify_chain keccak none none rows in
    record {
      chain_ok = verdict.is_ok;
      checked_at = some now;
      rows_checked = verdict.checked;
      first_divergent_id = verdict.first_divergent_id;
    }

-- The health flag is set by a check exactly when the rows form one chain from the genesis hash.
pub check_with_session-iff-Linked :
    (keccak : Bytes → Bytes) (now : DateTime) (rows : List AuditRow)
    → ((check_with_session keccak now rows).chain_ok ≡ true) ↔ Linked keccak genesis_prev_hash rows
unfolding check_with_session
check_with_session-iff-Linked keccak now rows = verify_chain-iff-Linked keccak rows
