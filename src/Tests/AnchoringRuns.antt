-- ===== src/Tests/AnchoringRuns.antt =====
-- Runs of the worker on two audit rows, and of the proofs that its anchor gives.
use apichain_backend.Base.{◌≡◌, Bool, true, Option, none, some, List, [], ◌∷◌, arith}
use apichain_backend.Base.Bytes.{Bytes}
use apichain_backend.Base.Result.{ok}
use apichain_backend.Canonical.Text.{codes}
use apichain_backend.Audit.Content.{AuditRow}
use apichain_backend.Audit.Chain.{select_rows}
use apichain_backend.Audit.Ranges.{Ascending}
use apichain_backend.Anchoring.Run.{Settings, contiguous_run}
use apichain_backend.Anchoring.Stamp.{Worker, MerkleAnchor, idle, stamp_with_session}
use apichain_backend.Anchoring.RunLaws.{TakesRun, contiguous_run-TakesRun}
use apichain_backend.Anchoring.Coverage.{Covered, stamp_with_session-Covered}
use apichain_backend.Anchoring.Proofs.{ProofEntry, entries_for_subject, is_subject}
use apichain_backend.Anchoring.ProofLaws.{AllProved, entries_for_subject-AllProved}
use apichain_backend.Tests.Data.{toy_hash, evening, audit_row}

-- Row 4 is beyond a gap.
abbrev rows : List AuditRow
rows = audit_row 1 5 ∷ audit_row 2 6 ∷ audit_row 4 7 ∷ []

rows_ascend : Ascending 0 rows
rows_ascend = (omega arith, (omega arith, (omega arith, tt)))

abbrev settings : Settings
settings = record { anchor_max_rows = 10; anchor_interval_seconds = 600 }

abbrev calendars : Bytes → Option Bytes
calendars root = some (0 ∷ root)

abbrev fresh_worker : Worker
fresh_worker = record {
  anchors = [];
  next_anchor_id = 1;
  status = record {
    anchor_ok = true;
    last_run_at = none;
    last_anchor_id = none;
    waiting_on_audit_id = none;
    last_error = Bool.false;
    last_outcome = idle;
  };
}

first_tick :
    Covered toy_hash calendars settings evening rows fresh_worker
      (stamp_with_session toy_hash calendars settings evening rows true fresh_worker)
first_tick =
    stamp_with_session-Covered toy_hash calendars settings evening rows true fresh_worker
      (omega arith) rows_ascend tt

stamp_with_session-Covered_example :
    Covered toy_hash calendars settings evening rows fresh_worker
      (stamp_with_session toy_hash calendars settings evening rows true fresh_worker)
stamp_with_session-Covered_example =
    stamp_with_session-Covered toy_hash calendars settings evening rows true fresh_worker
      (omega arith) rows_ascend tt

-- The anchors after the tick.
abbrev anchors : List MerkleAnchor
anchors = first_tick.0.anchors

entries_for_subject-AllProved_example :
    (entries : List ProofEntry) × (entries_for_subject toy_hash anchors rows
        (codes "batch")
        (codes "1")
      ≡ ok entries)
    × AllProved toy_hash anchors rows
        (select_rows (is_subject (codes "batch") (codes "1")) rows)
        entries
entries_for_subject-AllProved_example =
    entries_for_subject-AllProved toy_hash anchors rows (codes "batch") (codes "1") rows_ascend
      first_tick.4

gap_at_five : TakesRun 3 10 (3 ∷ 4 ∷ 6 ∷ []) (contiguous_run (3 ∷ 4 ∷ 6 ∷ []) 3 10)
gap_at_five = contiguous_run-TakesRun (3 ∷ 4 ∷ 6 ∷ []) 3 10 (omega arith)
