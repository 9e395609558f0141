-- ===== src/Tests/VerifyRuns.antt =====
-- Runs of the three-way match: an honest batch, an edited row and a deleted one.
use apichain_backend.Base.{
  ◌≡◌, refl, Bool, true, false, Option, none, some, List, [], ◌∷◌, map, if◌then◌else◌,
}
use apichain_backend.Base.Bytes.{bytes_eq}
use apichain_backend.Base.Result.{Result, ok, err}
use apichain_backend.Canonical.Text.{Text, codes}
use apichain_backend.Canonical.Json.{Fields, obj}
use apichain_backend.Codex.Rules.{tenths}
use apichain_backend.Anchoring.Proofs.{entries_loop, entry_for, first_covering, covering_anchors}
use apichain_backend.Audit.Content.{Entry, content_bytes}
use apichain_backend.Audit.Chain.{verify_chain, check_row}
use apichain_backend.Audit.Append.{AuditTable, empty_table, append}
use apichain_backend.Lifecycle.Payloads.{ApiaryRecord, ProcessRecord, apiary_record, process_record}
use apichain_backend.Verify.Public.{Block, apiary, process}
use apichain_backend.Verify.Match.{
  StageRows, found_of, StageCheck, Failure, audit_action, recorded, BatchVerification, verify_batch,
  stage_models,
}
use apichain_backend.Verify.Blocks.{AllBlocks, block_of}
use apichain_backend.Verify.Privacy.{PublishedBlock, verify_batch-Published}
use apichain_backend.Verify.Matches.{FaithfulBlock, verify_batch-Faithful}
use apichain_backend.Tests.Data.{toy_hash, noon, created_entry}

abbrev same_text : Text → Text
same_text t = t

abbrev hives : ApiaryRecord
hives = record {
  batch_id = 1;
  apiary_id = 4;
  latitude = record { is_negative = true; coefficient = 1292066; places = 6 };
  longitude = record { is_negative = false; coefficient = 36821945; places = 6 };
  altitude = some (record { is_negative = false; coefficient = 179550; places = 2 });
  vegetation_type = some (codes "acacia");
  hive_count = some 12;
}

abbrev extraction : ProcessRecord
extraction = record {
  batch_id = 1;
  extraction_method = codes "cold";
  moisture_content = some (tenths 185);
  handling_notes = none;
}

-- The stage tables with the two rows.
abbrev stages_with : Option ApiaryRecord → Option ProcessRecord → StageRows
stages_with hive_row extraction_row = record {
  apiary_row = hive_row;
  metadata_row = none;
  harvest_row = none;
  process_row = extraction_row;
  lab_row = none;
  packaging_row = none;
  distribution_row = none;
  conformance_row = none;
}

abbrev stage_entry : Block → Fields → Entry
stage_entry block payload = record created_entry {
  action = audit_action block;
  payload = obj payload;
}

abbrev log : AuditTable
log =
    let one = append toy_hash empty_table (stage_entry apiary (apiary_record hives)) noon in
    (append toy_hash one.0 (stage_entry process (process_record extraction)) noon).0

abbrev view : StageRows → Result Failure BatchVerification
view stages = verify_batch toy_hash toy_hash same_text 1 stages [] log.rows

abbrev match_of : Block → List (Block × Option StageCheck) → Option Bool
match_of block [] = none
match_of block ((b, check) ∷ checks) =
    if bytes_eq (audit_action b) (audit_action block)
    then elim check [ none ↦ none | some c ↦ some c.is_match ]
    else match_of block checks

abbrev answer : Block → Result Failure BatchVerification → Option Bool
answer block (err e) = none
answer block (ok v) = match_of block v.blocks

honest : answer process (view (stages_with (some hives) (some extraction))) ≡ some true
unfolding verify_batch entries_loop entry_for first_covering covering_anchors append apiary_record
    process_record bytes_eq
honest = refl

edited :
    answer process (
      view (
        stages_with
          (some hives)
          (some (record extraction { moisture_content = some (tenths 170) }))))
    ≡ some false
unfolding verify_batch entries_loop entry_for first_covering covering_anchors append apiary_record
    process_record bytes_eq
edited = refl

deleted : answer process (view (stages_with (some hives) none)) ≡ some false
unfolding verify_batch entries_loop entry_for first_covering covering_anchors append apiary_record
    process_record bytes_eq
deleted = refl

abbrev both_rows : StageRows
both_rows = stages_with (some hives) (some extraction)

abbrev has_answer : Result Failure BatchVerification → Bool
has_answer (err e) = false
has_answer (ok v) = true

answer_of :
    (call : Result Failure BatchVerification)
    → has_answer call ≡ true
    → (v : BatchVerification) × (call ≡ ok v)
answer_of (err e) h = cc
answer_of (ok v) h = (v, refl)

-- The view of the honest batch.
seen : (v : BatchVerification) × (view both_rows ≡ ok v)
unfolding verify_batch entries_loop entry_for first_covering covering_anchors append apiary_record
    process_record bytes_eq
seen = answer_of (view both_rows) refl

accepted : (verify_chain toy_hash none none log.rows).is_ok ≡ true
unfolding verify_chain check_row content_bytes append apiary_record process_record bytes_eq
accepted = refl

verify_batch-Published_example :
    AllBlocks
      (λ block check.
        PublishedBlock toy_hash block
          (found_of same_text both_rows block)
          (recorded toy_hash toy_hash same_text 1 log.rows (audit_action block))
          check)
      seen.0.blocks
    × (map block_of seen.0.blocks ≡ stage_models)
verify_batch-Published_example =
    verify_batch-Published toy_hash toy_hash same_text 1 both_rows [] log.rows seen.0 seen.1

verify_batch-Faithful_example :
    AllBlocks
      (λ block check.
        FaithfulBlock toy_hash block
          (found_of same_text both_rows block)
          (recorded toy_hash toy_hash same_text 1 log.rows (audit_action block))
          check)
      seen.0.blocks
    × (map block_of seen.0.blocks ≡ stage_models)
verify_batch-Faithful_example =
    verify_batch-Faithful toy_hash toy_hash same_text 1 both_rows [] log.rows seen.0 accepted seen.1
