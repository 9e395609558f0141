-- ===== src/Verify/Match.antt =====
-- `verify_batch`: the check of each stage block, the witnessed verdict and the whole view of a batch.
-- The stage rows are what the selects of one batch find, at most one of each table.
use apichain_backend.Base.{
  ℕ, Bool, true, false, not, Option, none, some, List, [], ◌∷◌, ◌==◌, if◌then◌else◌,
}
use apichain_backend.Base.Bytes.{Bytes, bytes_eq}
use apichain_backend.Base.Result.{Result, ok, err, ◌>>=◌}
use apichain_backend.Canonical.Text.{Text, codes, hex, decimal}
use apichain_backend.Canonical.Json.{Json, obj, Fields, end, field, compute_data_hash}
use apichain_backend.Canonical.DateTime.{DateTime}
use apichain_backend.Merkle
use apichain_backend.Codex.Score.{ConformanceReport, evaluate, as_payload}
use apichain_backend.Codex.Rules.{KeyError}
use apichain_backend.Audit.Content.{AuditRow}
use apichain_backend.Audit.Chain.{select_rows}
use apichain_backend.Anchoring.Stamp.{MerkleAnchor}
use apichain_backend.Anchoring.Proofs.{
  ProofEntry, EntryStatus, entry_status, is_subject, entries_for_subject, Badge, rollup,
}
use apichain_backend.Lifecycle.Writer.{merge}
use apichain_backend.Lifecycle.Payloads.{
  CalendarDate, ApiaryRecord, BatchMetadata, HarvestRecord, ProcessRecord, LabResult,
  PackagingRecord, DistributionRecord, apiary_record, batch_metadata, harvest_record,
  process_record, lab_result, packaging_record, distribution_record,
}
use apichain_backend.Lifecycle.Routes.{CodexConformance, from_row}
use apichain_backend.Verify.Public.{
  Block, apiary, metadata, harvest, process, lab, packaging, distribution, field_policy,
  public_form, Shown, restricted,
}

-- The rows of one batch in `STAGE_MODELS` and `codex_conformance`.
pub record StageRows : Type 0 where
  pub apiary_row : Option ApiaryRecord
  pub metadata_row : Option BatchMetadata
  pub harvest_row : Option HarvestRecord
  pub process_row : Option ProcessRecord
  pub lab_row : Option LabResult
  pub packaging_row : Option PackagingRecord
  pub distribution_row : Option DistributionRecord
  pub conformance_row : Option CodexConformance

-- `AUDIT_ACTIONS`
abbrev pub audit_action : Block → Text
audit_action apiary = codes "batch.apiary_recorded"
audit_action metadata = codes "batch.metadata_recorded"
audit_action harvest = codes "batch.harvest_recorded"
audit_action process = codes "batch.process_recorded"
audit_action lab = codes "batch.lab_verified"
audit_action packaging = codes "batch.packaged"
audit_action distribution = codes "batch.distributed"

abbrev pub with_report : LabResult → Result KeyError ConformanceReport → Option Fields
with_report row (err e) = none
with_report row (ok report) =
    some (merge (lab_result row) (field (codes "conformance") (as_payload report) end))

-- `_lab_payload`: under the rule set that was recorded, and none where that is not registered.
unfoldable pub lab_payload : LabResult → Option CodexConformance → Option Fields
unfolding evaluate as_payload lab_result merge
lab_payload row none = none
lab_payload row (some conformance) =
    with_report row (evaluate (from_row row) conformance.rule_set_version)

-- What a stage table holds of the batch: nothing, or a row and the payload that can be rebuilt from it.
pub data Found : Type 0 where
  no_row : Found
  row_with : Option Fields → Found

abbrev pub found_by : {A : Type 0} → (A → Option Fields) → Option A → Found
found_by build none = no_row
found_by build (some row) = row_with (build row)

unfoldable pub found_of : (Text → Text) → StageRows → Block → Found
unfolding apiary_record batch_metadata harvest_record process_record packaging_record
    distribution_record lab_payload
found_of lower s apiary = found_by (λ row. some (apiary_record row)) s.apiary_row
found_of lower s metadata = found_by (λ row. some (batch_metadata lower row)) s.metadata_row
found_of lower s harvest = found_by (λ row. some (harvest_record row)) s.harvest_row
found_of lower s process = found_by (λ row. some (process_record row)) s.process_row
found_of lower s lab = found_by (λ row. lab_payload row s.conformance_row) s.lab_row
found_of lower s packaging = found_by (λ row. some (packaging_record row)) s.packaging_row
found_of lower s distribution = found_by (λ row. some (distribution_record row)) s.distribution_row

pub data Precision : Type 0 where
  exact reduced : Precision

pub record StageCheck : Type 0 where
  pub audit_id : Option ℕ
  pub payload : Option Fields
  pub recomputed_hash : Option Text
  pub recorded_hash : Option Text
  pub is_match : Bool
  pub anchor_status : Option EntryStatus
  pub payload_precision : Precision
  pub redacted_fields : List Text
  pub recorded_on : Option CalendarDate

-- `status_of.get(audit_id)`
abbrev pub get_status : List ProofEntry → ℕ → Option EntryStatus
get_status [] audit_id = none
get_status (e ∷ entries) audit_id =
    if e.audit_id == audit_id then some (entry_status e) else get_status entries audit_id

abbrev pub day_of : DateTime → CalendarDate
day_of t = record { year = t.year; month = t.month; day = t.day }

abbrev pub first_row : List AuditRow → Option AuditRow
first_row [] = none
first_row (row ∷ rows) = some row

abbrev pub is_empty : List Text → Bool
is_empty [] = true
is_empty (x ∷ xs) = false

-- The hexadecimal hash, unless the block is reduced.
abbrev pub shown_hash : Bool → Option Bytes → Option Text
shown_hash is_reduced none = none
shown_hash is_reduced (some h) = if is_reduced then none else some (hex h)

-- `match`: the one audit row of the stage has the recomputed hash.
abbrev pub is_same : Option Bytes → List AuditRow → Bool
is_same (some recomputed) (row ∷ []) = bytes_eq recomputed row.payload_hash
is_same _ _ = false

abbrev pub map_row : {A : Type 0} → (AuditRow → A) → Option AuditRow → Option A
map_row f none = none
map_row f (some row) = some (f row)

abbrev pub status_for : List ProofEntry → Option AuditRow → Option EntryStatus
status_for entries none = none
status_for entries (some row) = get_status entries row.id

-- `verify_batch` raises what `anchor_proof` raises, or what `Decimal` raises.
pub data Failure : Type 0 where
  proof_failed : Merkle.Error → Failure
  invalid_operation : Failure

abbrev pub shown_form : Option Shown → Option (Option Fields × List Text)
shown_form none = none
shown_form (some (fs, changed)) = some (some fs, changed)

-- `public_payload` and `redacted`; a deleted row has none of the one and the static policy's other.
abbrev pub shown_of : Block → Option Fields → Option (Option Fields × List Text)
shown_of block none = some (none, restricted (field_policy block))
shown_of block (some payload) = shown_form (public_form (field_policy block) payload)

abbrev pub hash_of : (Bytes → Bytes) → Option Fields → Option Bytes
hash_of keccak none = none
hash_of keccak (some payload) = some (compute_data_hash keccak (obj payload))

abbrev pub reached : Result Failure StageCheck → Result Failure (Option StageCheck)
reached call = call >>= λ check. ok (some check)

module _ (keccak : Bytes → Bytes) (entries : List ProofEntry) where
  abbrev pub make_check :
      Option Fields → List AuditRow → Option (Option Fields × List Text) → Result Failure StageCheck
  make_check payload audit_rows none = err invalid_operation
  make_check payload audit_rows (some (shown, redacted)) =
      let is_reduced = not (is_empty redacted) in
      let entry = first_row audit_rows in
      ok (record {
        audit_id = map_row (λ row. row.id) entry;
        payload = shown;
        recomputed_hash = shown_hash is_reduced (hash_of keccak payload);
        recorded_hash = shown_hash is_reduced (map_row (λ row. row.payload_hash) entry);
        is_match = is_same (hash_of keccak payload) audit_rows;
        anchor_status = status_for entries entry;
        payload_precision = if is_reduced then reduced else exact;
        redacted_fields = redacted;
        recorded_on = map_row (λ row. day_of row.created_at) entry;
      })

  -- One round of the loop of `verify_batch`; `none` is a stage that the batch has not reached.
  unfoldable pub check_block : Block → Found → List AuditRow → Result Failure (Option StageCheck)
  unfolding public_form compute_data_hash hex entry_status
  check_block block no_row [] = ok none
  check_block block no_row (row ∷ audit_rows) =
      reached (make_check none (row ∷ audit_rows) (shown_of block none))
  check_block block (row_with payload) audit_rows =
      reached (make_check payload audit_rows (shown_of block payload))

-- The loop over `STAGE_MODELS`.
abbrev pub stage_models : List Block
stage_models = apiary ∷ metadata ∷ harvest ∷ process ∷ lab ∷ packaging ∷ distribution ∷ []

-- `payload.get("conformance")`, when it is a dict.
abbrev pub get_object : Text → Fields → Option Fields
get_object key end = none
get_object key (field k (obj fs) rest) = if bytes_eq k key then some fs else get_object key rest
get_object key (field k v rest) = if bytes_eq k key then none else get_object key rest

abbrev pub conformance_of : Json → Option Fields
conformance_of (obj fs) = get_object (codes "conformance") fs
conformance_of _ = none

-- `_witnessed_conformance`
unfoldable pub witnessed_conformance : (Bytes → Bytes) → List AuditRow → Option Fields
unfolding compute_data_hash
witnessed_conformance keccak (row ∷ []) =
    if bytes_eq (compute_data_hash keccak row.entry.payload) row.payload_hash
    then conformance_of row.entry.payload
    else none
witnessed_conformance keccak _ = none

pub record BatchVerification : Type 0 where
  pub blocks : List (Block × Option StageCheck)
  pub conformance : Option Fields
  pub metadata_row : Option BatchMetadata
  pub anchor_status : Badge

abbrev pub is_action : Text → AuditRow → Bool
is_action action row = bytes_eq row.entry.action action

abbrev pub anchor_call : {A : Type 0} → Result Merkle.Error A → Result Failure A
anchor_call (err e) = err (proof_failed e)
anchor_call (ok value) = ok value

module _ (sha256 keccak : Bytes → Bytes) (lower : Text → Text) where
  -- `recorded.get(AUDIT_ACTIONS[name], [])`
  abbrev pub recorded : ℕ → List AuditRow → Text → List AuditRow
  recorded batch_id rows action =
      select_rows (is_action action)
        (select_rows (is_subject (codes "batch") (decimal batch_id)) rows)

  unfoldable pub verify_blocks :
      ℕ
      → StageRows
      → List AuditRow
      → List ProofEntry
      → List Block
      → Result Failure (List (Block × Option StageCheck))
  unfolding check_block found_of select_rows
  verify_blocks batch_id stages rows entries [] = ok []
  verify_blocks batch_id stages rows entries (block ∷ blocks) =
      check_block keccak entries block (found_of lower stages block)
        (recorded batch_id rows (audit_action block))
      >>= λ check. verify_blocks batch_id stages rows entries blocks >>= λ checks.
          ok ((block, check) ∷ checks)

  -- The `BatchVerification` that is returned.
  abbrev pub verification_of :
      ℕ
      → StageRows
      → List AuditRow
      → List ProofEntry
      → List (Block × Option StageCheck)
      → BatchVerification
  verification_of batch_id stages rows entries blocks = record {
    blocks = blocks;
    conformance = witnessed_conformance keccak (recorded batch_id rows (audit_action lab));
    metadata_row = stages.metadata_row;
    anchor_status = rollup entries;
  }

  unfoldable pub verify_batch :
      ℕ → StageRows → List MerkleAnchor → List AuditRow → Result Failure BatchVerification
  unfolding verify_blocks witnessed_conformance entries_for_subject rollup select_rows decimal
  verify_batch batch_id stages anchors rows =
      anchor_call (entries_for_subject sha256 anchors rows (codes "batch") (decimal batch_id))
      >>= λ entries. verify_blocks batch_id stages rows entries stage_models >>= λ blocks.
          ok (verification_of batch_id stages rows entries blocks)
