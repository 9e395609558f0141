-- ===== src/Lifecycle/Routes.antt =====
-- The five transition routes of app/routers/batches.py: the guard of the route, then `record_stage` with
-- the route's row, payload and action. `body` is the request's body as the framework dumps it.
use apichain_backend.Base.{ℕ, Bool, true, false, Option, none, some, List, ◌∷◌}
use apichain_backend.Base.Bytes.{Bytes}
use apichain_backend.Base.Result.{Result, ◌>>=◌}
use apichain_backend.Canonical.Text.{Text, codes}
use apichain_backend.Canonical.Json.{Fields, end, field}
use apichain_backend.Canonical.DateTime.{DateTime}
use apichain_backend.Codex.Rules.{kenya_v1}
use apichain_backend.Codex.Score.{
  LabMeasurements, Status, ConformanceVerdict, ParameterResult, ConformanceReport, check_all,
  verdict_of, as_payload,
}
use apichain_backend.Access.Errors.{Refusal}
use apichain_backend.Access.Roles.{
  User, Action, batch_harvest_record, batch_process_record, batch_lab_verify, batch_package,
  batch_distribute, requires,
}
use apichain_backend.Lifecycle.States.{
  BatchState, harvested, processed, lab_verified, packaged, distributed,
}
use apichain_backend.Lifecycle.Payloads.{
  HarvestRecord, ProcessRecord, LabResult, PackagingRecord, DistributionRecord, harvest_record,
  process_record, lab_result, packaging_record, distribution_record,
}
use apichain_backend.Lifecycle.Writer.{Store, StageRequest, Reply, record_stage}

-- A row of one of the five stage tables.
pub data StageData : Type 0 where
  harvest : HarvestRecord → StageData
  process : ProcessRecord → StageData
  lab : LabResult → StageData
  packaging : PackagingRecord → StageData
  distribution : DistributionRecord → StageData

-- The builder of each row's payload.
unfoldable pub stage_payload : StageData → Fields
unfolding harvest_record process_record lab_result packaging_record distribution_record
stage_payload (harvest row) = harvest_record row
stage_payload (process row) = process_record row
stage_payload (lab row) = lab_result row
stage_payload (packaging row) = packaging_record row
stage_payload (distribution row) = distribution_record row

-- A row of `codex_conformance`.
pub record CodexConformance : Type 0 where
  pub batch_id : ℕ
  pub rule_set_version : Text
  pub verdict : ConformanceVerdict
  pub passed : List (Text × Option Bool)

-- `None if p.status == "not_measured" else p.status == "pass"`
abbrev pub passed_flag : Status → Option Bool
passed_flag Status.pass = some true
passed_flag Status.fail = some false
passed_flag Status.not_measured = none

abbrev pub passed_flags : List ParameterResult → List (Text × Option Bool)
passed_flags List.[] = List.[]
passed_flags (p ∷ results) = (p.parameter, passed_flag p.status) ∷ passed_flags results

-- `LabMeasurements.from_row`
abbrev pub from_row : LabResult → LabMeasurements
from_row row = record {
  moisture_pct = row.moisture_pct;
  fructose_glucose_g_100g = row.fructose_glucose_g_100g;
  sucrose_g_100g = row.sucrose_g_100g;
  hmf_mg_kg = row.hmf_mg_kg;
  diastase_schade = row.diastase_schade;
  free_acidity_meq_kg = row.free_acidity_meq_kg;
}

-- `evaluate` under the default version, which is registered.
abbrev pub default_report : LabResult → ConformanceReport
default_report row = record {
  rule_set_version = kenya_v1.version;
  verdict = verdict_of (check_all kenya_v1.parameters (from_row row));
  parameters = check_all kenya_v1.parameters (from_row row);
}

abbrev pub conformance_row : ℕ → ConformanceReport → CodexConformance
conformance_row batch_id report = record {
  batch_id = batch_id;
  rule_set_version = report.rule_set_version;
  verdict = report.verdict;
  passed = passed_flags report.parameters;
}

abbrev pub Rest : Type 0
Rest = List CodexConformance

-- `_score_and_record_conformance`; it is passed with the lab route's rows alone.
unfoldable pub score_and_record_conformance : Rest → StageData → Rest × Fields
unfolding as_payload check_all verdict_of
score_and_record_conformance rest (lab row) = (
  conformance_row row.batch_id (default_report row) ∷ rest,
  field (codes "conformance") (as_payload (default_report row)) end,
)
score_and_record_conformance rest (harvest row) = (rest, end)
score_and_record_conformance rest (process row) = (rest, end)
score_and_record_conformance rest (packaging row) = (rest, end)
score_and_record_conformance rest (distribution row) = (rest, end)

-- What the routes share: the user row that the token names, the path, the header and the body.
pub record Call : Type 0 where
  pub found : Option User
  pub idempotency_key : Text
  pub batch_id : ℕ
  pub body : Fields
  pub ip : Option Text
  pub user_agent : Option Text
  pub now : DateTime

module _ (sha256 keccak : Bytes → Bytes) (refresh : StageData → StageData) where
  abbrev pub Answer : Type 0
  Answer = Result Refusal (Reply StageData Rest × Store StageData Rest)

  -- The keyword arguments of the routes' calls of `record_stage`.
  abbrev pub stage_request :
      BatchState
      → Text
      → (ℕ → StageData)
      → Option (Rest → StageData → Rest × Fields)
      → Call
      → User
      → StageRequest StageData Rest
  stage_request target name build_row extra call actor = record {
    actor = actor;
    idempotency_key = call.idempotency_key;
    batch_id = call.batch_id;
    target = target;
    action = name;
    body = call.body;
    build_row = build_row;
    build_payload = stage_payload;
    extra = extra;
    refresh = refresh;
    ip = call.ip;
    user_agent = call.user_agent;
    now = call.now;
  }

  unfoldable pub transition_route :
      Action
      → BatchState
      → Text
      → (ℕ → StageData)
      → Option (Rest → StageData → Rest × Fields)
      → Call
      → Store StageData Rest
      → Answer
  unfolding requires record_stage stage_payload
  transition_route required target name build_row extra call db =
      requires required call.found >>= λ actor.
      record_stage StageData Rest sha256 keccak
        (stage_request target name build_row extra call actor) db

  unfoldable pub record_harvest : HarvestRecord → Call → Store StageData Rest → Answer
  unfolding transition_route
  record_harvest body call db =
      transition_route batch_harvest_record harvested (codes "batch.harvest_recorded")
        (λ bid. harvest (record body { batch_id = bid })) none call db

  unfoldable pub record_process : ProcessRecord → Call → Store StageData Rest → Answer
  unfolding transition_route
  record_process body call db =
      transition_route batch_process_record processed (codes "batch.process_recorded")
        (λ bid. process (record body { batch_id = bid })) none call db

  unfoldable pub record_lab_result : LabResult → Call → Store StageData Rest → Answer
  unfolding transition_route score_and_record_conformance
  record_lab_result body call db =
      transition_route batch_lab_verify lab_verified (codes "batch.lab_verified")
        (λ bid. lab (record body { batch_id = bid })) (some score_and_record_conformance) call db

  unfoldable pub record_packaging : PackagingRecord → Call → Store StageData Rest → Answer
  unfolding transition_route
  record_packaging body call db =
      transition_route batch_package packaged (codes "batch.packaged")
        (λ bid. packaging (record body { batch_id = bid })) none call db

  unfoldable pub record_distribution : DistributionRecord → Call → Store StageData Rest → Answer
  unfolding transition_route
  record_distribution body call db =
      transition_route batch_distribute distributed (codes "batch.distributed")
        (λ bid. distribution (record body { batch_id = bid })) none call db
