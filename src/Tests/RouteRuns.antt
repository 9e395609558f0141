-- ===== src/Tests/RouteRuns.antt =====
-- Runs of the transition routes.
use apichain_backend.Base.{ℕ, ◌≡◌, refl, true, false, none, some, List, [], ◌∷◌}
use apichain_backend.Base.Result.{ok, err}
use apichain_backend.Canonical.Text.{codes}
use apichain_backend.Canonical.Json.{end, nil}
use apichain_backend.Codex.Rules.{kenya_v1, tenths}
use apichain_backend.Codex.Score.{ConformanceReport, evaluate}
use apichain_backend.Audit.Append.{empty_table}
use apichain_backend.Access.Errors.{forbidden}
use apichain_backend.Access.Roles.{Role, farmer, lab_officer, User, requires, action_roles}
use apichain_backend.Access.Ownership.{farmer_profile_id, assert_acts_for_farmer}
use apichain_backend.Lifecycle.States.{
  BatchState, created, processed, next_state, assert_transition,
}
use apichain_backend.Lifecycle.Idempotency.{
  Response, IdempotencyKey, reservation, fingerprint_of, begin, find_row,
}
use apichain_backend.Lifecycle.Payloads.{
  HarvestRecord, ProcessRecord, LabResult, PackagingRecord, DistributionRecord,
}
use apichain_backend.Lifecycle.Writer.{
  HoneyBatch, find_batch, has_stage, Store, Reply, recorded, replayed, advance, record_stage, admit,
}
use apichain_backend.Lifecycle.Routes.{
  StageData, harvest, lab, from_row, conformance_row, score_and_record_conformance, Rest, Call,
  record_harvest, record_process, record_lab_result, record_packaging, record_distribution,
  transition_route, stage_request,
}
use apichain_backend.Lifecycle.RouteLaws.{
  later_stages_forbidden, record_harvest_owned, record_lab_result_scored,
}
use apichain_backend.Tests.Data.{toy_hash, noon, evening}

abbrev user_of : ℕ → Role → User
user_of id role = record { id = id; role = role; is_active = true; must_change_password = false }

abbrev batch_in : BatchState → HoneyBatch
batch_in state = record {
  id = 1;
  batch_code = codes "B-1";
  farmer_id = 9;
  state = state;
  state_updated_at = noon;
}

abbrev store_in : BatchState → Store StageData Rest
store_in state = record {
  farmers = record { id = 9; user_id = some 3 } ∷ [];
  batches = batch_in state ∷ [];
  stages = [];
  keys = [];
  audit = empty_table;
  rest = [];
}

abbrev call_of : User → Call
call_of user = record {
  found = some user;
  idempotency_key = codes "k1";
  batch_id = 1;
  body = end;
  ip = none;
  user_agent = none;
  now = evening;
}

abbrev same_row : StageData → StageData
same_row row = row

abbrev harvest_body : HarvestRecord
harvest_body = record {
  batch_id = 0;
  harvest_date = noon;
  quantity_kg = tenths 425;
  hive_ids = nil;
  gps_lat = none;
  gps_lon = none;
  notes = none;
}

abbrev process_body : ProcessRecord
process_body = record {
  batch_id = 0;
  extraction_method = codes "centrifuge";
  moisture_content = none;
  handling_notes = none;
}

abbrev lab_body : LabResult
lab_body = record {
  batch_id = 1;
  moisture_pct = some (tenths 192);
  fructose_glucose_g_100g = none;
  sucrose_g_100g = none;
  hmf_mg_kg = some (tenths 900);
  diastase_schade = none;
  free_acidity_meq_kg = none;
  pollen_density = none;
  laboratory_name = none;
  analyst_name = none;
  certificate_number = none;
  notes = none;
  tested_at = none;
}

abbrev packaging_body : PackagingRecord
packaging_body = record { batch_id = 0; unit_count = 12; jar_ids = nil; notes = none }

abbrev distribution_body : DistributionRecord
distribution_body = record {
  batch_id = 0;
  retailer_name = codes "Soko";
  transport_reference = none;
  handover_notes = none;
}

later_stages_forbidden_example :
    (record_process toy_hash toy_hash same_row process_body
        (call_of (user_of 3 farmer))
        (store_in processed)
      ≡ err forbidden)
    × (record_lab_result toy_hash toy_hash same_row lab_body
          (call_of (user_of 3 farmer))
          (store_in processed)
        ≡ err forbidden)
    × (record_packaging toy_hash toy_hash same_row packaging_body
          (call_of (user_of 3 farmer))
          (store_in processed)
        ≡ err forbidden)
    × (record_distribution toy_hash toy_hash same_row distribution_body
          (call_of (user_of 3 farmer))
          (store_in processed)
        ≡ err forbidden)
later_stages_forbidden_example =
    later_stages_forbidden toy_hash toy_hash same_row (call_of (user_of 3 farmer))
      (user_of 3 farmer) (store_in processed) process_body lab_body packaging_body distribution_body
      refl refl refl refl

abbrev response_of : Reply StageData Rest → Response
response_of (replayed response) = response
response_of (recorded response) = response

abbrev keys : ℕ → List IdempotencyKey
keys actor = reservation (codes "k1") actor (fingerprint_of toy_hash [] end) ∷ []

abbrev harvested_pair : Reply StageData Rest × Store StageData Rest
harvested_pair =
    advance StageData Rest toy_hash toy_hash
      (stage_request toy_hash toy_hash same_row BatchState.harvested
        (codes "batch.harvest_recorded") (λ bid. harvest (record harvest_body { batch_id = bid }))
        none (call_of (user_of 3 farmer)) (user_of 3 farmer))
      (store_in created) (keys 3) (batch_in created)

harvest_is_recorded :
    record_harvest toy_hash toy_hash same_row harvest_body
      (call_of (user_of 3 farmer))
      (store_in created)
    ≡ ok (recorded (response_of harvested_pair.0), harvested_pair.1)
unfolding record_harvest transition_route requires action_roles record_stage begin find_row
    find_batch admit assert_acts_for_farmer assert_transition has_stage next_state farmer_profile_id
    advance
harvest_is_recorded = refl

record_harvest_owned_example :
    (batch : HoneyBatch) × (find_batch 1 (store_in created).batches ≡ some batch)
    × (batch.state ≡ created)
    × (farmer_profile_id (store_in created).farmers (user_of 3 farmer) ≡ some batch.farmer_id)
record_harvest_owned_example =
    record_harvest_owned toy_hash toy_hash same_row harvest_body (call_of (user_of 3 farmer))
      (user_of 3 farmer) (store_in created) harvested_pair.1 (response_of harvested_pair.0) refl
      refl harvest_is_recorded

abbrev lab_pair : Reply StageData Rest × Store StageData Rest
lab_pair =
    advance StageData Rest toy_hash toy_hash
      (stage_request toy_hash toy_hash same_row BatchState.lab_verified (codes "batch.lab_verified")
        (λ bid. lab (record lab_body { batch_id = bid })) (some score_and_record_conformance)
        (call_of (user_of 5 lab_officer)) (user_of 5 lab_officer))
      (store_in processed) (keys 5) (batch_in processed)

lab_is_recorded :
    record_lab_result toy_hash toy_hash same_row lab_body
      (call_of (user_of 5 lab_officer))
      (store_in processed)
    ≡ ok (recorded (response_of lab_pair.0), lab_pair.1)
unfolding record_lab_result transition_route requires action_roles record_stage begin find_row
    find_batch admit assert_acts_for_farmer assert_transition has_stage next_state farmer_profile_id
    advance
lab_is_recorded = refl

-- The HMF value is beyond the limit and four values are missing; of the other panel all are.
abbrev empty_panel : LabResult
empty_panel = record lab_body { moisture_pct = none; hmf_mg_kg = none }

record_lab_result_scored_example :
    ((report : ConformanceReport) × (evaluate (from_row lab_body) kenya_v1.version ≡ ok report)
      × (lab_pair.1.rest ≡ conformance_row 1 report ∷ []))
    × ((again : Response) × (store : Store StageData Rest) × (record_lab_result toy_hash toy_hash
            same_row empty_panel
            (call_of (user_of 5 lab_officer))
            (store_in processed)
          ≡ ok (recorded again, store)))
record_lab_result_scored_example =
    record_lab_result_scored toy_hash toy_hash same_row lab_body lab_body empty_panel
      (call_of (user_of 5 lab_officer)) (user_of 5 lab_officer) (store_in processed) lab_pair.1
      (response_of lab_pair.0) refl refl lab_is_recorded
