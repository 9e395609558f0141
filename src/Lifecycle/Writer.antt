-- ===== src/Lifecycle/Writer.antt =====
-- app/services/stage_writer.py: the one handler order of every transition. A row of a stage table, the
-- tables that only `extra` writes and the database's `refresh` are parameters, as the source takes
-- `build_row`, `build_payload` and `extra`. An error discards the session, so it returns no store.
use apichain_backend.Base.{
  ℕ, Bool, true, false, ◌&&◌, ◌||◌, Option, none, some, List, [], ◌∷◌, ◌==◌, if◌then◌else◌,
}
use apichain_backend.Base.Bytes.{Bytes, bytes_eq}
use apichain_backend.Base.Result.{Result, ok, err, ◌>>=◌}
use apichain_backend.Canonical.Text.{Text, codes, hex, decimal}
use apichain_backend.Canonical.Json.{Json, num, text, obj, Fields, end, field}
use apichain_backend.Canonical.DateTime.{DateTime}
use apichain_backend.Audit.Content.{Entry, AuditRow}
use apichain_backend.Audit.Append.{AuditTable, append}
use apichain_backend.Access.Errors.{Refusal, batch_not_found, stage_already_recorded}
use apichain_backend.Access.Roles.{Role, farmer, field_officer, operator, lab_officer, admin, User}
use apichain_backend.Access.Ownership.{Farmer, assert_acts_for_farmer}
use apichain_backend.Lifecycle.States.{
  BatchState, created, harvested, processed, lab_verified, packaged, distributed, same_state,
  assert_transition,
}
use apichain_backend.Lifecycle.Idempotency.{
  Response, IdempotencyKey, Begun, claimed, replay, begin, finish,
}

abbrev pub state_text : BatchState → Text
state_text created = codes "CREATED"
state_text harvested = codes "HARVESTED"
state_text processed = codes "PROCESSED"
state_text lab_verified = codes "LAB_VERIFIED"
state_text packaged = codes "PACKAGED"
state_text distributed = codes "DISTRIBUTED"

abbrev pub role_text : Role → Text
role_text farmer = codes "farmer"
role_text field_officer = codes "field_officer"
role_text operator = codes "operator"
role_text lab_officer = codes "lab_officer"
role_text admin = codes "admin"

-- A row of `honey_batches`, without `public_id` and `created_at`, which no transition reads.
pub record HoneyBatch : Type 0 where
  pub id : ℕ
  pub batch_code : Text
  pub farmer_id : ℕ
  pub state : BatchState
  pub state_updated_at : DateTime

unfoldable pub find_batch : ℕ → List HoneyBatch → Option HoneyBatch
find_batch batch_id [] = none
find_batch batch_id (batch ∷ batches) =
    if batch.id == batch_id then some batch else find_batch batch_id batches

-- The update of one batch row.
unfoldable pub set_state : ℕ → BatchState → DateTime → List HoneyBatch → List HoneyBatch
set_state batch_id target now [] = []
set_state batch_id target now (batch ∷ batches) =
    (if batch.id == batch_id
      then record batch { state = target; state_updated_at = now }
      else batch)
    ∷ set_state batch_id target now batches

abbrev pub set_field : Text → Json → Fields → Fields
set_field k v end = field k v end
set_field k v (field l w fs) = if bytes_eq k l then field k v fs else field l w (set_field k v fs)

-- `{**payload, **extra}`
unfoldable pub merge : Fields → Fields → Fields
merge payload end = payload
merge payload (field k v fs) = merge (set_field k v payload) fs

module _ (Row Rest : Type 0) where
  -- A row of the stage table of `stage`, which has `UNIQUE(batch_id)`.
  pub record StageRow : Type 0 where
    pub stage : BatchState
    pub batch_id : ℕ
    pub row : Row

  unfoldable pub has_stage : BatchState → ℕ → List StageRow → Bool
  has_stage stage batch_id [] = false
  has_stage stage batch_id (r ∷ rows) =
      (same_state stage r.stage && r.batch_id == batch_id) || has_stage stage batch_id rows

  pub record Store : Type 0 where
    pub farmers : List Farmer
    pub batches : List HoneyBatch
    pub stages : List StageRow
    pub keys : List IdempotencyKey
    pub audit : AuditTable
    pub rest : Rest

  -- The arguments of `record_stage`; `now` is the clock, `refresh` reads an inserted row back.
  pub record StageRequest : Type 0 where
    pub actor : User
    pub idempotency_key : Text
    pub batch_id : ℕ
    pub target : BatchState
    pub action : Text
    pub body : Fields
    pub build_row : ℕ → Row
    pub build_payload : Row → Fields
    pub extra : Option (Rest → Row → Rest × Fields)
    pub refresh : Row → Row
    pub ip : Option Text
    pub user_agent : Option Text
    pub now : DateTime

  pub data Reply : Type 0 where
    replayed : Response → Reply
    recorded : Response → Reply

  -- The stage row as the database holds it after `flush` and `refresh`.
  abbrev pub stage_row : StageRequest → HoneyBatch → Row
  stage_row r batch = r.refresh (r.build_row batch.id)

  -- `extra(db, row)`, when there is one.
  abbrev pub run_extra : Option (Rest → Row → Rest × Fields) → Rest → Row → Fields → Rest × Fields
  run_extra none rest row payload = (rest, payload)
  run_extra (some extra) rest row payload = let out = extra rest row in (out.0, merge payload out.1)

  abbrev pub stage_entry : StageRequest → HoneyBatch → Fields → Entry
  stage_entry r batch payload = record {
    actor_id = some r.actor.id;
    actor_role = role_text r.actor.role;
    subject_type = codes "batch";
    subject_id = decimal batch.id;
    action = r.action;
    payload = obj payload;
    ip = r.ip;
    user_agent = r.user_agent;
  }

  -- `StageRecordedResponse`
  abbrev pub stage_response : StageRequest → HoneyBatch → AuditRow → Response
  stage_response r batch entry = record {
    status_code = 201;
    body = obj (
        field (codes "batch_id") (num batch.id) (
          field (codes "batch_code") (text batch.batch_code) (
            field (codes "state") (text (state_text r.target)) (
              field (codes "audit_id") (num entry.id)
                (field (codes "payload_hash") (text (hex entry.payload_hash)) end)))));
  }

  module _ (sha256 keccak : Bytes → Bytes) where
    -- Below the flush: advance the batch, append, finish, commit.
    unfoldable pub advance : StageRequest → Store → List IdempotencyKey → HoneyBatch → Reply × Store
    unfolding finish append set_state
    advance r db keys batch =
        let row = stage_row r batch in
        let out = run_extra r.extra db.rest row (r.build_payload row) in
        let appended = append keccak db.audit (stage_entry r batch out.1) r.now in
        let response = stage_response r batch appended.1 in
        (
          recorded response,
          record {
            farmers = db.farmers;
            batches = set_state batch.id r.target r.now db.batches;
            stages = record { stage = r.target; batch_id = batch.id; row = row } ∷ db.stages;
            keys = finish r.idempotency_key r.actor.id response keys;
            audit = appended.0;
            rest = out.0;
          },
        )

    -- The insert of the stage row, which the UNIQUE constraint refuses.
    abbrev pub insert_stage :
        StageRequest
        → Store
        → List IdempotencyKey
        → HoneyBatch
        → Bool
        → Result Refusal (Reply × Store)
    insert_stage r db keys batch true = err stage_already_recorded
    insert_stage r db keys batch false = ok (advance r db keys batch)

    -- The two refusals between the lookup and the insert.
    unfoldable pub admit : StageRequest → Store → HoneyBatch → Result Refusal (Unit {0})
    unfolding assert_acts_for_farmer assert_transition
    admit r db batch = assert_acts_for_farmer db.farmers r.actor batch.farmer_id >>= λ _.
        assert_transition batch.state r.target

    abbrev pub on_batch :
        StageRequest
        → Store
        → List IdempotencyKey
        → Option HoneyBatch
        → Result Refusal (Reply × Store)
    on_batch r db keys none = err batch_not_found
    on_batch r db keys (some batch) = admit r db batch >>= λ _.
        insert_stage r db keys batch (has_stage r.target batch.id db.stages)

    abbrev pub on_begun : StageRequest → Store → Begun → Result Refusal (Reply × Store)
    on_begun r db (replay response) = ok (replayed response, db)
    on_begun r db (claimed keys) = on_batch r db keys (find_batch r.batch_id db.batches)

    unfoldable pub record_stage : StageRequest → Store → Result Refusal (Reply × Store)
    unfolding begin find_batch
    record_stage r db =
        begin sha256 r.idempotency_key r.actor.id r.body [] db.keys >>= λ begun. on_begun r db begun
