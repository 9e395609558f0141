-- ===== src/Lifecycle/Create.antt =====
-- `create_batch` of app/routers/batches.py. The ids and the generated codes that the database and `uuid`
-- hand out are fields of the request, as are the clock's readings; `lower` is `str.lower`.
use apichain_backend.Base.{
  ℕ, ◌+◌, Bool, true, false, not, Option, none, some, List, [], ◌∷◌, ◌==◌, if◌then◌else◌,
}
use apichain_backend.Base.Bytes.{Bytes, bytes_eq}
use apichain_backend.Base.Result.{Result, ok, err, ◌>>=◌}
use apichain_backend.Canonical.Text.{Text, codes, decimal}
use apichain_backend.Canonical.Json.{num, text, obj, Fields, end, field}
use apichain_backend.Canonical.DateTime.{DateTime}
use apichain_backend.Canonical.Decimal.{Decimal}
use apichain_backend.Audit.Content.{Entry}
use apichain_backend.Audit.Append.{AuditTable, append}
use apichain_backend.Access.Errors.{
  Refusal, farmer_not_found, apiary_not_found, apiary_farmer_mismatch, batch_code_taken,
}
use apichain_backend.Access.Roles.{User, batch_create, requires}
use apichain_backend.Access.Ownership.{Farmer, assert_acts_for_farmer}
use apichain_backend.Lifecycle.States.{created}
use apichain_backend.Lifecycle.Idempotency.{
  Response, IdempotencyKey, Begun, claimed, replay, begin, finish,
}
use apichain_backend.Lifecycle.Payloads.{ApiaryRecord, BatchMetadata, apiary_record, batch_metadata}
use apichain_backend.Lifecycle.Writer.{HoneyBatch, Store, Reply, recorded, replayed, role_text}

-- The columns of `apiary_locations` that a batch's record copies, and the owner.
pub record ApiaryLocation : Type 0 where
  pub id : ℕ
  pub farmer_id : ℕ
  pub latitude : Decimal
  pub longitude : Decimal
  pub altitude : Option Decimal
  pub vegetation_type : Option Text
  pub hive_count : Option ℕ

unfoldable pub find_farmer : ℕ → List Farmer → Option Farmer
find_farmer id [] = none
find_farmer id (f ∷ farmers) = if f.id == id then some f else find_farmer id farmers

unfoldable pub find_apiary : ℕ → List ApiaryLocation → Option ApiaryLocation
find_apiary id [] = none
find_apiary id (a ∷ apiaries) = if a.id == id then some a else find_apiary id apiaries

-- The unique constraint on `batch_code`.
unfoldable pub is_code_taken : Text → List HoneyBatch → Bool
is_code_taken code [] = false
is_code_taken code (b ∷ batches) =
    if bytes_eq b.batch_code code then true else is_code_taken code batches

pub record CreateRequest : Type 0 where
  pub found : Option User
  pub idempotency_key : Text
  pub body : Fields
  pub farmer_id : ℕ
  pub apiary_id : ℕ
  pub batch_code : Option Text
  pub metadata : BatchMetadata
  pub generated_code : Text
  pub public_id : Text
  pub ip : Option Text
  pub user_agent : Option Text
  pub now : DateTime
  pub created_at : DateTime
  pub apiary_at : DateTime
  pub metadata_at : DateTime

-- `body.batch_code or _generate_batch_code()`; an empty code is replaced too.
abbrev pub code_of : Option Text → Text → Text
code_of none generated = generated
code_of (some []) generated = generated
code_of (some (c ∷ code)) generated = c ∷ code

module _ (Row Rest : Type 0) where
  -- The store with the tables that only a creation writes.
  pub record Registry : Type 0 where
    pub store : Store Row Rest
    pub apiaries : List ApiaryLocation
    pub apiary_records : List ApiaryRecord
    pub metadata_records : List BatchMetadata
    pub next_batch_id : ℕ

  abbrev pub new_batch : CreateRequest → Farmer → ℕ → HoneyBatch
  new_batch r farmer id = record {
    id = id;
    batch_code = code_of r.batch_code r.generated_code;
    farmer_id = farmer.id;
    state = created;
    state_updated_at = r.now;
  }

  abbrev pub snapshot : ApiaryLocation → ℕ → ApiaryRecord
  snapshot apiary id = record {
    batch_id = id;
    apiary_id = apiary.id;
    latitude = apiary.latitude;
    longitude = apiary.longitude;
    altitude = apiary.altitude;
    vegetation_type = apiary.vegetation_type;
    hive_count = apiary.hive_count;
  }

  abbrev pub creation_entry : CreateRequest → User → ℕ → Text → Fields → Entry
  creation_entry r actor id action payload = record {
    actor_id = some actor.id;
    actor_role = role_text actor.role;
    subject_type = codes "batch";
    subject_id = decimal id;
    action = action;
    payload = obj payload;
    ip = r.ip;
    user_agent = r.user_agent;
  }

  abbrev pub created_payload : Farmer → Fields
  created_payload farmer =
      field (codes "farmer_id") (num farmer.id) (field (codes "state") (text (codes "CREATED")) end)

  -- `BatchResponse`
  abbrev pub batch_response : CreateRequest → HoneyBatch → Response
  batch_response r batch = record {
    status_code = 201;
    body = obj (
        field (codes "id") (num batch.id) (
          field (codes "public_id") (text r.public_id) (
            field (codes "batch_code") (text batch.batch_code) (
              field (codes "farmer_id") (num batch.farmer_id)
                (field (codes "state") (text (codes "CREATED")) end)))));
  }

  module _ (sha256 keccak : Bytes → Bytes) (lower : Text → Text) where
    -- The three appends.
    unfoldable pub append_creation :
        CreateRequest → User → Farmer → ApiaryRecord → BatchMetadata → ℕ → AuditTable → AuditTable
    unfolding append apiary_record batch_metadata
    append_creation r actor farmer apiary metadata id audit =
        let one =
          append keccak audit
            (creation_entry r actor id (codes "batch.created") (created_payload farmer))
            r.created_at in
        let two =
          append keccak one.0
            (creation_entry r actor id (codes "batch.apiary_recorded") (apiary_record apiary))
            r.apiary_at in
        (append keccak two.0
          (creation_entry r actor id (codes "batch.metadata_recorded")
            (batch_metadata lower metadata))
          r.metadata_at).0

    -- Below the refusals: the batch, its two records, the appends and the stored response.
    unfoldable pub create :
        CreateRequest
        → Registry
        → List IdempotencyKey
        → User
        → Farmer
        → ApiaryLocation
        → Reply Row Rest × Registry
    unfolding finish append_creation
    create r registry keys actor farmer apiary =
        let id = registry.next_batch_id in
        let batch = new_batch r farmer id in
        let metadata : BatchMetadata = record r.metadata { batch_id = id; recorded_at = r.now } in
        let response = batch_response r batch in
        (
          recorded response,
          record {
            store = record registry.store {
              batches = batch ∷ registry.store.batches;
              keys = finish r.idempotency_key actor.id response keys;
              audit =
                  append_creation r actor farmer (snapshot apiary id) metadata id
                    registry.store.audit;
            };
            apiaries = registry.apiaries;
            apiary_records = snapshot apiary id ∷ registry.apiary_records;
            metadata_records = metadata ∷ registry.metadata_records;
            next_batch_id = id + 1;
          },
        )

    abbrev pub on_apiary :
        CreateRequest
        → Registry
        → List IdempotencyKey
        → User
        → Farmer
        → Option ApiaryLocation
        → Result Refusal (Reply Row Rest × Registry)
    on_apiary r registry keys actor farmer none = err apiary_not_found
    on_apiary r registry keys actor farmer (some apiary) =
        if not (apiary.farmer_id == farmer.id)
        then err apiary_farmer_mismatch
        else if is_code_taken (code_of r.batch_code r.generated_code) registry.store.batches
        then err batch_code_taken
        else ok (create r registry keys actor farmer apiary)

    abbrev pub on_farmer :
        CreateRequest
        → Registry
        → List IdempotencyKey
        → User
        → Option Farmer
        → Result Refusal (Reply Row Rest × Registry)
    on_farmer r registry keys actor none = err farmer_not_found
    on_farmer r registry keys actor (some farmer) =
        assert_acts_for_farmer registry.store.farmers actor farmer.id >>= λ _.
        on_apiary r registry keys actor farmer (find_apiary r.apiary_id registry.apiaries)

    abbrev pub on_key :
        CreateRequest → Registry → User → Begun → Result Refusal (Reply Row Rest × Registry)
    on_key r registry actor (replay response) = ok (replayed response, registry)
    on_key r registry actor (claimed keys) =
        on_farmer r registry keys actor (find_farmer r.farmer_id registry.store.farmers)

    unfoldable pub create_batch :
        CreateRequest → Registry → Result Refusal (Reply Row Rest × Registry)
    unfolding requires begin find_farmer find_apiary is_code_taken assert_acts_for_farmer
    create_batch r registry = requires batch_create r.found >>= λ actor.
        begin sha256 r.idempotency_key actor.id r.body [] registry.store.keys >>= λ begun.
        on_key r registry actor begun
