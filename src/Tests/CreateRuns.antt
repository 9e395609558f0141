-- ===== src/Tests/CreateRuns.antt =====
-- A run of `create_batch` by a farmer, on their own apiary.
use apichain_backend.Base.{
  ℕ, ◌+◌, ◌≡◌, refl, true, false, Option, none, some, List, [], ◌∷◌, length,
}
use apichain_backend.Base.Result.{ok}
use apichain_backend.Canonical.Text.{Text, codes}
use apichain_backend.Canonical.Json.{end}
use apichain_backend.Codex.Rules.{tenths}
use apichain_backend.Audit.Append.{empty_table}
use apichain_backend.Access.Roles.{farmer, User, batch_create, requires, action_roles}
use apichain_backend.Access.Ownership.{Farmer, farmer_profile_id, assert_acts_for_farmer}
use apichain_backend.Lifecycle.Idempotency.{
  Response, IdempotencyKey, reservation, fingerprint_of, begin, find_row,
}
use apichain_backend.Lifecycle.Writer.{find_batch, has_stage, Reply, recorded, replayed}
use apichain_backend.Lifecycle.Create.{
  ApiaryLocation, find_farmer, find_apiary, is_code_taken, CreateRequest, code_of, Registry,
  new_batch, snapshot, create, create_batch,
}
use apichain_backend.Lifecycle.Consistency.{IsConsistent}
use apichain_backend.Lifecycle.CreateLaws.{create_batch_opens, create_batch-IsConsistent}
use apichain_backend.Tests.Data.{toy_hash, noon, evening}

abbrev achieng : User
achieng = record { id = 3; role = farmer; is_active = true; must_change_password = false }

abbrev profile : Farmer
profile = record { id = 9; user_id = some 3 }

abbrev hives : ApiaryLocation
hives = record {
  id = 4;
  farmer_id = 9;
  latitude = tenths 3;
  longitude = tenths 367;
  altitude = none;
  vegetation_type = none;
  hive_count = some 12;
}

abbrev registry : Registry ℕ Unit
registry = record {
  store = record {
    farmers = profile ∷ [];
    batches = [];
    stages = [];
    keys = [];
    audit = empty_table;
    rest = tt;
  };
  apiaries = hives ∷ [];
  apiary_records = [];
  metadata_records = [];
  next_batch_id = 1;
}

abbrev request : CreateRequest
request = record {
  found = some achieng;
  idempotency_key = codes "k1";
  body = end;
  farmer_id = 9;
  apiary_id = 4;
  batch_code = none;
  metadata = record {
    batch_id = 0;
    honey_type = codes "acacia";
    expected_yield_kg = tenths 400;
    harvest_window_start = record { year = 2026; month = 3; day = 1 };
    harvest_window_end = record { year = 2026; month = 3; day = 20 };
    apiary_management_method = codes "ktbh";
    notes = none;
    recorded_at = noon;
  };
  generated_code = codes "B-0123456789";
  public_id = codes "p";
  ip = none;
  user_agent = none;
  now = noon;
  created_at = noon;
  apiary_at = noon;
  metadata_at = evening;
}

abbrev same_text : Text → Text
same_text s = s

abbrev keys : List IdempotencyKey
keys = reservation (codes "k1") 3 (fingerprint_of toy_hash [] end) ∷ []

abbrev outcome : Reply ℕ Unit × Registry ℕ Unit
outcome = create ℕ Unit toy_hash toy_hash same_text request registry keys achieng profile hives

abbrev response_of : Reply ℕ Unit → Response
response_of (replayed response) = response
response_of (recorded response) = response

batch_is_created :
    create_batch ℕ Unit toy_hash toy_hash same_text request registry
    ≡ ok (recorded (response_of outcome.0), outcome.1)
unfolding create_batch requires action_roles begin find_row find_farmer find_apiary is_code_taken
    assert_acts_for_farmer farmer_profile_id create
batch_is_created = refl

registry-IsConsistent : IsConsistent ℕ Unit toy_hash toy_hash registry.store
unfolding find_batch
registry-IsConsistent = record { stage_rows = λ id batch stage f. absurd (nothing f) }
  where
    nothing : {A : Type 0} {a : A} → Path (Option A) none (some a) → ⊥
    nothing e = cc

create_batch_opens_example :
    (actor : User) × (owner : Farmer) × (apiary : ApiaryLocation) × (requires batch_create
        (some achieng)
      ≡ ok actor)
    × (find_farmer 9 (profile ∷ []) ≡ some owner)
    × (assert_acts_for_farmer (profile ∷ []) actor owner.id ≡ ok tt)
    × (find_apiary 4 (hives ∷ []) ≡ some apiary)
    × (apiary.farmer_id ≡ owner.id)
    × (is_code_taken (code_of none (codes "B-0123456789")) registry.store.batches ≡ false)
    × (outcome.1.store.batches ≡ new_batch ℕ Unit request owner 1 ∷ [])
    × (outcome.1.apiary_records ≡ snapshot ℕ Unit apiary 1 ∷ [])
    × (length outcome.1.store.audit.rows ≡ length registry.store.audit.rows + 3)
create_batch_opens_example =
    create_batch_opens ℕ Unit toy_hash toy_hash same_text request registry outcome.1
      (response_of outcome.0) batch_is_created

create_batch-IsConsistent_example : IsConsistent ℕ Unit toy_hash toy_hash outcome.1.store
unfolding has_stage
create_batch-IsConsistent_example =
    create_batch-IsConsistent ℕ Unit toy_hash toy_hash same_text request registry outcome.1
      (response_of outcome.0) batch_is_created (λ stage. refl) registry-IsConsistent
