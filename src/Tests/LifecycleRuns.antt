-- ===== src/Tests/LifecycleRuns.antt =====
-- Runs of a harvest that a farmer records on their own batch, and of the two guards.
use apichain_backend.Base.{
  ℕ, ◌+◌, ◌≡◌, ◌≢◌, ◌↔◌, ◌⊎◌, refl, ap, ◌∙◌, Bool-cases, inl, inr, true, false, ◌==◌, Option, none,
  some, List, [], ◌∷◌, arith, length,
}
use apichain_backend.Base.Bytes.{bytes_eq}
use apichain_backend.Base.Result.{ok, err}
use apichain_backend.Canonical.Text.{codes}
use apichain_backend.Canonical.Json.{num, Fields, end, field}
use apichain_backend.Audit.Append.{empty_table}
use apichain_backend.Access.Errors.{idempotency_conflict, stage_already_recorded}
use apichain_backend.Access.Roles.{
  farmer, User, batch_harvest_record, requires, action_roles, is_allowed,
}
use apichain_backend.Access.Ownership.{farmer_profile_id, assert_acts_for_farmer}
use apichain_backend.Access.Guards.{requires_iff, assert_acts_for_farmer_iff}
use apichain_backend.Lifecycle.States.{
  BatchState, created, harvested, next_state, assert_transition, is_reached,
}
use apichain_backend.Lifecycle.Idempotency.{
  Response, IdempotencyKey, reservation, fingerprint_of, begin, claimed, replay, finish,
  begin-finish, find_row,
}
use apichain_backend.Lifecycle.Writer.{
  HoneyBatch, find_batch, has_stage, Store, StageRequest, Reply, recorded, replayed, advance,
  record_stage, admit,
}
use apichain_backend.Lifecycle.Passed.{advanced, some-eq}
use apichain_backend.Lifecycle.Steps.{record_stage_advances, record_stage_replays}
use apichain_backend.Lifecycle.Consistency.{
  IsConsistent, record_stage-IsConsistent, record_stage_never_duplicates,
}
use apichain_backend.Tests.Data.{toy_hash, noon, evening}

abbrev achieng : User
achieng = record { id = 3; role = farmer; is_active = true; must_change_password = false }

abbrev batch : HoneyBatch
batch = record {
  id = 1;
  batch_code = codes "B-1";
  farmer_id = 9;
  state = created;
  state_updated_at = noon;
}

abbrev store : Store ℕ Unit
store = record {
  farmers = record { id = 9; user_id = some 3 } ∷ [];
  batches = batch ∷ [];
  stages = [];
  keys = [];
  audit = empty_table;
  rest = tt;
}

abbrev quantity : ℕ → Fields
quantity n = field (codes "quantity_kg") (num n) end

abbrev harvest : StageRequest ℕ Unit
harvest = record {
  actor = achieng;
  idempotency_key = codes "k1";
  batch_id = 1;
  target = harvested;
  action = codes "batch.harvest_recorded";
  body = quantity 40;
  build_row = λ batch_id. 40;
  build_payload = quantity;
  extra = none;
  refresh = λ row. row;
  ip = none;
  user_agent = none;
  now = evening;
}

abbrev keys : List IdempotencyKey
keys = reservation (codes "k1") 3 (fingerprint_of toy_hash [] (quantity 40)) ∷ []

abbrev response_of : Reply ℕ Unit → Response
response_of (replayed response) = response
response_of (recorded response) = response

abbrev response : Response
response = response_of (advance ℕ Unit toy_hash toy_hash harvest store keys batch).0

abbrev after : Store ℕ Unit
after = (advance ℕ Unit toy_hash toy_hash harvest store keys batch).1

harvest_is_recorded :
    record_stage ℕ Unit toy_hash toy_hash harvest store ≡ ok (recorded response, after)
unfolding record_stage begin find_row find_batch admit assert_acts_for_farmer assert_transition
    has_stage next_state farmer_profile_id advance
harvest_is_recorded = refl

batch_is_created :
    (batch_id : ℕ) (b : HoneyBatch) → find_batch batch_id store.batches ≡ some b → created ≡ b.state
unfolding find_batch
batch_is_created batch_id b f = elim (Bool-cases (1 == batch_id)) [
  | inl y ↦ ap (λ (c : HoneyBatch). c.state) (some-eq batch b (rw y at f))
  | inr n ↦ absurd (let g = rw n at f in none_some g)
]
  where
    none_some : Path (Option HoneyBatch) none (some b) → ⊥
    none_some e = cc

nothing_reached : (stage : BatchState) → false ≡ is_reached created stage
nothing_reached stage = ground arith

store-IsConsistent : IsConsistent ℕ Unit toy_hash toy_hash store
unfolding has_stage
store-IsConsistent = record {
  stage_rows = λ batch_id b stage f.
      nothing_reached stage ∙ ap (λ s. is_reached s stage) (batch_is_created batch_id b f);
}

record_stage_advances_example :
    (before : HoneyBatch) × (find_batch 1 store.batches ≡ some before)
    × (assert_acts_for_farmer store.farmers achieng before.farmer_id ≡ ok tt)
    × (next_state before.state ≡ some harvested)
    × (find_batch 1 after.batches ≡ some (advanced harvested evening before))
    × ((other : ℕ)
        → (1 == other) ≡ false
        → find_batch other after.batches ≡ find_batch other store.batches)
    × (length after.audit.rows ≡ length store.audit.rows + 1)
record_stage_advances_example =
    record_stage_advances ℕ Unit toy_hash toy_hash harvest store after response harvest_is_recorded

record_stage-IsConsistent_example : IsConsistent ℕ Unit toy_hash toy_hash after
record_stage-IsConsistent_example =
    record_stage-IsConsistent ℕ Unit toy_hash toy_hash harvest store after response
      harvest_is_recorded store-IsConsistent

record_stage_never_duplicates_example :
    record_stage ℕ Unit toy_hash toy_hash harvest store ≢ err stage_already_recorded
record_stage_never_duplicates_example =
    record_stage_never_duplicates ℕ Unit toy_hash toy_hash harvest store store-IsConsistent

record_stage_replays_example :
    record_stage ℕ Unit toy_hash toy_hash harvest after ≡ ok (replayed response, after)
record_stage_replays_example =
    record_stage_replays ℕ Unit toy_hash toy_hash harvest store after response harvest_is_recorded

key_is_claimed : begin toy_hash (codes "k1") 3 (quantity 40) [] [] ≡ ok (claimed keys)
unfolding begin find_row
key_is_claimed = refl

begin-finish_example :
    (begin toy_hash (codes "k1") 3 (quantity 40) [] (finish (codes "k1") 3 response keys)
      ≡ ok (replay response))
    × ((other : Fields)
        → bytes_eq (fingerprint_of toy_hash [] (quantity 40)) (fingerprint_of toy_hash [] other)
          ≡ false
        → begin toy_hash (codes "k1") 3 other [] (finish (codes "k1") 3 response keys)
          ≡ err idempotency_conflict)
begin-finish_example =
    begin-finish toy_hash (codes "k1") 3 (quantity 40) [] [] keys response key_is_claimed

requires_iff_example : (requires batch_harvest_record (some achieng) ≡ ok achieng) ↔ (
    (some achieng ≡ some achieng)
    × (achieng.is_active ≡ true)
    × (achieng.must_change_password ≡ false)
    × (is_allowed achieng.role (action_roles batch_harvest_record) ≡ true))
requires_iff_example = requires_iff batch_harvest_record (some achieng) achieng

staff_acts_for_any :
    (assert_acts_for_farmer store.farmers achieng 9 ≡ ok tt)
    ↔ ((achieng.role ≢ farmer) ⊎ (farmer_profile_id store.farmers achieng ≡ some 9))
staff_acts_for_any = assert_acts_for_farmer_iff store.farmers achieng 9
