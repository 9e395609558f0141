-- ===== src/Lifecycle/Consistency.antt =====
-- `record_stage` in app/services/stage_writer.py: the stage rows against the batch states.
use apichain_backend.Base.{
  ℕ, ◌≡◌, ◌≢◌, refl, sym, ◌∙◌, ap, Bool, true, false, ◌&&◌, ◌||◌, Option, none, some, List, [],
  ◌==◌, arith, Bool-cases, inl, inr, ==_iff,
}
use apichain_backend.Base.Bytes.{Bytes}
use apichain_backend.Base.Result.{ok, err, >>=-eq-ok, >>=-eq-err}
use apichain_backend.Access.Errors.{
  stage_already_recorded, idempotency_conflict, forbidden, invalid_transition,
}
use apichain_backend.Access.Ownership.{assert_acts_for_farmer, assert_acts_for_farmer_refusal}
use apichain_backend.Lifecycle.States.{
  assert_transition_refusal, BatchState, same_state, next_state, assert_transition, is_reached,
  is_reached-next_state, not_reached_next, next_state_of_assert_transition,
}
use apichain_backend.Lifecycle.Idempotency.{
  Response, IdempotencyKey, claimed, replay, begin, begin_refusal,
}
use apichain_backend.Lifecycle.Writer.{
  HoneyBatch, find_batch, has_stage, Store, StageRequest, Reply, recorded, advance, admit,
  insert_stage, on_batch, on_begun, record_stage,
}
use apichain_backend.Lifecycle.Passed.{
  advanced, find_batch_id, find_batch-set_state, find_batch-set_state_other, some-eq, Passed,
  Passed-of_record_stage, after-batches,
}

same_state_sym : (s t : BatchState) → same_state s t ≡ same_state t s
same_state_sym s t = ground arith

not_conflict : stage_already_recorded ≢ idempotency_conflict
not_conflict h = cc

not_forbidden : stage_already_recorded ≢ forbidden
not_forbidden h = cc

not_illegal : stage_already_recorded ≢ invalid_transition
not_illegal h = cc

step_here :
    (s target stage : BatchState) (here before : Bool)
    → next_state s ≡ some target
    → here ≡ true
    → before ≡ is_reached s stage
    → ((same_state stage target && here) || before) ≡ is_reached target stage
step_here s target stage here before n h b =
    rw (h, b, is_reached-next_state s target stage n, same_state_sym stage target)
      (and_true (same_state target stage) (is_reached s stage))
  where
    and_true : (x y : Bool) → ((x && true) || y) ≡ (x || y)
    and_true x y = ground arith

step_elsewhere : (same here before : Bool) → here ≡ false → ((same && here) || before) ≡ before
step_elsewhere same here before h = ground arith

module _ (Row Rest : Type 0) (sha256 keccak : Bytes → Bytes) where
  -- The stage rows of every batch are those of the states that it has reached.
  pub record IsConsistent (db : Store Row Rest) : Type 0 where
    pub stage_rows :
        (batch_id : ℕ) (batch : HoneyBatch) (stage : BatchState)
        → find_batch batch_id db.batches ≡ some batch
        → has_stage Row Rest stage batch_id db.stages ≡ is_reached batch.state stage

  after-stages :
      (r : StageRequest Row Rest) (db after : Store Row Rest) (response : Response)
      (p : Passed Row Rest sha256 keccak r db after response) (stage : BatchState) (batch_id : ℕ)
      → has_stage Row Rest stage batch_id after.stages ≡ (
          (same_state stage r.target && p.batch.id == batch_id)
          || has_stage Row Rest stage batch_id db.stages)
  unfolding advance has_stage
  after-stages r db after response p stage batch_id =
      rw (sym (ap (λ (o : Reply Row Rest × Store Row Rest). o.1.stages) p.done)) refl

  has_stage-record_stage :
      (r : StageRequest Row Rest) (db after : Store Row Rest) (response : Response)
      → record_stage Row Rest sha256 keccak r db ≡ ok (recorded response, after)
      → IsConsistent db
      → (batch_id : ℕ) (batch : HoneyBatch) (stage : BatchState)
      → find_batch batch_id after.batches ≡ some batch
      → has_stage Row Rest stage batch_id after.stages ≡ is_reached batch.state stage
  has_stage-record_stage r db after response h c batch_id batch stage f =
      let p = Passed-of_record_stage Row Rest sha256 keccak r db after response h in
      elim (Bool-cases (r.batch_id == batch_id)) [
        | inl same ↦ here p same
        | inr other ↦ elsewhere p other
      ]
    where
      here :
          (p : Passed Row Rest sha256 keccak r db after response)
          → (r.batch_id == batch_id) ≡ true
          → has_stage Row Rest stage batch_id after.stages ≡ is_reached batch.state stage
      here p same =
          let q = (==_iff r.batch_id batch_id).0 same in
          let moved = find_batch-set_state r.batch_id r.target r.now db.batches p.batch p.found in
          let held =
            sym moved
            ∙ ap (λ bs. find_batch r.batch_id bs)
                (sym (after-batches Row Rest sha256 keccak r db after response p))
            ∙ ap (λ i. find_batch i after.batches) q
            ∙ f in
          after-stages r db after response p stage batch_id
          ∙ step_here p.batch.state r.target stage (p.batch.id == batch_id)
              (has_stage Row Rest stage batch_id db.stages)
              (next_state_of_assert_transition p.batch.state r.target p.legal)
              (rw (find_batch_id r.batch_id db.batches p.batch p.found) same)
              (c.stage_rows batch_id p.batch stage (rw (sym q) p.found))
          ∙ ap (λ (b : HoneyBatch). is_reached b.state stage)
              (some-eq (advanced r.target r.now p.batch) batch held)

      elsewhere :
          (p : Passed Row Rest sha256 keccak r db after response)
          → (r.batch_id == batch_id) ≡ false
          → has_stage Row Rest stage batch_id after.stages ≡ is_reached batch.state stage
      elsewhere p other =
          let kept =
            find_batch-set_state_other r.batch_id batch_id r.target r.now db.batches other in
          after-stages r db after response p stage batch_id
          ∙ step_elsewhere (same_state stage r.target) (p.batch.id == batch_id)
              (has_stage Row Rest stage batch_id db.stages)
              (rw (find_batch_id r.batch_id db.batches p.batch p.found) other)
          ∙ c.stage_rows batch_id batch stage (
              sym kept
              ∙ ap (λ bs. find_batch batch_id bs)
                  (sym (after-batches Row Rest sha256 keccak r db after response p))
              ∙ f)

  -- Recording a stage keeps the stage rows of all batches consistent with their states.
  pub record_stage-IsConsistent :
      (r : StageRequest Row Rest) (db after : Store Row Rest) (response : Response)
      → record_stage Row Rest sha256 keccak r db ≡ ok (recorded response, after)
      → IsConsistent db
      → IsConsistent after
  record_stage-IsConsistent r db after response h c = record {
    stage_rows = has_stage-record_stage r db after response h c;
  }

  refused_by_insert :
      (r : StageRequest Row Rest) (db : Store Row Rest) (keys : List IdempotencyKey)
      (batch : HoneyBatch) (duplicate : Bool)
      → insert_stage Row Rest sha256 keccak r db keys batch duplicate ≡ err stage_already_recorded
      → duplicate ≡ true
  refused_by_insert r db keys batch true h = refl
  refused_by_insert r db keys batch false h = cc

  no_duplicate_stage :
      (r : StageRequest Row Rest) (db : Store Row Rest) (batch : HoneyBatch)
      → IsConsistent db
      → find_batch r.batch_id db.batches ≡ some batch
      → assert_transition batch.state r.target ≡ ok tt
      → has_stage Row Rest r.target batch.id db.stages ≡ false
  no_duplicate_stage r db batch c f legal =
      ap (λ i. has_stage Row Rest r.target i db.stages)
        (find_batch_id r.batch_id db.batches batch f)
      ∙ c.stage_rows r.batch_id batch r.target f
      ∙ not_reached_next batch.state r.target
          (next_state_of_assert_transition batch.state r.target legal)

  no_duplicate_on_batch :
      (r : StageRequest Row Rest) (db : Store Row Rest) (keys : List IdempotencyKey)
      (found : Option HoneyBatch)
      → IsConsistent db
      → find_batch r.batch_id db.batches ≡ found
      → on_batch Row Rest sha256 keccak r db keys found ≢ err stage_already_recorded
  unfolding admit
  no_duplicate_on_batch r db keys none c f h = cc
  no_duplicate_on_batch r db keys (some batch) c f h =
      elim (>>=-eq-err (admit Row Rest sha256 keccak r db batch)
        (λ _.
          insert_stage Row Rest sha256 keccak r db keys batch
            (has_stage Row Rest r.target batch.id db.stages))
        h) [
          | inl refused ↦
              elim (>>=-eq-err (assert_acts_for_farmer db.farmers r.actor batch.farmer_id)
                (λ _. assert_transition batch.state r.target) refused) [
                  | inl not_own ↦ not_forbidden (
                      assert_acts_for_farmer_refusal db.farmers r.actor batch.farmer_id
                        stage_already_recorded not_own)
                  | inr (u, own, illegal) ↦ not_illegal (
                      assert_transition_refusal batch.state r.target stage_already_recorded illegal)
                ]
          | inr (u, admitted, inserted) ↦
              let (v, acts, legal) =
                >>=-eq-ok (assert_acts_for_farmer db.farmers r.actor batch.farmer_id)
                  (λ _. assert_transition batch.state r.target) admitted in
              let fresh = no_duplicate_stage r db batch c f legal in
              let fired =
                refused_by_insert r db keys batch (has_stage Row Rest r.target batch.id db.stages)
                  inserted in
              cc
        ]

  -- In a consistent store the UNIQUE constraint never fires: `record_stage` never answers
  -- `stage_already_recorded`, since a batch that already has the record is refused before the insert.
  pub record_stage_never_duplicates :
      (r : StageRequest Row Rest) (db : Store Row Rest)
      → IsConsistent db
      → record_stage Row Rest sha256 keccak r db ≢ err stage_already_recorded
  unfolding record_stage
  record_stage_never_duplicates r db c h =
      elim (>>=-eq-err (begin sha256 r.idempotency_key r.actor.id r.body [] db.keys)
        (λ begun. on_begun Row Rest sha256 keccak r db begun) h) [
          | inl refused ↦ not_conflict (
              begin_refusal sha256 r.idempotency_key r.actor.id r.body [] db.keys
                stage_already_recorded refused)
          | inr (claimed keys, b, rest) ↦
              no_duplicate_on_batch r db keys (find_batch r.batch_id db.batches) c refl rest
          | inr (replay response, b, rest) ↦ cc
        ]
