-- ===== src/Lifecycle/Passed.antt =====
-- `record_stage` in app/services/stage_writer.py: what a call that recorded a stage has passed, and
-- the tables that it leaves.
use apichain_backend.Base.{
  ℕ, ◌+◌, ◌≡◌, refl, sym, ◌∙◌, ap, Bool, true, false, Option, none, some, List, [], ◌∷◌, ◌==◌,
  arith, Bool-cases, inl, inr, length, ==_iff,
}
use apichain_backend.Base.Bytes.{Bytes}
use apichain_backend.Base.Result.{ok, >>=-eq-ok}
use apichain_backend.Canonical.DateTime.{DateTime}
use apichain_backend.Access.Ownership.{assert_acts_for_farmer}
use apichain_backend.Audit.Append.{length_rows-append}
use apichain_backend.Lifecycle.States.{BatchState, assert_transition}
use apichain_backend.Lifecycle.Idempotency.{
  Response, IdempotencyKey, Begun, claimed, replay, begin, finish,
}
use apichain_backend.Lifecycle.Writer.{
  HoneyBatch, find_batch, set_state, has_stage, Store, StageRequest, Reply, recorded, advance,
  admit, insert_stage, stage_entry, run_extra, stage_row, on_batch, on_begun, record_stage,
}

-- The batch row after the step.
abbrev pub advanced : BatchState → DateTime → HoneyBatch → HoneyBatch
advanced target now batch = record batch { state = target; state_updated_at = now }

==_refl : (a : ℕ) → (a == a) ≡ true
==_refl a = ground arith

pub some-eq : {A : Type 0} (a b : A) → some a ≡ some b → a ≡ b
some-eq a b h = cc

not_other : (a b c : ℕ) → (a == b) ≡ true → (b == c) ≡ false → (a == c) ≡ false
not_other a b c h n = ground arith

pub find_batch_id :
    (batch_id : ℕ) (batches : List HoneyBatch) (batch : HoneyBatch)
    → find_batch batch_id batches ≡ some batch
    → batch.id ≡ batch_id
unfolding find_batch
find_batch_id batch_id [] batch h = cc
find_batch_id batch_id (b ∷ batches) batch h = elim (Bool-cases (b.id == batch_id)) [
  | inl y ↦
      (sym (ap (λ (b : HoneyBatch). b.id) (some-eq b batch (rw y at h)))
        ∙ (==_iff b.id batch_id).0 y)
  | inr n ↦ find_batch_id batch_id batches batch (rw n at h)
]

pub find_batch-set_state :
    (batch_id : ℕ) (target : BatchState) (now : DateTime) (batches : List HoneyBatch)
    (batch : HoneyBatch)
    → find_batch batch_id batches ≡ some batch
    → find_batch batch_id (set_state batch_id target now batches) ≡ some (advanced target now batch)
unfolding find_batch set_state
find_batch-set_state batch_id target now [] batch h = cc
find_batch-set_state batch_id target now (b ∷ batches) batch h =
    elim (Bool-cases (b.id == batch_id)) [
      | inl y ↦
          rw (y, y)
            (ap (λ (b : HoneyBatch). some (advanced target now b)) (some-eq b batch (rw y at h)))
      | inr n ↦ rw (n, n) (find_batch-set_state batch_id target now batches batch (rw n at h))
    ]

pub find_batch-set_state_other :
    (batch_id other : ℕ) (target : BatchState) (now : DateTime) (batches : List HoneyBatch)
    → (batch_id == other) ≡ false
    → find_batch other (set_state batch_id target now batches) ≡ find_batch other batches
unfolding find_batch set_state
find_batch-set_state_other batch_id other target now [] h = refl
find_batch-set_state_other batch_id other target now (b ∷ batches) h =
    elim (Bool-cases (b.id == batch_id)) [
      | inl y ↦
          rw (y, not_other b.id batch_id other y h)
            (find_batch-set_state_other batch_id other target now batches h)
      | inr n ↦ rw (n, find_batch-set_state_other batch_id other target now batches h) refl
    ]

module _ (Row Rest : Type 0) (sha256 keccak : Bytes → Bytes) where
  -- What a recorded stage has passed: the claimed keys, the batch and the guards.
  pub record Passed (r : StageRequest Row Rest) (db after : Store Row Rest) (response : Response)
      : Type 0 where
    pub keys : List IdempotencyKey
    pub batch : HoneyBatch
    pub begun : begin sha256 r.idempotency_key r.actor.id r.body [] db.keys ≡ ok (claimed keys)
    pub found : find_batch r.batch_id db.batches ≡ some batch
    pub acts : assert_acts_for_farmer db.farmers r.actor batch.farmer_id ≡ ok tt
    pub legal : assert_transition batch.state r.target ≡ ok tt
    pub fresh : has_stage Row Rest r.target batch.id db.stages ≡ false
    pub done : advance Row Rest sha256 keccak r db keys batch ≡ (recorded response, after)

  passed_of_insert :
      (r : StageRequest Row Rest) (db after : Store Row Rest) (response : Response)
      (keys : List IdempotencyKey) (batch : HoneyBatch) (duplicate : Bool)
      → insert_stage Row Rest sha256 keccak r db keys batch duplicate
        ≡ ok (recorded response, after)
      → (duplicate ≡ false)
        × (advance Row Rest sha256 keccak r db keys batch ≡ (recorded response, after))
  passed_of_insert r db after response keys batch true h = cc
  passed_of_insert r db after response keys batch false h = (refl, cc)

  Passed-of_batch :
      (r : StageRequest Row Rest) (db after : Store Row Rest) (response : Response)
      (keys : List IdempotencyKey) (found : Option HoneyBatch)
      → begin sha256 r.idempotency_key r.actor.id r.body [] db.keys ≡ ok (claimed keys)
      → find_batch r.batch_id db.batches ≡ found
      → on_batch Row Rest sha256 keccak r db keys found ≡ ok (recorded response, after)
      → Passed r db after response
  unfolding admit
  Passed-of_batch r db after response keys none b f h = cc
  Passed-of_batch r db after response keys (some batch) b f h =
      let (u, admitted, inserted) =
        >>=-eq-ok (admit Row Rest sha256 keccak r db batch)
          (λ _.
            insert_stage Row Rest sha256 keccak r db keys batch
              (has_stage Row Rest r.target batch.id db.stages))
          h in
      let (v, acts, legal) =
        >>=-eq-ok (assert_acts_for_farmer db.farmers r.actor batch.farmer_id)
          (λ _. assert_transition batch.state r.target) admitted in
      let (fresh, done) =
        passed_of_insert r db after response keys batch
          (has_stage Row Rest r.target batch.id db.stages) inserted in
      record {
        keys = keys;
        batch = batch;
        begun = b;
        found = f;
        acts = acts;
        legal = legal;
        fresh = fresh;
        done = done;
      }

  Passed-of_begun :
      (r : StageRequest Row Rest) (db after : Store Row Rest) (response : Response) (begun : Begun)
      → begin sha256 r.idempotency_key r.actor.id r.body [] db.keys ≡ ok begun
      → on_begun Row Rest sha256 keccak r db begun ≡ ok (recorded response, after)
      → Passed r db after response
  Passed-of_begun r db after response (claimed keys) b h =
      Passed-of_batch r db after response keys (find_batch r.batch_id db.batches) b refl h
  Passed-of_begun r db after response (replay old) b h = cc

  pub Passed-of_record_stage :
      (r : StageRequest Row Rest) (db after : Store Row Rest) (response : Response)
      → record_stage Row Rest sha256 keccak r db ≡ ok (recorded response, after)
      → Passed r db after response
  unfolding record_stage
  Passed-of_record_stage r db after response h =
      let (begun, b, rest) =
        >>=-eq-ok (begin sha256 r.idempotency_key r.actor.id r.body [] db.keys)
          (λ begun. on_begun Row Rest sha256 keccak r db begun) h in
      Passed-of_begun r db after response begun b rest

  -- A call that passes the guards records the stage.
  pub record_stage-advance :
      (r : StageRequest Row Rest) (db : Store Row Rest) (keys : List IdempotencyKey)
      (batch : HoneyBatch)
      → begin sha256 r.idempotency_key r.actor.id r.body [] db.keys ≡ ok (claimed keys)
      → find_batch r.batch_id db.batches ≡ some batch
      → assert_acts_for_farmer db.farmers r.actor batch.farmer_id ≡ ok tt
      → assert_transition batch.state r.target ≡ ok tt
      → has_stage Row Rest r.target batch.id db.stages ≡ false
      → record_stage Row Rest sha256 keccak r db
        ≡ ok (advance Row Rest sha256 keccak r db keys batch)
  unfolding record_stage admit
  record_stage-advance r db keys batch begun found acts legal fresh =
      rw (begun, found, acts, legal, fresh) refl

  pub after-batches :
      (r : StageRequest Row Rest) (db after : Store Row Rest) (response : Response)
      (p : Passed r db after response)
      → after.batches ≡ set_state r.batch_id r.target r.now db.batches
  unfolding advance
  after-batches r db after response p =
      sym (ap (λ (o : Reply Row Rest × Store Row Rest). o.1.batches) p.done)
      ∙ ap (λ i. set_state i r.target r.now db.batches)
          (find_batch_id r.batch_id db.batches p.batch p.found)

  pub after-audit :
      (r : StageRequest Row Rest) (db after : Store Row Rest) (response : Response)
      (p : Passed r db after response)
      → length after.audit.rows ≡ length db.audit.rows + 1
  unfolding advance
  after-audit r db after response p =
      rw (sym (ap (λ (o : Reply Row Rest × Store Row Rest). o.1.audit) p.done)) (
        length_rows-append keccak db.audit
          (stage_entry Row Rest r p.batch
            (run_extra Row Rest r.extra db.rest (stage_row Row Rest r p.batch)
              (r.build_payload (stage_row Row Rest r p.batch))).1)
          r.now)

  pub after-keys :
      (r : StageRequest Row Rest) (db after : Store Row Rest) (response : Response)
      (p : Passed r db after response)
      → after.keys ≡ finish r.idempotency_key r.actor.id response p.keys
  unfolding advance
  after-keys r db after response p =
      sym (ap (λ (o : Reply Row Rest × Store Row Rest). o.1.keys) p.done)
      ∙ ap (λ x. finish r.idempotency_key r.actor.id x p.keys) (recorded-eq (ap (λ o. o.0) p.done))
    where
      recorded-eq : {a b : Response} → Path (Reply Row Rest) (recorded a) (recorded b) → a ≡ b
      recorded-eq h = cc
