-- ===== src/Lifecycle/Steps.antt =====
-- `record_stage` in app/services/stage_writer.py: the step of a recorded stage and its replay.
use apichain_backend.Base.{ℕ, ◌+◌, ◌≡◌, refl, false, some, [], ◌==◌, length}
use apichain_backend.Base.Bytes.{Bytes}
use apichain_backend.Base.Result.{ok}
use apichain_backend.Access.Ownership.{assert_acts_for_farmer}
use apichain_backend.Lifecycle.States.{next_state, next_state_of_assert_transition}
use apichain_backend.Lifecycle.Idempotency.{Response, begin-finish}
use apichain_backend.Lifecycle.Writer.{
  HoneyBatch, find_batch, Store, StageRequest, replayed, recorded, advance, record_stage,
}
use apichain_backend.Lifecycle.Passed.{
  advanced, find_batch-set_state, find_batch-set_state_other, Passed-of_record_stage, after-batches,
  after-audit, after-keys,
}

module _ (Row Rest : Type 0) (sha256 keccak : Bytes → Bytes) where
  -- A request that records a stage found its batch, acted for its farmer and took the one legal step:
  -- afterwards the batch is in the target state, every other batch is as before, and the audit table
  -- holds exactly one more row.
  pub record_stage_advances :
      (r : StageRequest Row Rest) (db after : Store Row Rest) (response : Response)
      → record_stage Row Rest sha256 keccak r db ≡ ok (recorded response, after)
      → (batch : HoneyBatch) × (find_batch r.batch_id db.batches ≡ some batch)
        × (assert_acts_for_farmer db.farmers r.actor batch.farmer_id ≡ ok tt)
        × (next_state batch.state ≡ some r.target)
        × (find_batch r.batch_id after.batches ≡ some (advanced r.target r.now batch))
        × ((other : ℕ)
            → (r.batch_id == other) ≡ false
            → find_batch other after.batches ≡ find_batch other db.batches)
        × (length after.audit.rows ≡ length db.audit.rows + 1)
  unfolding advance
  record_stage_advances r db after response h =
      let p = Passed-of_record_stage Row Rest sha256 keccak r db after response h in
      (
        p.batch,
        p.found,
        p.acts,
        next_state_of_assert_transition p.batch.state r.target p.legal,
        rw (after-batches Row Rest sha256 keccak r db after response p)
            (find_batch-set_state r.batch_id r.target r.now db.batches p.batch p.found),
        λ other n.
            rw (after-batches Row Rest sha256 keccak r db after response p)
              (find_batch-set_state_other r.batch_id other r.target r.now db.batches n),
        after-audit Row Rest sha256 keccak r db after response p,
      )

  -- A retry of a request that recorded a stage answers the stored response and changes nothing.
  pub record_stage_replays :
      (r : StageRequest Row Rest) (db after : Store Row Rest) (response : Response)
      → record_stage Row Rest sha256 keccak r db ≡ ok (recorded response, after)
      → record_stage Row Rest sha256 keccak r after ≡ ok (replayed response, after)
  unfolding record_stage
  record_stage_replays r db after response h =
      let p = Passed-of_record_stage Row Rest sha256 keccak r db after response h in
      rw (after-keys Row Rest sha256 keccak r db after response p) rw
        ((begin-finish sha256 r.idempotency_key r.actor.id r.body [] db.keys p.keys response
          p.begun).0)
        refl
