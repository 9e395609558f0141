-- ===== src/Lifecycle/CreateLaws.antt =====
-- `create_batch` of app/routers/batches.py: what a creation leaves.
use apichain_backend.Base.{
  ℕ, ◌+◌, ◌≡◌, sym, ap, ◌∙◌, false, some, ◌∷◌, ◌==◌, arith, length, Bool-cases, inl, inr, ==_iff,
}
use apichain_backend.Base.Bytes.{Bytes}
use apichain_backend.Base.Result.{ok}
use apichain_backend.Canonical.Text.{Text, codes}
use apichain_backend.Audit.Append.{AuditTable, append, length_rows-append}
use apichain_backend.Access.Roles.{User, batch_create, requires}
use apichain_backend.Access.Ownership.{Farmer, assert_acts_for_farmer}
use apichain_backend.Lifecycle.States.{BatchState, created, is_reached}
use apichain_backend.Lifecycle.Idempotency.{Response}
use apichain_backend.Lifecycle.Payloads.{ApiaryRecord, BatchMetadata, apiary_record, batch_metadata}
use apichain_backend.Lifecycle.Writer.{HoneyBatch, find_batch, has_stage, Reply, recorded}
use apichain_backend.Lifecycle.Passed.{some-eq}
use apichain_backend.Lifecycle.Consistency.{IsConsistent}
use apichain_backend.Lifecycle.Create.{
  ApiaryLocation, find_farmer, find_apiary, is_code_taken, CreateRequest, code_of, Registry,
  new_batch, snapshot, creation_entry, created_payload, append_creation, create, create_batch,
}
use apichain_backend.Lifecycle.Opened.{Opened-create_batch}

module _ (Row Rest : Type 0) (sha256 keccak : Bytes → Bytes) (lower : Text → Text) where
  length_rows-append_creation :
      (r : CreateRequest) (actor : User) (farmer : Farmer) (apiary : ApiaryRecord)
      (metadata : BatchMetadata) (id : ℕ) (audit : AuditTable)
      → length
          (append_creation Row Rest sha256 keccak lower r actor farmer apiary metadata id
            audit).rows
        ≡ length audit.rows + 3
  unfolding append_creation
  length_rows-append_creation r actor farmer apiary metadata id audit =
      let one =
        append keccak audit
          (creation_entry Row Rest r actor id (codes "batch.created")
            (created_payload Row Rest farmer))
          r.created_at in
      let two =
        append keccak one.0
          (creation_entry Row Rest r actor id (codes "batch.apiary_recorded")
            (apiary_record apiary))
          r.apiary_at in
      omega (
        arith,
        length_rows-append keccak audit
            (creation_entry Row Rest r actor id (codes "batch.created")
              (created_payload Row Rest farmer))
            r.created_at,
        length_rows-append keccak one.0
            (creation_entry Row Rest r actor id (codes "batch.apiary_recorded")
              (apiary_record apiary))
            r.apiary_at,
        length_rows-append keccak two.0
            (creation_entry Row Rest r actor id (codes "batch.metadata_recorded")
              (batch_metadata lower metadata))
            r.metadata_at,
      )

  -- A request that creates a batch was admitted, named a farmer that its actor may act for and an
  -- apiary of that farmer, and chose a code that no batch has: afterwards the store has one more
  -- batch, in the first state, with a snapshot of that apiary and three more audit rows.
  pub create_batch_opens :
      (r : CreateRequest) (registry after : Registry Row Rest) (response : Response)
      → create_batch Row Rest sha256 keccak lower r registry ≡ ok (recorded response, after)
      → (actor : User) × (farmer : Farmer) × (apiary : ApiaryLocation) × (requires batch_create
            r.found
          ≡ ok actor)
        × (find_farmer r.farmer_id registry.store.farmers ≡ some farmer)
        × (assert_acts_for_farmer registry.store.farmers actor farmer.id ≡ ok tt)
        × (find_apiary r.apiary_id registry.apiaries ≡ some apiary)
        × (apiary.farmer_id ≡ farmer.id)
        × (is_code_taken (code_of r.batch_code r.generated_code) registry.store.batches ≡ false)
        × (after.store.batches
            ≡ new_batch Row Rest r farmer registry.next_batch_id ∷ registry.store.batches)
        × (after.apiary_records
            ≡ snapshot Row Rest apiary registry.next_batch_id ∷ registry.apiary_records)
        × (length after.store.audit.rows ≡ length registry.store.audit.rows + 3)
  unfolding create
  create_batch_opens r registry after response h =
      let (actor, admitted, o) =
        Opened-create_batch Row Rest sha256 keccak lower r registry after response h in
      let left = ap (λ (t : Reply Row Rest × Registry Row Rest). t.1) (sym o.done) in
      (
        actor,
        o.farmer,
        o.apiary,
        admitted,
        o.found,
        o.acts,
        o.located,
        (==_iff o.apiary.farmer_id o.farmer.id).0 o.owned,
        o.fresh,
        ap (λ (t : Registry Row Rest). t.store.batches) left,
        ap (λ (t : Registry Row Rest). t.apiary_records) left,
        ap (λ (t : Registry Row Rest). length t.store.audit.rows) left
            ∙ length_rows-append_creation r actor o.farmer
                (snapshot Row Rest o.apiary registry.next_batch_id)
                (record r.metadata { batch_id = registry.next_batch_id; recorded_at = r.now })
                registry.next_batch_id registry.store.audit,
      )

  nothing_reached : (stage : BatchState) → false ≡ is_reached created stage
  nothing_reached stage = ground arith

  -- A created batch keeps the store consistent, when no stage row already refers to the id that the
  -- sequence hands out.
  pub create_batch-IsConsistent :
      (r : CreateRequest) (registry after : Registry Row Rest) (response : Response)
      → create_batch Row Rest sha256 keccak lower r registry ≡ ok (recorded response, after)
      → ((stage : BatchState)
          → has_stage Row Rest stage registry.next_batch_id registry.store.stages ≡ false)
      → IsConsistent Row Rest sha256 keccak registry.store
      → IsConsistent Row Rest sha256 keccak after.store
  unfolding create find_batch
  create_batch-IsConsistent r registry after response h unused c =
      let (actor, admitted, o) =
        Opened-create_batch Row Rest sha256 keccak lower r registry after response h in
      let left = ap (λ (t : Reply Row Rest × Registry Row Rest). t.1.store) (sym o.done) in
      rw left (record {
        stage_rows = λ id batch stage f. elim (Bool-cases (registry.next_batch_id == id)) [
          | inl y ↦
              ap (λ i. has_stage Row Rest stage i registry.store.stages)
                (sym ((==_iff registry.next_batch_id id).0 y))
              ∙ unused stage
              ∙ nothing_reached stage
              ∙ ap (λ (b : HoneyBatch). is_reached b.state stage)
                  (some-eq (new_batch Row Rest r o.farmer registry.next_batch_id) batch (rw y at f))
          | inr n ↦ c.stage_rows id batch stage (rw n at f)
        ];
      })
