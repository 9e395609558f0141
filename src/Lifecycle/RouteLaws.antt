-- ===== src/Lifecycle/RouteLaws.antt =====
-- The transition routes of app/routers/batches.py: who gets through, and what a lab result leaves.
use apichain_backend.Base.{
  ℕ, ◌≡◌, refl, sym, ap, ◌∙◌, true, false, Option, some, ◌∷◌, arith, inl, inr,
}
use apichain_backend.Base.Bytes.{Bytes}
use apichain_backend.Base.Result.{ok, err, ◌>>=◌, >>=-eq-ok}
use apichain_backend.Canonical.Text.{Text}
use apichain_backend.Canonical.Json.{Fields}
use apichain_backend.Codex.Rules.{kenya_v1, rule_set}
use apichain_backend.Codex.Score.{ConformanceReport, evaluate}
use apichain_backend.Access.Errors.{forbidden}
use apichain_backend.Access.Roles.{
  farmer, User, Action, batch_harvest_record, batch_process_record, batch_lab_verify, batch_package,
  batch_distribute, requires, current_user, current_user_pending_ok, action_roles, is_allowed,
}
use apichain_backend.Access.Ownership.{farmer_profile_id, assert_acts_for_farmer}
use apichain_backend.Access.Guards.{requires_iff, assert_acts_for_farmer_iff}
use apichain_backend.Lifecycle.States.{BatchState, created, harvested, next_state}
use apichain_backend.Lifecycle.Idempotency.{Response}
use apichain_backend.Lifecycle.Payloads.{
  HarvestRecord, ProcessRecord, LabResult, PackagingRecord, DistributionRecord,
}
use apichain_backend.Lifecycle.Writer.{
  HoneyBatch, find_batch, Store, Reply, recorded, advance, record_stage,
}
use apichain_backend.Lifecycle.Passed.{find_batch_id, Passed-of_record_stage, record_stage-advance}
use apichain_backend.Lifecycle.Steps.{record_stage_advances}
use apichain_backend.Lifecycle.Routes.{
  StageData, lab, from_row, default_report, conformance_row, score_and_record_conformance, Rest,
  Call, transition_route, stage_request, record_harvest, record_process, record_lab_result,
  record_packaging, record_distribution,
}

-- The report of the lab route is that of `evaluate` under the default version.
default_report-evaluate :
    (row : LabResult) → evaluate (from_row row) kenya_v1.version ≡ ok (default_report row)
unfolding evaluate rule_set
default_report-evaluate row = refl

requires_refused :
    (action : Action) (user : User)
    → user.is_active ≡ true
    → user.must_change_password ≡ false
    → is_allowed user.role (action_roles action) ≡ false
    → requires action (some user) ≡ err forbidden
unfolding requires current_user current_user_pending_ok
requires_refused action user active done refused = rw (active, done, refused) refl

created_of_next : (s : BatchState) → next_state s ≡ some harvested → s ≡ created
unfolding next_state
created_of_next s h = ground arith

module _ (sha256 keccak : Bytes → Bytes) (refresh : StageData → StageData) where
  transition_forbidden :
      (action : Action) (target : BatchState) (name : Text) (build_row : ℕ → StageData)
      (extra : Option (Rest → StageData → Rest × Fields)) (call : Call) (user : User)
      (db : Store StageData Rest)
      → call.found ≡ some user
      → user.is_active ≡ true
      → user.must_change_password ≡ false
      → is_allowed user.role (action_roles action) ≡ false
      → transition_route sha256 keccak refresh action target name build_row extra call db
        ≡ err forbidden
  unfolding transition_route
  transition_forbidden action target name build_row extra call user db found active done refused =
      rw (found) rw (requires_refused action user active done refused) refl

  transition_recorded :
      (action : Action) (target : BatchState) (name : Text) (build_row : ℕ → StageData)
      (extra : Option (Rest → StageData → Rest × Fields)) (call : Call) (user : User)
      (db after : Store StageData Rest) (response : Response)
      → call.found ≡ some user
      → transition_route sha256 keccak refresh action target name build_row extra call db
        ≡ ok (recorded response, after)
      → record_stage StageData Rest sha256 keccak
          (stage_request sha256 keccak refresh target name build_row extra call user)
          db
        ≡ ok (recorded response, after)
  unfolding transition_route
  transition_recorded action target name build_row extra call user db after response found h =
      let (actor, admitted, done) =
        >>=-eq-ok (requires action call.found)
          (λ actor.
            record_stage StageData Rest sha256 keccak
              (stage_request sha256 keccak refresh target name build_row extra call actor) db)
          h in
      let named = ((requires_iff action call.found actor).0 admitted).0 in
      let same : actor ≡ user = cc in
      ap
        (λ a.
          record_stage StageData Rest sha256 keccak
            (stage_request sha256 keccak refresh target name build_row extra call a) db)
        (sym same)
      ∙ done

  -- Whether a transition is recorded does not depend on the row that it builds.
  transition_repeated :
      (action : Action) (target : BatchState) (name : Text) (build_row other_row : ℕ → StageData)
      (extra : Option (Rest → StageData → Rest × Fields)) (call : Call)
      (db after : Store StageData Rest) (response : Response)
      → transition_route sha256 keccak refresh action target name build_row extra call db
        ≡ ok (recorded response, after)
      → (again : Response) × (store : Store StageData Rest) × (transition_route sha256 keccak
            refresh action target name other_row extra call db
          ≡ ok (recorded again, store))
  unfolding transition_route advance
  transition_repeated action target name build_row other_row extra call db after response h =
      let request = λ (row : ℕ → StageData) (actor : User).
        stage_request sha256 keccak refresh target name row extra call actor in
      let (actor, admitted, done) =
        >>=-eq-ok (requires action call.found)
          (λ actor. record_stage StageData Rest sha256 keccak (request build_row actor) db) h in
      let p =
        Passed-of_record_stage StageData Rest sha256 keccak (request build_row actor) db after
          response done in
      let passed : (requires action call.found >>= λ actor.
      record_stage StageData Rest sha256 keccak (request other_row actor) db)
          ≡ ok (advance StageData Rest sha256 keccak (request other_row actor) db p.keys p.batch) =
        ap
          (λ guard. guard >>= λ actor.
            record_stage StageData Rest sha256 keccak (request other_row actor) db)
          admitted
        ∙ (record_stage-advance StageData Rest sha256 keccak (request other_row actor) db p.keys
            p.batch p.begun p.found p.acts p.legal p.fresh) in
      (_, _, passed)

  -- A farmer's account never gets through the four later transitions: whatever the store holds, an
  -- active farmer with no password change pending is answered `forbidden`.
  pub later_stages_forbidden :
      (call : Call) (user : User) (db : Store StageData Rest) (p : ProcessRecord) (l : LabResult)
      (k : PackagingRecord) (d : DistributionRecord)
      → call.found ≡ some user
      → user.is_active ≡ true
      → user.must_change_password ≡ false
      → user.role ≡ farmer
      → (record_process sha256 keccak refresh p call db ≡ err forbidden)
        × (record_lab_result sha256 keccak refresh l call db ≡ err forbidden)
        × (record_packaging sha256 keccak refresh k call db ≡ err forbidden)
        × (record_distribution sha256 keccak refresh d call db ≡ err forbidden)
  unfolding record_process record_lab_result record_packaging record_distribution action_roles
  later_stages_forbidden call user db p l k d found active done is_farmer = (
    transition_forbidden batch_process_record _ _ _ _ call user db found active done
        (rw is_farmer refl),
    transition_forbidden batch_lab_verify _ _ _ _ call user db found active done
        (rw is_farmer refl),
    transition_forbidden batch_package _ _ _ _ call user db found active done (rw is_farmer refl),
    transition_forbidden batch_distribute _ _ _ _ call user db found active done
        (rw is_farmer refl),
  )

  -- A harvest that a farmer's account records is of a batch that had no stage yet and that belongs to
  -- the farmer profile of this account.
  pub record_harvest_owned :
      (body : HarvestRecord) (call : Call) (user : User) (db after : Store StageData Rest)
      (response : Response)
      → call.found ≡ some user
      → user.role ≡ farmer
      → record_harvest sha256 keccak refresh body call db ≡ ok (recorded response, after)
      → (batch : HoneyBatch) × (find_batch call.batch_id db.batches ≡ some batch)
        × (batch.state ≡ created)
        × (farmer_profile_id db.farmers user ≡ some batch.farmer_id)
  unfolding record_harvest
  record_harvest_owned body call user db after response found is_farmer h =
      let done =
        transition_recorded batch_harvest_record harvested _ _ _ call user db after response found
          h in
      let step = record_stage_advances StageData Rest sha256 keccak _ db after response done in
      (step.0, step.1, created_of_next step.0.state step.3, own step.0.farmer_id step.2)
    where
      own :
          (farmer_id : ℕ)
          → assert_acts_for_farmer db.farmers user farmer_id ≡ ok tt
          → farmer_profile_id db.farmers user ≡ some farmer_id
      own farmer_id acts = elim ((assert_acts_for_farmer_iff db.farmers user farmer_id).0 acts) [
        | inl staff ↦ absurd (staff is_farmer)
        | inr mine ↦ mine
      ]

  -- A recorded lab result leaves one more conformance row, for the batch of the lab row that the database
  -- stored, with the verdict of `evaluate` under the default version on the measurements of this row. The
  -- measurements play no part in whether it is recorded: where one panel is recorded, the same call with
  -- any other panel is recorded too.
  pub record_lab_result_scored :
      (body stored other : LabResult) (call : Call) (user : User) (db after : Store StageData Rest)
      (response : Response)
      → call.found ≡ some user
      → refresh (lab (record body { batch_id = call.batch_id })) ≡ lab stored
      → record_lab_result sha256 keccak refresh body call db ≡ ok (recorded response, after)
      → ((report : ConformanceReport) × (evaluate (from_row stored) kenya_v1.version ≡ ok report)
          × (after.rest ≡ conformance_row stored.batch_id report ∷ db.rest))
        × ((again : Response) × (store : Store StageData Rest) × (record_lab_result sha256 keccak
                refresh other call db
              ≡ ok (recorded again, store)))
  unfolding record_lab_result score_and_record_conformance advance
  record_lab_result_scored body stored other call user db after response found kept h =
      let done = transition_recorded batch_lab_verify _ _ _ _ call user db after response found h in
      let p = Passed-of_record_stage StageData Rest sha256 keccak _ db after response done in
      let stored_row =
        ap (λ i. refresh (lab (record body { batch_id = i })))
          (find_batch_id call.batch_id db.batches p.batch p.found)
        ∙ kept in
      (
        (
          default_report stored,
          default_report-evaluate stored,
          sym (ap (λ (o : Reply StageData Rest × Store StageData Rest). o.1.rest) p.done)
              ∙ ap (λ row. (score_and_record_conformance db.rest row).0) stored_row,
        ),
        transition_repeated batch_lab_verify _ _ _ _ _ call db after response h,
      )
