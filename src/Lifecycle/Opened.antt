-- ===== src/Lifecycle/Opened.antt =====
-- `create_batch` of app/routers/batches.py: the guards that a creation has passed.
use apichain_backend.Base.{
  ◌≡◌, refl, true, false, Option, none, some, List, [], ◌==◌, Bool-cases, inl, inr,
}
use apichain_backend.Base.Bytes.{Bytes}
use apichain_backend.Base.Result.{Result, ok, err, ◌>>=◌, >>=-eq-ok}
use apichain_backend.Canonical.Text.{Text}
use apichain_backend.Access.Errors.{Refusal, apiary_farmer_mismatch, batch_code_taken}
use apichain_backend.Access.Roles.{User, batch_create, requires}
use apichain_backend.Access.Ownership.{Farmer, assert_acts_for_farmer}
use apichain_backend.Lifecycle.Idempotency.{Response, IdempotencyKey, Begun, claimed, replay, begin}
use apichain_backend.Lifecycle.Writer.{Reply, recorded}
use apichain_backend.Lifecycle.Create.{
  ApiaryLocation, find_farmer, find_apiary, is_code_taken, CreateRequest, code_of, Registry, create,
  on_apiary, on_farmer, on_key, create_batch,
}

module _ (Row Rest : Type 0) (sha256 keccak : Bytes → Bytes) (lower : Text → Text) where
  -- What a creation has passed.
  pub record Opened (r : CreateRequest) (registry after : Registry Row Rest) (response : Response)
      (actor : User) : Type 0 where
    pub keys : List IdempotencyKey
    pub farmer : Farmer
    pub apiary : ApiaryLocation
    pub found : find_farmer r.farmer_id registry.store.farmers ≡ some farmer
    pub acts : assert_acts_for_farmer registry.store.farmers actor farmer.id ≡ ok tt
    pub located : find_apiary r.apiary_id registry.apiaries ≡ some apiary
    pub owned : (apiary.farmer_id == farmer.id) ≡ true
    pub fresh : is_code_taken (code_of r.batch_code r.generated_code) registry.store.batches ≡ false
    pub done :
        create Row Rest sha256 keccak lower r registry keys actor farmer apiary
        ≡ (recorded response, after)

  Opened-on_apiary :
      (r : CreateRequest) (registry after : Registry Row Rest) (response : Response)
      (keys : List IdempotencyKey) (actor : User) (farmer : Farmer) (at : Option ApiaryLocation)
      → find_farmer r.farmer_id registry.store.farmers ≡ some farmer
      → assert_acts_for_farmer registry.store.farmers actor farmer.id ≡ ok tt
      → find_apiary r.apiary_id registry.apiaries ≡ at
      → on_apiary Row Rest sha256 keccak lower r registry keys actor farmer at
        ≡ ok (recorded response, after)
      → Opened r registry after response actor
  Opened-on_apiary r registry after response keys actor farmer none f a l h = cc
  Opened-on_apiary r registry after response keys actor farmer (some apiary) f a l h =
      elim (Bool-cases (apiary.farmer_id == farmer.id)) [
        | inr other ↦ absurd (let e = rw other at h in mismatch e)
        | inl own ↦
            elim (Bool-cases
              (is_code_taken (code_of r.batch_code r.generated_code) registry.store.batches)) [
                | inl taken ↦ absurd (let e = rw (own, taken) at h in duplicate e)
                | inr free ↦
                    (let e = rw (own, free) at h in
                      record {
                        keys = keys;
                        farmer = farmer;
                        apiary = apiary;
                        found = f;
                        acts = a;
                        located = l;
                        owned = own;
                        fresh = free;
                        done = ok-eq e;
                      })
              ]
      ]
    where
      mismatch :
          Path
            (Result Refusal (Reply Row Rest × Registry Row Rest))
            (err apiary_farmer_mismatch)
            (ok (recorded response, after))
          → ⊥
      mismatch e = cc

      duplicate :
          Path
            (Result Refusal (Reply Row Rest × Registry Row Rest))
            (err batch_code_taken)
            (ok (recorded response, after))
          → ⊥
      duplicate e = cc

      ok-eq :
          {x y : Reply Row Rest × Registry Row Rest}
          → Path (Result Refusal (Reply Row Rest × Registry Row Rest)) (ok x) (ok y)
          → x ≡ y
      ok-eq e = cc

  Opened-on_farmer :
      (r : CreateRequest) (registry after : Registry Row Rest) (response : Response)
      (keys : List IdempotencyKey) (actor : User) (at : Option Farmer)
      → find_farmer r.farmer_id registry.store.farmers ≡ at
      → on_farmer Row Rest sha256 keccak lower r registry keys actor at
        ≡ ok (recorded response, after)
      → Opened r registry after response actor
  Opened-on_farmer r registry after response keys actor none f h = cc
  Opened-on_farmer r registry after response keys actor (some farmer) f h =
      let (u, acts, rest) =
        >>=-eq-ok (assert_acts_for_farmer registry.store.farmers actor farmer.id)
          (λ _.
            on_apiary Row Rest sha256 keccak lower r registry keys actor farmer
              (find_apiary r.apiary_id registry.apiaries))
          h in
      Opened-on_apiary r registry after response keys actor farmer
        (find_apiary r.apiary_id registry.apiaries) f acts refl rest

  Opened-on_key :
      (r : CreateRequest) (registry after : Registry Row Rest) (response : Response) (actor : User)
      (begun : Begun)
      → on_key Row Rest sha256 keccak lower r registry actor begun ≡ ok (recorded response, after)
      → Opened r registry after response actor
  Opened-on_key r registry after response actor (replay old) h = cc
  Opened-on_key r registry after response actor (claimed keys) h =
      Opened-on_farmer r registry after response keys actor
        (find_farmer r.farmer_id registry.store.farmers) refl h

  pub Opened-create_batch :
      (r : CreateRequest) (registry after : Registry Row Rest) (response : Response)
      → create_batch Row Rest sha256 keccak lower r registry ≡ ok (recorded response, after)
      → (actor : User) × (requires batch_create r.found ≡ ok actor)
        × Opened r registry after response actor
  unfolding create_batch
  Opened-create_batch r registry after response h =
      let (actor, admitted, rest) =
        >>=-eq-ok (requires batch_create r.found)
          (λ actor.
            begin sha256 r.idempotency_key actor.id r.body [] registry.store.keys >>= λ begun.
            on_key Row Rest sha256 keccak lower r registry actor begun)
          h in
      let (begun, b, on) =
        >>=-eq-ok (begin sha256 r.idempotency_key actor.id r.body [] registry.store.keys)
          (λ begun. on_key Row Rest sha256 keccak lower r registry actor begun) rest in
      (actor, admitted, Opened-on_key r registry after response actor begun on)
