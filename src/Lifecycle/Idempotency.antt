-- ===== src/Lifecycle/Idempotency.antt =====
-- app/services/idempotency.py: reserve a key, replay a finished response, refuse the rest. The table
-- is the rows by `(key, actor_id)`; `sha256` is a parameter.
use apichain_backend.Base.{
  sym, ℕ, ◌≡◌, refl, Bool, true, false, ◌&&◌, not, Option, none, some, List, [], ◌∷◌, ◌==◌, arith,
  if◌then◌else◌,
}
use apichain_backend.Base.Bytes.{Bytes, bytes_eq, bytes_eq_refl}
use apichain_backend.Base.Result.{Result, ok, err}
use apichain_backend.Canonical.Text.{Text, hex}
use apichain_backend.Canonical.Json.{Json, obj, Fields, end, field, canonical_bytes}
use apichain_backend.Access.Errors.{Refusal, idempotency_conflict}

pub record Response : Type 0 where
  pub status_code : ℕ
  pub body : Json

pub record IdempotencyKey : Type 0 where
  pub key : Text
  pub actor_id : ℕ
  pub request_fingerprint : Text
  pub response : Option Response

abbrev pub is_row : Text → ℕ → IdempotencyKey → Bool
is_row key actor_id row = bytes_eq row.key key && row.actor_id == actor_id

unfoldable pub find_row : Text → ℕ → List IdempotencyKey → Option IdempotencyKey
find_row key actor_id [] = none
find_row key actor_id (row ∷ rows) =
    if is_row key actor_id row then some row else find_row key actor_id rows

abbrev pub is_excluded : Text → List Text → Bool
is_excluded k [] = false
is_excluded k (e ∷ exclude) = if bytes_eq e k then true else is_excluded k exclude

-- The keys of a body that the fingerprint covers.
unfoldable pub keep_fields : List Text → Fields → Fields
keep_fields exclude end = end
keep_fields exclude (field k v fs) =
    if is_excluded k exclude then keep_fields exclude fs else field k v (keep_fields exclude fs)

-- The row that a reservation inserts.
abbrev pub reservation : Text → ℕ → Text → IdempotencyKey
reservation key actor_id fingerprint = record {
  key = key;
  actor_id = actor_id;
  request_fingerprint = fingerprint;
  response = none;
}

-- What an existing row decides: replay a finished response of the same request, refuse otherwise.
unfoldable pub decide_existing : Text → IdempotencyKey → Result Refusal Response
decide_existing fingerprint row =
    if not (bytes_eq row.request_fingerprint fingerprint)
    then err idempotency_conflict
    else (elim row.response [ none ↦ err idempotency_conflict | some response ↦ ok response ])

-- The handle: the claimed table, or the response to replay.
pub data Begun : Type 0 where
  claimed : List IdempotencyKey → Begun
  replay : Response → Begun

abbrev pub replay_of : Result Refusal Response → Result Refusal Begun
replay_of (ok response) = ok (replay response)
replay_of (err e) = err e

-- The body of `begin` once the insert has met, or not met, a row under the same key and actor.
abbrev pub begin_found :
    Text → ℕ → Text → List IdempotencyKey → Option IdempotencyKey → Result Refusal Begun
begin_found key actor_id fingerprint rows none =
    ok (claimed (reservation key actor_id fingerprint ∷ rows))
begin_found key actor_id fingerprint rows (some existing) =
    replay_of (decide_existing fingerprint existing)

-- `finish`
unfoldable pub finish : Text → ℕ → Response → List IdempotencyKey → List IdempotencyKey
finish key actor_id response [] = []
finish key actor_id response (row ∷ rows) =
    (if is_row key actor_id row then record row { response = some response } else row)
    ∷ finish key actor_id response rows

claimed_of_begin_found :
    (key : Text) (actor_id : ℕ) (fingerprint : Text) (rows : List IdempotencyKey)
    (found : Option IdempotencyKey) (claimed_rows : List IdempotencyKey)
    → begin_found key actor_id fingerprint rows found ≡ ok (claimed claimed_rows)
    → reservation key actor_id fingerprint ∷ rows ≡ claimed_rows
claimed_of_begin_found key actor_id fingerprint rows none claimed_rows h = cc
claimed_of_begin_found key actor_id fingerprint rows (some existing) claimed_rows h =
    go (decide_existing fingerprint existing) h
  where
    go :
        (r : Result Refusal Response)
        → replay_of r ≡ ok (claimed claimed_rows)
        → reservation key actor_id fingerprint ∷ rows ≡ claimed_rows
    go (ok response) e = cc
    go (err e) f = cc

is_row_self : (key : Text) (actor_id : ℕ) → (bytes_eq key key && actor_id == actor_id) ≡ true
is_row_self key actor_id = rw (bytes_eq_refl key) ground arith

-- The row that `begin` claimed and `finish` closed is the row that a later lookup finds.
find_row-finish :
    (key : Text) (actor_id : ℕ) (fingerprint : Text) (rows : List IdempotencyKey)
    (response : Response)
    → find_row key actor_id
        (finish key actor_id response (reservation key actor_id fingerprint ∷ rows))
      ≡ some (record {
        key = key;
        actor_id = actor_id;
        request_fingerprint = fingerprint;
        response = some response;
      })
unfolding find_row finish
find_row-finish key actor_id fingerprint rows response =
    rw (is_row_self key actor_id) rw (is_row_self key actor_id) refl

replay_of_refusal : (r : Result Refusal Response) (e : Refusal) → replay_of r ≡ err e → r ≡ err e
replay_of_refusal (ok response) e h = cc
replay_of_refusal (err f) e h = cc

decide_existing_refusal :
    (fingerprint : Text) (row : IdempotencyKey) (e : Refusal)
    → decide_existing fingerprint row ≡ err e
    → e ≡ idempotency_conflict
unfolding decide_existing
decide_existing_refusal fingerprint row e h = ground arith

begin_found_refusal :
    (key : Text) (actor_id : ℕ) (fingerprint : Text) (rows : List IdempotencyKey)
    (found : Option IdempotencyKey) (e : Refusal)
    → begin_found key actor_id fingerprint rows found ≡ err e
    → e ≡ idempotency_conflict
begin_found_refusal key actor_id fingerprint rows none e h = cc
begin_found_refusal key actor_id fingerprint rows (some row) e h =
    decide_existing_refusal fingerprint row e
      (replay_of_refusal (decide_existing fingerprint row) e h)

module _ (sha256 : Bytes → Bytes) where
  unfoldable pub fingerprint_of : List Text → Fields → Text
  unfolding hex canonical_bytes keep_fields
  fingerprint_of exclude body = hex (sha256 (canonical_bytes (obj (keep_fields exclude body))))

  unfoldable pub begin : Text → ℕ → Fields → List Text → List IdempotencyKey → Result Refusal Begun
  begin key actor_id body exclude rows =
      begin_found key actor_id (fingerprint_of exclude body) rows (find_row key actor_id rows)

  -- `completed`
  unfoldable pub completed : Text → ℕ → List IdempotencyKey → Bool
  completed key actor_id rows = elim (find_row key actor_id rows) [
    | none ↦ false
    | some row ↦ elim row.response [ none ↦ false | some _ ↦ true ]
  ]

  -- A request that was claimed and finished is replayed: a second `begin` with the same key, actor
  -- and body answers the stored response, and one with a body of another fingerprint is refused.
  pub begin-finish :
      (key : Text) (actor_id : ℕ) (body : Fields) (exclude : List Text)
      (rows claimed_rows : List IdempotencyKey) (response : Response)
      → begin key actor_id body exclude rows ≡ ok (claimed claimed_rows)
      → (begin key actor_id body exclude (finish key actor_id response claimed_rows)
          ≡ ok (replay response))
        × ((other : Fields)
            → bytes_eq (fingerprint_of exclude body) (fingerprint_of exclude other) ≡ false
            → begin key actor_id other exclude (finish key actor_id response claimed_rows)
              ≡ err idempotency_conflict)
  unfolding begin decide_existing
  begin-finish key actor_id body exclude rows claimed_rows response h =
      rw
        (sym (
          claimed_of_begin_found key actor_id (fingerprint_of exclude body) rows
            (find_row key actor_id rows) claimed_rows h))
        rw (find_row-finish key actor_id (fingerprint_of exclude body) rows response)
        (rw (bytes_eq_refl (fingerprint_of exclude body)) refl, λ other differs. rw differs refl)

  pub begin_refusal :
      (key : Text) (actor_id : ℕ) (body : Fields) (exclude : List Text) (rows : List IdempotencyKey)
      (e : Refusal)
      → begin key actor_id body exclude rows ≡ err e
      → e ≡ idempotency_conflict
  unfolding begin
  begin_refusal key actor_id body exclude rows e h =
      begin_found_refusal key actor_id (fingerprint_of exclude body) rows
        (find_row key actor_id rows) e h
