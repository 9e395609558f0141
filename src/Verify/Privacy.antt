-- ===== src/Verify/Privacy.antt =====
-- What the anonymous view of a block lets out.
use mathlib.Core.Path.{subst}
use apichain_backend.Base.{
  ℕ, ◌≡◌, ◌⊎◌, refl, sym, ap, ◌∙◌, true, false, map, not, Option, none, some, List, [], ◌∷◌, inl,
  inr,
}
use apichain_backend.Base.Bytes.{Bytes, eq_of_bytes_eq}
use apichain_backend.Base.Result.{Result, ok, err}
use apichain_backend.Canonical.Text.{Text, hex}
use apichain_backend.Canonical.Json.{Json, null, obj, Fields, compute_data_hash}
use apichain_backend.Anchoring.Proofs.{ProofEntry}
use apichain_backend.Anchoring.Stamp.{MerkleAnchor}
use apichain_backend.Audit.Content.{AuditRow}
use apichain_backend.Verify.Public.{
  Block, withhold, field_policy, get_rule, Shown, public_form, restricted,
}
use apichain_backend.Verify.Match.{
  Found, no_row, row_with, found_of, StageRows, StageCheck, Failure, shown_form, reached, map_row,
  first_row, is_same, shown_hash, make_check, check_block, is_empty, recorded, audit_action,
  BatchVerification, verify_batch, stage_models,
}
use apichain_backend.Verify.Forms.{HasField, public_form-exact, public_form-withheld}
use apichain_backend.Verify.Blocks.{
  AllBlocks, block_of, ok-eq, AllBlocks-verify_blocks, verify_batch-verify_blocks,
}

module _ (keccak : Bytes → Bytes) where
  -- A published recorded hash is the payload hash of the first audit row of the block's stage.
  pub record Recorded (block : Block) (found : Found) (audit_rows : List AuditRow)
      (check : StageCheck) (h : Text) : Type 0 where
    pub row : AuditRow
    pub later : List AuditRow
    pub rows : audit_rows ≡ row ∷ later
    pub printed : hex row.payload_hash ≡ h
    pub matching :
        check.is_match ≡ true
        → (payload : Fields) × (check.payload ≡ some payload)
          × (hex (compute_data_hash keccak (obj payload)) ≡ h)
    pub unreduced :
        ((payload : Fields) × (found ≡ row_with (some payload)) × (check.payload ≡ some payload))
        ⊎ ((check.payload ≡ none) × (restricted (field_policy block) ≡ []))

  -- What a check of a block publishes.
  pub record Published (block : Block) (found : Found) (audit_rows : List AuditRow)
      (check : StageCheck) : Type 0 where
    pub recomputed_exact :
        (h : Text)
        → check.recomputed_hash ≡ some h
        → (payload : Fields) × (found ≡ row_with (some payload))
          × (check.payload ≡ some payload)
          × (hex (compute_data_hash keccak (obj payload)) ≡ h)
    pub recorded_exact :
        (h : Text) → check.recorded_hash ≡ some h → Recorded block found audit_rows check h
    pub withheld_null :
        (shown : Fields) (key : Text) (value : Json)
        → check.payload ≡ some shown
        → get_rule (field_policy block) key ≡ withhold
        → HasField key value shown
        → value ≡ null

  -- What the answer to a block publishes; of one that is not reached, nothing.
  abbrev pub PublishedBlock : Block → Found → List AuditRow → Option StageCheck → Type 0
  PublishedBlock block found audit_rows none = Unit
  PublishedBlock block found audit_rows (some check) = Published block found audit_rows check

module _ (keccak : Bytes → Bytes) (entries : List ProofEntry) where
  shown_exact :
      (redacted : List Text) (hash : Option Bytes) (h : Text)
      → shown_hash (not (is_empty redacted)) hash ≡ some h
      → (is_empty redacted ≡ true) × (b : Bytes) × (hash ≡ some b) × (hex b ≡ h)
  shown_exact [] none h e = cc
  shown_exact [] (some b) h e = (refl, b, refl, inner e)
    where
      inner : some (hex b) ≡ some h → hex b ≡ h
      inner i = cc
  shown_exact (x ∷ redacted) none h e = cc
  shown_exact (x ∷ redacted) (some b) h e = cc

  empty_list : (xs : List Text) → is_empty xs ≡ true → xs ≡ []
  empty_list [] e = refl
  empty_list (x ∷ xs) e = cc

  -- The check that is made of a shown payload.
  abbrev Made : Option Fields → List AuditRow → Option Fields → List Text → StageCheck → Type 0
  Made payload audit_rows shown redacted check =
      make_check keccak entries payload audit_rows (some (shown, redacted)) ≡ ok check

  -- The row that a recorded hash is of.
  first_hash :
      (audit_rows : List AuditRow) (b : Bytes)
      → map_row (λ row. row.payload_hash) (first_row audit_rows) ≡ some b
      → (row : AuditRow) × (later : List AuditRow) × (audit_rows ≡ row ∷ later)
        × (row.payload_hash ≡ b)
  first_hash [] b e = cc
  first_hash (row ∷ later) b e = (row, later, refl, inner e)
    where
      inner : some row.payload_hash ≡ some b → row.payload_hash ≡ b
      inner i = cc

  -- A match is with the first audit row.
  same_hash :
      (payload : Fields) (audit_rows : List AuditRow) (row : AuditRow) (later : List AuditRow)
      → audit_rows ≡ row ∷ later
      → is_same (some (compute_data_hash keccak (obj payload))) audit_rows ≡ true
      → compute_data_hash keccak (obj payload) ≡ row.payload_hash
  same_hash payload [] row later e h = cc
  same_hash payload (r ∷ r' ∷ rest) row later e h = cc
  same_hash payload (r ∷ []) row later e h =
      eq_of_bytes_eq (compute_data_hash keccak (obj payload)) r.payload_hash h
      ∙ ap (λ (x : AuditRow). x.payload_hash) (head e)
    where
      head : r ∷ [] ≡ row ∷ later → r ≡ row
      head i = cc

  Published-deleted :
      (block : Block) (found : Found) (audit_rows : List AuditRow) (check : StageCheck)
      → Made none audit_rows none (restricted (field_policy block)) check
      → Published keccak block found audit_rows check
  Published-deleted block found audit_rows check e =
      subst (Published keccak block found audit_rows) (ok-eq e) (record {
        recomputed_exact = λ h q. absurd (nothing h q);
        recorded_exact = λ h q.
            let (whole, b, same, printed) = shown_exact (restricted (field_policy block)) _ h q in
            let (row, later, rows, is_b) = first_hash audit_rows b same in
            record {
              row = row;
              later = later;
              rows = rows;
              printed = ap hex is_b ∙ printed;
              matching = λ m. absurd (never m);
              unreduced = inr (refl, empty_list (restricted (field_policy block)) whole);
            };
        withheld_null = λ shown key value q w m. absurd (unseen shown q);
      })
    where
      nothing : (h : Text) → none ≡ some h → ⊥
      nothing h q = cc

      never : false ≡ true → ⊥
      never q = cc

      unseen : (shown : Fields) → none ≡ some shown → ⊥
      unseen shown q = cc

  Published-shown :
      (block : Block) (payload : Fields) (audit_rows : List AuditRow) (check : StageCheck)
      (shown : Fields) (changed : List Text)
      → public_form (field_policy block) payload ≡ some (shown, changed)
      → Made (some payload) audit_rows (some shown) changed check
      → Published keccak block (row_with (some payload)) audit_rows check
  Published-shown block payload audit_rows check shown changed f e =
      subst (Published keccak block (row_with (some payload)) audit_rows) (ok-eq e) (record {
        recomputed_exact = λ h q.
            let (whole, b, same, printed) = shown_exact changed _ h q in
            (payload, refl, exact_form whole, ap hex (inner same) ∙ printed);
        recorded_exact = λ h q.
            let (whole, b, same, printed) = shown_exact changed _ h q in
            let (row, later, rows, is_b) = first_hash audit_rows b same in
            record {
              row = row;
              later = later;
              rows = rows;
              printed = ap hex is_b ∙ printed;
              matching = λ m. (
                payload,
                exact_form whole,
                ap hex (same_hash payload audit_rows row later rows m ∙ is_b) ∙ printed,
              );
              unreduced = inl (payload, refl, exact_form whole);
            };
        withheld_null = λ fs key value q w m.
            public_form-withheld (field_policy block) payload shown changed key value f w
              (subst (HasField key value) (sym (inner q)) m);
      })
    where
      inner : {A : Type 0} {a b : A} → some a ≡ some b → a ≡ b
      inner i = cc

      exact_form : is_empty changed ≡ true → some shown ≡ some payload
      exact_form whole =
          ap some (public_form-exact (field_policy block) payload shown changed f whole)

  -- The block that is reached by a call.
  abbrev Reaches : Result Failure StageCheck → StageCheck → Type 0
  Reaches call check = reached call ≡ ok (some check)

  Reaches-inner :
      (call : Result Failure StageCheck) (check : StageCheck) → Reaches call check → call ≡ ok check
  Reaches-inner (err e) check h = cc
  Reaches-inner (ok c) check h = cc

  Published-check_block :
      (block : Block) (found : Found) (audit_rows : List AuditRow) (check : Option StageCheck)
      → check_block keccak entries block found audit_rows ≡ ok check
      → PublishedBlock keccak block found audit_rows check
  unfolding check_block
  Published-check_block block found audit_rows none h = tt
  Published-check_block block no_row [] (some check) h = cc
  Published-check_block block no_row (row ∷ audit_rows) (some check) h =
      Published-deleted block no_row (row ∷ audit_rows) check (Reaches-inner _ check h)
  Published-check_block block (row_with none) audit_rows (some check) h =
      Published-deleted block (row_with none) audit_rows check (Reaches-inner _ check h)
  Published-check_block block (row_with (some payload)) audit_rows (some check) h =
      go (public_form (field_policy block) payload) refl h
    where
      go :
          (o : Option Shown)
          → public_form (field_policy block) payload ≡ o
          → Reaches (make_check keccak entries (some payload) audit_rows (shown_form o)) check
          → Published keccak block (row_with (some payload)) audit_rows check
      go none f e = cc
      go (some (shown, changed)) f e =
          Published-shown block payload audit_rows check shown changed f (Reaches-inner _ check e)

module _ (sha256 keccak : Bytes → Bytes) (lower : Text → Text) where
  -- Of every block that `verify_batch` returns: a published recomputed hash is the hash of the shown
  -- payload, which is the whole payload of the stage row. A published recorded hash is the payload hash
  -- of the first audit row of the block's stage; the shown payload is then the whole payload of the stage
  -- row, or none is shown and the block has public fields only; and when the block is reported as
  -- matching, the recorded hash is the hash of the payload that is shown. A withheld field that is shown
  -- is null.
  pub verify_batch-Published :
      (batch_id : ℕ) (stages : StageRows) (anchors : List MerkleAnchor) (rows : List AuditRow)
      (v : BatchVerification)
      → verify_batch sha256 keccak lower batch_id stages anchors rows ≡ ok v
      → AllBlocks
          (λ block check.
            PublishedBlock keccak block
              (found_of lower stages block)
              (recorded sha256 keccak lower batch_id rows (audit_action block))
              check)
          v.blocks
        × (map block_of v.blocks ≡ stage_models)
  verify_batch-Published batch_id stages anchors rows v h =
      let (entries, f) =
        verify_batch-verify_blocks sha256 keccak lower batch_id stages anchors rows v h in
      AllBlocks-verify_blocks sha256 keccak lower _ batch_id stages rows entries stage_models
        v.blocks
        (λ block check q.
          Published-check_block keccak entries block (found_of lower stages block)
            (recorded sha256 keccak lower batch_id rows (audit_action block)) check q)
        f
