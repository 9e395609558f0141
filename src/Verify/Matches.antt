-- ===== src/Verify/Matches.antt =====
-- The answer to a block, against its stage row and the audit rows of its stage.
use mathlib.Core.Path.{subst}
use apichain_backend.Base.{
  ℕ, ◌≡◌, refl, sym, ap, ◌∙◌, true, false, Option, none, some, List, [], ◌∷◌, map,
}
use apichain_backend.Base.Bytes.{Bytes}
use apichain_backend.Base.Result.{ok}
use apichain_backend.Canonical.Text.{Text, codes, decimal}
use apichain_backend.Canonical.Json.{Fields}
use apichain_backend.Anchoring.Stamp.{MerkleAnchor}
use apichain_backend.Anchoring.Proofs.{ProofEntry, is_subject}
use apichain_backend.Audit.Content.{AuditRow}
use apichain_backend.Audit.Chain.{verify_chain}
use apichain_backend.Verify.Public.{Block, field_policy, Shown, public_form, restricted}
use apichain_backend.Verify.Match.{
  StageRows, Found, no_row, row_with, found_of, StageCheck, shown_form, reached, make_check,
  check_block, is_action, recorded, audit_action, BatchVerification, verify_batch, stage_models,
}
use apichain_backend.Verify.Blocks.{
  AllBlocks, block_of, ok-eq, AllBlocks-verify_blocks, verify_batch-verify_blocks,
}
use apichain_backend.Verify.Matching.{
  Matched, Untouched, Intact, Matched-is_same, is_same-Untouched, Intact-Linked,
}

module _ (keccak : Bytes → Bytes) where
  -- A payload is shown in its public form, with the fields that this form changed.
  pub record Displayed (block : Block) (payload : Fields) (check : StageCheck) : Type 0 where
    pub shown : Fields
    pub changed : List Text
    pub form : public_form (field_policy block) payload ≡ some (shown, changed)
    pub displays : check.payload ≡ some shown
    pub names : check.redacted_fields ≡ changed

  -- What a check says of its block, and what it answers to an untouched one.
  pub record Faithful (block : Block) (found : Found) (audit_rows : List AuditRow)
      (check : StageCheck) : Type 0 where
    pub sound : check.is_match ≡ true → Matched keccak found audit_rows
    pub complete : Untouched keccak found audit_rows → check.is_match ≡ true
    pub shows : (payload : Fields) → found ≡ row_with (some payload) → Displayed block payload check
    pub hides : ((payload : Fields) → found ≡ row_with (some payload) → ⊥) → check.payload ≡ none

  -- What the answer to a block says of it; a block that is not reached has no row of either kind.
  abbrev pub FaithfulBlock : Block → Found → List AuditRow → Option StageCheck → Type 0
  FaithfulBlock block found audit_rows none = (found ≡ no_row) × (audit_rows ≡ [])
  FaithfulBlock block found audit_rows (some check) = Faithful block found audit_rows check

  row_with-eq : {p q : Option Fields} → row_with p ≡ row_with q → p ≡ q
  row_with-eq e = cc

  module _ (entries : List ProofEntry) where
    -- The check that is made of a shown payload.
    abbrev Made :
        Option Fields → List AuditRow → Option Fields → List Text → Option StageCheck → Type 0
    Made payload audit_rows shown changed check =
        reached (make_check keccak entries payload audit_rows (some (shown, changed))) ≡ ok check

    Faithful-deleted :
        (block : Block) (found : Found) (audit_rows : List AuditRow) (changed : List Text)
        (check : Option StageCheck)
        → ((payload : Fields) → found ≡ row_with (some payload) → ⊥)
        → Made none audit_rows none changed check
        → FaithfulBlock block found audit_rows check
    Faithful-deleted block found audit_rows changed check gone h =
        subst (FaithfulBlock block found audit_rows) (ok-eq h) (record {
          sound = λ q. absurd (never q);
          complete = λ u. absurd (gone u.payload u.rebuilt);
          shows = λ payload q. absurd (gone payload q);
          hides = λ q. refl;
        })
      where
        never : false ≡ true → ⊥
        never q = cc

    Faithful-shown :
        (block : Block) (payload : Fields) (audit_rows : List AuditRow) (check : Option StageCheck)
        (shown : Fields) (changed : List Text)
        → Intact keccak audit_rows
        → public_form (field_policy block) payload ≡ some (shown, changed)
        → Made (some payload) audit_rows (some shown) changed check
        → FaithfulBlock block (row_with (some payload)) audit_rows check
    Faithful-shown block payload audit_rows check shown changed w f h =
        subst (FaithfulBlock block (row_with (some payload)) audit_rows) (ok-eq h) (record {
          sound = λ q. Matched-is_same keccak (some payload) audit_rows w q;
          complete = λ u. is_same-Untouched keccak (some payload) audit_rows w u;
          shows = λ p q. record {
            shown = shown;
            changed = changed;
            form = ap (public_form (field_policy block)) (some-eq (sym (row_with-eq q))) ∙ f;
            displays = refl;
            names = refl;
          };
          hides = λ q. absurd (q payload refl);
        })
      where
        some-eq : {p q : Fields} → some p ≡ some q → p ≡ q
        some-eq e = cc

    Faithful-check_block :
        (block : Block) (found : Found) (audit_rows : List AuditRow) (check : Option StageCheck)
        → Intact keccak audit_rows
        → check_block keccak entries block found audit_rows ≡ ok check
        → FaithfulBlock block found audit_rows check
    unfolding check_block
    Faithful-check_block block no_row [] check w h =
        subst (FaithfulBlock block no_row []) (ok-eq h) (refl, refl)
    Faithful-check_block block no_row (row ∷ audit_rows) check w h =
        Faithful-deleted block no_row (row ∷ audit_rows) (restricted (field_policy block)) check
          (λ payload q. nowhere q) h
      where
        nowhere : {p : Option Fields} → no_row ≡ row_with p → ⊥
        nowhere q = cc
    Faithful-check_block block (row_with none) audit_rows check w h =
        Faithful-deleted block (row_with none) audit_rows (restricted (field_policy block)) check
          (λ payload q. nothing (row_with-eq q)) h
      where
        nothing : {p : Fields} → none ≡ some p → ⊥
        nothing q = cc
    Faithful-check_block block (row_with (some payload)) audit_rows check w h =
        go (public_form (field_policy block) payload) refl h
      where
        go :
            (o : Option Shown)
            → public_form (field_policy block) payload ≡ o
            → reached (make_check keccak entries (some payload) audit_rows (shown_form o))
              ≡ ok check
            → FaithfulBlock block (row_with (some payload)) audit_rows check
        go none f e = cc
        go (some (shown, changed)) f e =
            Faithful-shown block payload audit_rows check shown changed w f e

-- The three-way match, over an audit log that `verify_chain` accepts. `verify_batch` answers for the
-- seven blocks in order. A block is reported as not reached only when it has neither a stage row nor an
-- audit row for its stage. A block that is reported as matching has exactly one audit row for its stage,
-- and the payload that is rebuilt from the stage row prints as that audit row's payload, unless two texts
-- have one Keccak digest; and a block whose stage row still yields the payload of its one audit row is
-- reported as matching. A reported block shows the public form of the payload that is rebuilt from the
-- stage row, with the fields that this form changed, and no payload when none is rebuilt.
pub verify_batch-Faithful :
    (sha256 keccak : Bytes → Bytes) (lower : Text → Text) (batch_id : ℕ) (stages : StageRows)
    (anchors : List MerkleAnchor) (rows : List AuditRow) (v : BatchVerification)
    → (verify_chain keccak none none rows).is_ok ≡ true
    → verify_batch sha256 keccak lower batch_id stages anchors rows ≡ ok v
    → AllBlocks
        (λ block check.
          FaithfulBlock keccak block
            (found_of lower stages block)
            (recorded sha256 keccak lower batch_id rows (audit_action block))
            check)
        v.blocks
      × (map block_of v.blocks ≡ stage_models)
verify_batch-Faithful sha256 keccak lower batch_id stages anchors rows v chain h =
    let (entries, f) =
      verify_batch-verify_blocks sha256 keccak lower batch_id stages anchors rows v h in
    AllBlocks-verify_blocks sha256 keccak lower _ batch_id stages rows entries stage_models v.blocks
      (λ block check q.
        Faithful-check_block keccak entries block (found_of lower stages block)
          (recorded sha256 keccak lower batch_id rows (audit_action block)) check
          (Intact-Linked keccak rows (is_subject (codes "batch") (decimal batch_id))
            (is_action (audit_action block)) chain)
          q)
      f
