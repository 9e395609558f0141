-- ===== src/Verify/Blocks.antt =====
-- The loop of `verify_batch` over the blocks.
use mathlib.Core.Path.{subst}
use apichain_backend.Base.{ℕ, ◌≡◌, ap, Option, List, [], ◌∷◌, map, refl}
use apichain_backend.Base.Bytes.{Bytes}
use apichain_backend.Base.Result.{Result, ok, err, ◌>>=◌, >>=-eq-ok}
use apichain_backend.Canonical.Text.{Text, codes, decimal}
use apichain_backend.Anchoring.Proofs.{ProofEntry, entries_for_subject}
use apichain_backend.Anchoring.Stamp.{MerkleAnchor}
use apichain_backend.Audit.Content.{AuditRow}
use apichain_backend.Verify.Public.{Block}
use apichain_backend.Verify.Match.{
  found_of, StageRows, StageCheck, Failure, check_block, recorded, audit_action, verify_blocks,
  BatchVerification, verify_batch, stage_models, verification_of, anchor_call,
}

-- The block that an answer is about.
abbrev pub block_of : Block × Option StageCheck → Block
block_of (block, found) = block

-- What holds of every block, whether it is reached or not.
abbrev pub AllBlocks :
    (Block → Option StageCheck → Type 0) → List (Block × Option StageCheck) → Type 0
AllBlocks P [] = Unit
AllBlocks P ((block, found) ∷ checks) = P block found × AllBlocks P checks

-- One answer for each block, in order, with what holds of it.
abbrev Answers :
    (Block → Option StageCheck → Type 0) → List Block → List (Block × Option StageCheck) → Type 0
Answers P blocks checks = AllBlocks P checks × (map block_of checks ≡ blocks)

pub ok-eq : {A : Type 0} {a b : A} → ◌≡◌ {A = Result Failure A} (ok a) (ok b) → a ≡ b
ok-eq e = cc

module _ (sha256 keccak : Bytes → Bytes) (lower : Text → Text) where
  -- What holds of each round holds of all that `verify_blocks` returns.
  pub AllBlocks-verify_blocks :
      (P : Block → Option StageCheck → Type 0) (batch_id : ℕ) (stages : StageRows)
      (rows : List AuditRow) (entries : List ProofEntry) (blocks : List Block)
      (checks : List (Block × Option StageCheck))
      → ((block : Block) (check : Option StageCheck)
          → check_block keccak entries block
              (found_of lower stages block)
              (recorded sha256 keccak lower batch_id rows (audit_action block))
            ≡ ok check
          → P block check)
      → verify_blocks sha256 keccak lower batch_id stages rows entries blocks ≡ ok checks
      → AllBlocks P checks × (map block_of checks ≡ blocks)
  unfolding verify_blocks
  AllBlocks-verify_blocks P batch_id stages rows entries [] checks each h =
      let start : Answers P [] [] = (tt, refl) in subst (Answers P []) (ok-eq h) start
  AllBlocks-verify_blocks P batch_id stages rows entries (block ∷ blocks) checks each h =
      let (found, f, g) = >>=-eq-ok _ _ h in
      let (later, f', g') = >>=-eq-ok _ _ g in
      let (rest, order) =
        AllBlocks-verify_blocks P batch_id stages rows entries blocks later each f' in
      let all : Answers P (block ∷ blocks) ((block, found) ∷ later) =
        ((each block found f, rest), ap (λ bs. block ∷ bs) order) in
      subst (Answers P (block ∷ blocks)) (ok-eq g') all

  -- The blocks that `verify_batch` returns are those of the loop.
  pub verify_batch-verify_blocks :
      (batch_id : ℕ) (stages : StageRows) (anchors : List MerkleAnchor) (rows : List AuditRow)
      (v : BatchVerification)
      → verify_batch sha256 keccak lower batch_id stages anchors rows ≡ ok v
      → (entries : List ProofEntry) × (verify_blocks sha256 keccak lower batch_id stages rows
            entries stage_models
          ≡ ok v.blocks)
  unfolding verify_batch
  verify_batch-verify_blocks batch_id stages anchors rows v h =
      outer
        (anchor_call (entries_for_subject sha256 anchors rows (codes "batch") (decimal batch_id))) h
    where
      inner :
          (entries : List ProofEntry) (call : Result Failure (List (Block × Option StageCheck)))
          → (call >>= λ blocks.
              ok (verification_of sha256 keccak lower batch_id stages rows entries blocks))
            ≡ ok v
          → call ≡ ok v.blocks
      inner entries (err e) q = cc
      inner entries (ok blocks) q = ap (λ (w : BatchVerification). ok w.blocks) (ok-eq q)

      outer :
          (call : Result Failure (List ProofEntry))
          → (call >>= λ entries.
              verify_blocks sha256 keccak lower batch_id stages rows entries stage_models
              >>= λ blocks.
                  ok (verification_of sha256 keccak lower batch_id stages rows entries blocks))
            ≡ ok v
          → (entries : List ProofEntry) × (verify_blocks sha256 keccak lower batch_id stages rows
                entries stage_models
              ≡ ok v.blocks)
      outer (err e) q = cc
      outer (ok entries) q = (entries, inner entries _ q)
