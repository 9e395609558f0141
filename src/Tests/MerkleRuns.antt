-- ===== src/Tests/MerkleRuns.antt =====
-- Runs of the tree of three row hashes.
use apichain_backend.Base.{◌≡◌, refl, true, ◌⊎◌, List, [], ◌∷◌, map, Member}
use apichain_backend.Base.Bytes.{Bytes, Collision}
use apichain_backend.Base.Result.{ok}
use apichain_backend.Merkle.{ProofStep, leaf_hash, build_root, inclusion_proof, verify_inclusion}
use apichain_backend.Merkle.Completeness.{inclusion_proof-verify_inclusion}
use apichain_backend.Merkle.Binding.{build_root_binding, verify_inclusion_sound}
use apichain_backend.Tests.Data.{toy_hash, length-toy_hash}

abbrev three_rows : List Bytes
three_rows = (5 ∷ []) ∷ (6 ∷ []) ∷ (7 ∷ []) ∷ []

abbrev three_leaves : List Bytes
three_leaves = map (leaf_hash toy_hash) three_rows

-- The last leaf is promoted on the first level.
last_row_proof :
    (path : List ProofStep) × (root : Bytes) × (inclusion_proof toy_hash three_leaves 2 ≡ ok path)
    × (build_root toy_hash three_leaves ≡ ok root)
    × (verify_inclusion toy_hash (leaf_hash toy_hash (7 ∷ [])) path root ≡ ok true)
last_row_proof = inclusion_proof-verify_inclusion toy_hash three_leaves 2 refl

inclusion_proof-verify_inclusion_example :
    (path : List ProofStep) × (root : Bytes) × (inclusion_proof toy_hash three_leaves 2 ≡ ok path)
    × (build_root toy_hash three_leaves ≡ ok root)
    × (verify_inclusion toy_hash (leaf_hash toy_hash (7 ∷ [])) path root ≡ ok true)
inclusion_proof-verify_inclusion_example =
    inclusion_proof-verify_inclusion toy_hash three_leaves 2 refl

verify_inclusion_sound_example : Member (7 ∷ []) three_rows ⊎ Collision toy_hash
verify_inclusion_sound_example =
    verify_inclusion_sound toy_hash length-toy_hash three_rows (7 ∷ []) last_row_proof.1
      last_row_proof.0 last_row_proof.3 last_row_proof.4

build_root_binding_example : (three_rows ≡ three_rows) ⊎ Collision toy_hash
build_root_binding_example =
    build_root_binding toy_hash length-toy_hash three_rows three_rows last_row_proof.1
      last_row_proof.3 last_row_proof.3
