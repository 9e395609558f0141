-- ===== src/Tests/UpgradeRuns.antt =====
-- Runs of the upgrade of anchors and of the backlog.
use apichain_backend.Base.{
  ℕ, ◌≡◌, refl, Bool, true, Option, none, some, List, [], ◌∷◌, ◌==◌, if◌then◌else◌,
}
use apichain_backend.Base.Bytes.{Bytes}
use apichain_backend.Canonical.DateTime.{DateTime}
use apichain_backend.Anchoring.Stamp.{MerkleAnchor}
use apichain_backend.Anchoring.Upgrade.{
  Upgrade, upgraded, still_pending, run_upgrade, upgrade_pending_with_session, backlog,
}
use apichain_backend.Anchoring.UpgradeLaws.{Upgraded, run_upgrade-Upgraded}
use apichain_backend.Tests.Data.{noon, evening}

abbrev anchor_of : ℕ → DateTime → Option DateTime → Bytes → MerkleAnchor
anchor_of id at verified proof = record {
  id = id;
  merkle_root = [];
  from_audit_id = id;
  to_audit_id = id;
  anchor_proof = proof;
  anchored_at = at;
  verified_at = verified;
}

abbrev three_anchors : List MerkleAnchor
three_anchors =
    anchor_of 1 noon (some noon) (9 ∷ [])
    ∷ anchor_of 2 evening none (1 ∷ [])
    ∷ anchor_of 3 noon none (2 ∷ [])
    ∷ []

-- The calendars have an attestation for the proof `[2]` alone.
abbrev answers : Bytes → Upgrade
answers [] = still_pending
answers (b ∷ proof) = if b == 2 then upgraded (2 ∷ 7 ∷ []) else still_pending

abbrev all_free : ℕ → Bool
all_free id = true

one_confirmed : run_upgrade answers all_free evening three_anchors ≡ (
  anchor_of 1 noon (some noon) (9 ∷ [])
      ∷ anchor_of 2 evening none (1 ∷ [])
      ∷ anchor_of 3 noon (some evening) (2 ∷ 7 ∷ [])
      ∷ [],
  1,
)
unfolding run_upgrade
one_confirmed = refl

one_confirmed_in_session :
    (upgrade_pending_with_session answers all_free evening three_anchors).1 ≡ 1
unfolding upgrade_pending_with_session
one_confirmed_in_session = refl

oldest_waits : (backlog three_anchors []).oldest_pending_anchor_at ≡ some noon
unfolding backlog
oldest_waits = refl

run_upgrade-Upgraded_example :
    let out = run_upgrade answers all_free evening three_anchors in
    Upgraded three_anchors out.0 out.1
run_upgrade-Upgraded_example = run_upgrade-Upgraded answers all_free evening three_anchors
