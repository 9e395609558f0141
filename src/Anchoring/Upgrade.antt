-- ===== src/Anchoring/Upgrade.antt =====
-- The upgrade of pending anchors and the backlog. The answer of the calendars (`ots.upgrade`) is an
-- argument, a function of the stored proof, and so is whether this process claims an anchor's lock.
use apichain_backend.Base.{
  ℕ, ◌+◌, Bool, true, false, Option, none, some, List, [], ◌∷◌, map, ◌==◌, ltb, length, take,
  if◌then◌else◌,
}
use apichain_backend.Base.Bytes.{Bytes}
use apichain_backend.Canonical.DateTime.{DateTime, microseconds}
use apichain_backend.Audit.Content.{AuditRow}
use apichain_backend.Anchoring.Stamp.{MerkleAnchor, last_anchored}

-- `ots.upgrade`: a proof with a Bitcoin attestation, none yet, or `InvalidProof`.
pub data Upgrade : Type 0 where
  upgraded : Bytes → Upgrade
  still_pending : Upgrade
  invalid_proof : Upgrade

abbrev pub is_pending : MerkleAnchor → Bool
is_pending a = elim a.verified_at [ none ↦ true | some at ↦ false ]

unfoldable pub select_pending : List MerkleAnchor → List MerkleAnchor
select_pending [] = []
select_pending (a ∷ anchors) =
    if is_pending a then a ∷ select_pending anchors else select_pending anchors

-- `ORDER BY anchored_at`
unfoldable pub insert_anchor : MerkleAnchor → List MerkleAnchor → List MerkleAnchor
unfolding microseconds
insert_anchor a [] = a ∷ []
insert_anchor a (b ∷ anchors) =
    if ltb (microseconds b.anchored_at) (microseconds a.anchored_at)
    then b ∷ insert_anchor a anchors
    else a ∷ b ∷ anchors

unfoldable pub sort_anchors : List MerkleAnchor → List MerkleAnchor
unfolding insert_anchor
sort_anchors [] = []
sort_anchors (a ∷ anchors) = insert_anchor a (sort_anchors anchors)

-- `_pending_anchors`, at most `_UPGRADE_BATCH` of them.
unfoldable pub pending_anchors : List MerkleAnchor → List MerkleAnchor
unfolding select_pending sort_anchors
pending_anchors anchors = take 100 (sort_anchors (select_pending anchors))

unfoldable pub find_anchor : ℕ → List MerkleAnchor → Option MerkleAnchor
find_anchor id [] = none
find_anchor id (a ∷ anchors) = if a.id == id then some a else find_anchor id anchors

unfoldable pub change_anchor :
    ℕ → (MerkleAnchor → MerkleAnchor) → List MerkleAnchor → List MerkleAnchor
change_anchor id f [] = []
change_anchor id f (a ∷ anchors) =
    if a.id == id then f a ∷ anchors else a ∷ change_anchor id f anchors

abbrev pub confirmed_by : Bytes → DateTime → MerkleAnchor → MerkleAnchor
confirmed_by proof now a = record a { anchor_proof = proof; verified_at = some now }

module _ (upgrade : Bytes → Upgrade) (claims : ℕ → Bool) (now : DateTime) where
  -- `upgrade_anchor`: the anchors, and how many were confirmed.
  abbrev pub apply_upgrade : Upgrade → MerkleAnchor → List MerkleAnchor → List MerkleAnchor × ℕ
  apply_upgrade (upgraded proof) a anchors =
      (change_anchor a.id (confirmed_by proof now) anchors, 1)
  apply_upgrade still_pending a anchors = (anchors, 0)
  apply_upgrade invalid_proof a anchors = (anchors, 0)

  unfoldable pub upgrade_anchor : MerkleAnchor → List MerkleAnchor → List MerkleAnchor × ℕ
  unfolding change_anchor
  upgrade_anchor a anchors = apply_upgrade (upgrade a.anchor_proof) a anchors

  -- The anchor is read again under the lock: it may be gone, or confirmed by now.
  abbrev pub upgrade_found : Option MerkleAnchor → List MerkleAnchor → List MerkleAnchor × ℕ
  upgrade_found none anchors = (anchors, 0)
  upgrade_found (some a) anchors = if is_pending a then upgrade_anchor a anchors else (anchors, 0)

  abbrev pub upgrade_one : ℕ → List MerkleAnchor → List MerkleAnchor × ℕ
  upgrade_one id anchors =
      if claims id then upgrade_found (find_anchor id anchors) anchors else (anchors, 0)

  -- The loop of `run_upgrade`, one transaction for each id.
  unfoldable pub upgrade_loop : List ℕ → List MerkleAnchor → List MerkleAnchor × ℕ
  unfolding upgrade_anchor find_anchor
  upgrade_loop [] anchors = (anchors, 0)
  upgrade_loop (id ∷ ids) anchors =
      let out = upgrade_one id anchors in
      let rest = upgrade_loop ids out.0 in (rest.0, out.1 + rest.1)

  unfoldable pub run_upgrade : List MerkleAnchor → List MerkleAnchor × ℕ
  unfolding upgrade_loop pending_anchors
  run_upgrade anchors = upgrade_loop (map (λ a. a.id) (pending_anchors anchors)) anchors

  -- The sum over `_pending_anchors` in one session, which are listed before any is upgraded.
  abbrev pub upgrade_each : List MerkleAnchor → List MerkleAnchor → List MerkleAnchor × ℕ
  upgrade_each [] anchors = (anchors, 0)
  upgrade_each (a ∷ pending) anchors =
      let out = upgrade_anchor a anchors in
      let rest = upgrade_each pending out.0 in (rest.0, out.1 + rest.1)

  unfoldable pub upgrade_pending_with_session : List MerkleAnchor → List MerkleAnchor × ℕ
  unfolding upgrade_anchor pending_anchors
  upgrade_pending_with_session anchors = upgrade_each (pending_anchors anchors) anchors

-- `Backlog`
pub record Backlog : Type 0 where
  pub last_anchored_audit_id : Option ℕ
  pub pending_rows : ℕ
  pub oldest_unanchored_at : Option DateTime
  pub pending_anchors : ℕ
  pub oldest_pending_anchor_at : Option DateTime

abbrev pub earliest : List DateTime → Option DateTime
earliest [] = none
earliest (t ∷ times) = elim (earliest times) [
  | none ↦ some t
  | some u ↦ some (if ltb (microseconds u) (microseconds t) then u else t)
]

abbrev pub rows_after : ℕ → List AuditRow → List AuditRow
rows_after last [] = []
rows_after last (row ∷ rows) =
    if ltb last row.id then row ∷ rows_after last rows else rows_after last rows

abbrev pub or_zero : Option ℕ → ℕ
or_zero none = 0
or_zero (some n) = n

unfoldable pub backlog : List MerkleAnchor → List AuditRow → Backlog
unfolding last_anchored select_pending microseconds
backlog anchors rows =
    let waiting = rows_after (or_zero (last_anchored anchors)) rows in
    let pending = select_pending anchors in
    record {
      last_anchored_audit_id = last_anchored anchors;
      pending_rows = length waiting;
      oldest_unanchored_at = earliest (map (λ row. row.created_at) waiting);
      pending_anchors = length pending;
      oldest_pending_anchor_at = earliest (map (λ a. a.anchored_at) pending);
    }
