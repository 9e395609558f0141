-- ===== src/Anchoring/Proofs.antt =====
-- app/services/anchor_proof.py: the inclusion proofs of one subject's audit rows, derived on demand.
use apichain_backend.Base.{
  ℕ, suc, Bool, true, false, ◌&&◌, ◌||◌, Option, none, some, List, [], ◌∷◌, map, leb, ◌==◌,
  if◌then◌else◌,
}
use apichain_backend.Base.Bytes.{Bytes, bytes_eq}
use apichain_backend.Base.Result.{Result, ok, err, ◌>>=◌}
use apichain_backend.Canonical.Text.{Text}
use apichain_backend.Merkle
use apichain_backend.Merkle.{Error, index_error, ProofStep, leaf_hash, inclusion_proof}
use apichain_backend.Audit.Content.{AuditRow}
use apichain_backend.Audit.Chain.{select_rows}
use apichain_backend.Anchoring.Stamp.{MerkleAnchor, between, row_hashes, ids}

pub record ProofEntry : Type 0 where
  pub audit_id : ℕ
  pub action : Text
  pub row_hash : Bytes
  pub anchor : Option MerkleAnchor
  pub path : Option (List ProofStep)

pub data EntryStatus : Type 0 where
  pending anchored confirmed : EntryStatus

-- `ProofEntry.status`
unfoldable pub entry_status : ProofEntry → EntryStatus
entry_status e = elim e.anchor [
  | none ↦ pending
  | some a ↦ elim a.verified_at [ none ↦ anchored | some _ ↦ confirmed ]
]

-- `a.from_audit_id <= audit_id <= a.to_audit_id`
abbrev pub is_covering : ℕ → MerkleAnchor → Bool
is_covering audit_id a = leb a.from_audit_id audit_id && leb audit_id a.to_audit_id

-- `_covering_anchors`: those whose range meets the rows of the subject.
unfoldable pub covering_anchors : ℕ → ℕ → List MerkleAnchor → List MerkleAnchor
covering_anchors first last [] = []
covering_anchors first last (a ∷ anchors) =
    if leb first a.to_audit_id && leb a.from_audit_id last
    then a ∷ covering_anchors first last anchors
    else covering_anchors first last anchors

-- `next((a for a in anchors if …), None)`
unfoldable pub first_covering : ℕ → List MerkleAnchor → Option MerkleAnchor
first_covering audit_id [] = none
first_covering audit_id (a ∷ anchors) =
    if is_covering audit_id a then some a else first_covering audit_id anchors

-- `index_of[audit_id]`: the place of an id among the rows of the anchor; `none` is `KeyError`.
unfoldable pub index_of : ℕ → List ℕ → Option ℕ
index_of audit_id [] = none
index_of audit_id (x ∷ xs) = elim (index_of audit_id xs) [
  | some i ↦ some (suc i)
  | none ↦ if x == audit_id then some 0 else none
]

abbrev pub last_id : ℕ → List AuditRow → ℕ
last_id x [] = x
last_id x (row ∷ rows) = last_id row.id rows

-- `ProofEntry(…)` for a row, with the anchor and the path if there are any.
abbrev pub make_entry : AuditRow → Option MerkleAnchor → Option (List ProofStep) → ProofEntry
make_entry row a p = record {
  audit_id = row.id;
  action = row.entry.action;
  row_hash = row.row_hash;
  anchor = a;
  path = p;
}

-- The two `where` clauses of the query.
abbrev pub is_subject : Text → Text → AuditRow → Bool
is_subject subject_type subject_id row =
    bytes_eq row.entry.subject_type subject_type && bytes_eq row.entry.subject_id subject_id

module _ (sha256 : Bytes → Bytes) (anchors : List MerkleAnchor) (rows : List AuditRow) where
  -- The path of one row under its anchor: the tree over the anchor's rows, at the row's place.
  unfoldable pub path_under : MerkleAnchor → ℕ → Result Merkle.Error (List ProofStep)
  path_under a audit_id =
      let found = between a.from_audit_id a.to_audit_id rows in
      elim (index_of audit_id (ids found)) [
        | none ↦ err index_error
        | some i ↦ inclusion_proof sha256 (map (leaf_hash sha256) (row_hashes found)) i
      ]

  unfoldable pub entry_for : List MerkleAnchor → AuditRow → Result Merkle.Error ProofEntry
  entry_for covering row = elim (first_covering row.id covering) [
    | none ↦ ok (make_entry row none none)
    | some a ↦ path_under a row.id >>= λ path. ok (make_entry row (some a) (some path))
  ]

  -- The loop of `entries_for_subject`.
  unfoldable pub entries_loop :
      List MerkleAnchor → List AuditRow → Result Merkle.Error (List ProofEntry)
  entries_loop covering [] = ok []
  entries_loop covering (row ∷ subject_rows) = entry_for covering row >>= λ e.
      entries_loop covering subject_rows >>= λ entries. ok (e ∷ entries)

  abbrev pub entries_of : List AuditRow → Result Merkle.Error (List ProofEntry)
  entries_of [] = ok []
  entries_of (row ∷ subject_rows) =
      entries_loop (covering_anchors row.id (last_id row.id subject_rows) anchors)
        (row ∷ subject_rows)

  unfoldable pub entries_for_subject : Text → Text → Result Merkle.Error (List ProofEntry)
  entries_for_subject subject_type subject_id =
      entries_of (select_rows (is_subject subject_type subject_id) rows)

-- One badge for the whole batch.
pub data Badge : Type 0 where
  pending anchored partial confirmed : Badge

abbrev pub is_pending : EntryStatus → Bool
is_pending EntryStatus.pending = true
is_pending _ = false

abbrev pub is_confirmed : EntryStatus → Bool
is_confirmed EntryStatus.confirmed = true
is_confirmed _ = false

abbrev pub any_status : (EntryStatus → Bool) → List EntryStatus → Bool
any_status test [] = false
any_status test (s ∷ statuses) = test s || any_status test statuses

abbrev pub all_status : (EntryStatus → Bool) → List EntryStatus → Bool
all_status test [] = true
all_status test (s ∷ statuses) = test s && all_status test statuses

-- `rollup`: a set of statuses equals a singleton when it is not empty and all are that status.
unfoldable pub rollup : List ProofEntry → Badge
unfolding entry_status
rollup entries =
    let statuses = map entry_status entries in
    if all_status is_pending statuses
    then Badge.pending
    else if all_status is_confirmed statuses
    then Badge.confirmed
    else if any_status is_pending statuses
    then Badge.partial
    else Badge.anchored
