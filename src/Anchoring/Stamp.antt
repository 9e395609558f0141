-- ===== src/Anchoring/Stamp.antt =====
-- `stamp_with_session`: one tick of the anchoring worker over the audit rows, the anchors and the
-- module's status. The answer of the calendars (`ots.stamp`) is an argument, a function of the root:
-- `none` is `CalendarUnavailable`.

use apichain_backend.Base.{
  ℕ, ◌+◌, Bool, true, false, Option, none, some, List, [], ◌∷◌, ◌++◌, map, ltb, if◌then◌else◌, take,
}
use apichain_backend.Base.Bytes.{Bytes}
use apichain_backend.Base.Result.{Result, ok, ◌>>=◌}
use apichain_backend.Canonical.DateTime.{DateTime}
use apichain_backend.Merkle
use apichain_backend.Merkle.{Error, leaf_hash, build_root}
use apichain_backend.Audit.Content.{AuditRow}
use apichain_backend.Audit.Chain.{is_within, select_rows}
use apichain_backend.Anchoring.Run.{
  Settings, contiguous_run, starts_at, waits_for, resolve_gap_at_start,
}

-- A row of `merkle_anchor`; the target is a setting of the deployment and plays no part here.
pub record MerkleAnchor : Type 0 where
  pub id : ℕ
  pub merkle_root : Bytes
  pub from_audit_id : ℕ
  pub to_audit_id : ℕ
  pub anchor_proof : Bytes
  pub anchored_at : DateTime
  pub verified_at : Option DateTime

-- What the latest tick did.
pub data Outcome : Type 0 where
  anchored failed idle : Outcome

pub record AnchorStatus : Type 0 where
  pub anchor_ok : Bool
  pub last_run_at : Option DateTime
  pub last_anchor_id : Option ℕ
  pub waiting_on_audit_id : Option ℕ
  pub last_error : Bool
  pub last_outcome : Outcome

-- The anchors by ascending id, and the status of the module.
pub record Worker : Type 0 where
  pub anchors : List MerkleAnchor
  pub next_anchor_id : ℕ
  pub status : AnchorStatus

-- `max(to_audit_id)`
unfoldable pub last_anchored : List MerkleAnchor → Option ℕ
last_anchored [] = none
last_anchored (a ∷ anchors) = elim (last_anchored anchors) [
  | none ↦ some a.to_audit_id
  | some m ↦ some (if ltb m a.to_audit_id then a.to_audit_id else m)
]

-- `min(AuditLog.id)` of rows in id order.
abbrev pub first_id : List AuditRow → Option ℕ
first_id [] = none
first_id (row ∷ rows) = some row.id

unfoldable pub next_start : List MerkleAnchor → List AuditRow → Option ℕ
unfolding last_anchored
next_start anchors rows = elim (last_anchored anchors) [
  | some m ↦ some (m + 1)
  | none ↦ first_id rows
]

-- The last item of a non-empty list.
abbrev pub last_of : ℕ → List ℕ → ℕ
last_of x [] = x
last_of x (y ∷ ys) = last_of y ys

-- `AuditLog.id.between(from, to)`
abbrev pub between : ℕ → ℕ → List AuditRow → List AuditRow
between from to = select_rows (is_within (some from) (some to))

abbrev pub row_hashes : List AuditRow → List Bytes
row_hashes = map (λ row. row.row_hash)

abbrev pub ids : List AuditRow → List ℕ
ids = map (λ row. row.id)

-- A tick ends with the worker's new state and the anchor that it wrote, if any.
abbrev pub Tick : Type 0
Tick = Result Merkle.Error (Worker × Option MerkleAnchor)

abbrev pub skip : Worker → Tick
skip w = ok (w, none)

abbrev pub waiting_on : Option ℕ → Worker → Worker
waiting_on gap w = let s = w.status in record w { status = record s { waiting_on_audit_id = gap } }

-- The calendars are down: only the status changes.
abbrev pub record_failure : Worker → Worker
record_failure w =
    let s = w.status in
    record w { status = record s { anchor_ok = false; last_error = true; last_outcome = failed } }

-- `MerkleAnchor(…)`, pending until Bitcoin confirms it.
abbrev pub new_anchor : ℕ → DateTime → ℕ → ℕ → Bytes → Bytes → MerkleAnchor
new_anchor id now from to root proof = record {
  id = id;
  merkle_root = root;
  from_audit_id = from;
  to_audit_id = to;
  anchor_proof = proof;
  anchored_at = now;
  verified_at = none;
}

-- `db.add(anchor)`, and the status that reports it.
abbrev pub record_anchor : Worker → MerkleAnchor → Worker
record_anchor w anchor =
    let s = w.status in
    record {
      anchors = w.anchors ++ anchor ∷ [];
      next_anchor_id = w.next_anchor_id + 1;
      status = record s {
        anchor_ok = true;
        last_error = false;
        last_anchor_id = some anchor.id;
        last_outcome = anchored;
      };
    }

-- From the submission of the root on.
unfoldable pub submit : (Bytes → Option Bytes) → DateTime → Worker → ℕ → ℕ → Bytes → Tick
submit calendars now w from to root = elim (calendars root) [
  | none ↦ ok (record_failure w, none)
  | some proof ↦
      let anchor = new_anchor w.next_anchor_id now from to root proof in
      ok (record_anchor w anchor, some anchor)
]

module _ (sha256 : Bytes → Bytes) (calendars : Bytes → Option Bytes) (settings : Settings)
    (now : DateTime) (rows : List AuditRow) where
  -- The tree over the rows of the run.
  unfoldable pub anchor_run : Worker → List ℕ → Tick
  anchor_run w [] = skip w
  anchor_run w (x ∷ run) =
      let to = last_of x run in
      build_root sha256 (map (leaf_hash sha256) (row_hashes (between x to rows))) >>= λ root.
      submit calendars now w x to root

  unfoldable pub anchor_candidates : Worker → ℕ → List AuditRow → Tick
  anchor_candidates w start [] = skip (waiting_on none w)
  anchor_candidates w start (row ∷ candidates) =
      elim (resolve_gap_at_start settings now start row.id row.created_at) [
        | waits_for gap ↦ skip (waiting_on (some gap) w)
        | starts_at first ↦
            anchor_run (waiting_on none w)
              (contiguous_run (ids (row ∷ candidates)) first settings.anchor_max_rows)
      ]

  -- `stamp_with_session`; `locked` says whether the advisory lock was got.
  unfoldable pub stamp_with_session : Bool → Worker → Tick
  stamp_with_session locked w =
      let s = w.status in
      let w' = record w { status = record s { last_run_at = some now; last_outcome = idle } } in
      if locked
      then (elim (next_start w.anchors rows) [
        | none ↦ skip w'
        | some start ↦
            anchor_candidates w' start
              (take settings.anchor_max_rows (select_rows (is_within (some start) none) rows))
      ])
      else skip w'
