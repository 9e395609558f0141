-- ===== src/Anchoring/ProofLaws.antt =====
-- The derived proofs of app/services/anchor_proof.py against the published roots.
use mathlib.Core.Path.{subst}
use apichain_backend.Base.{
  ℕ, ◌≡◌, refl, true, ◌&&◌, ◌⊎◌, inl, inr, none, some, List, [], ◌∷◌, map, leb, get_elem?-map,
  Bool-cases, Option-cases, All, Member,
}
use apichain_backend.Base.Bytes.{Bytes}
use apichain_backend.Base.Result.{ok}
use apichain_backend.Canonical.Text.{Text}
use apichain_backend.Merkle.{ProofStep, leaf_hash, verify_inclusion}
use apichain_backend.Merkle.Completeness.{inclusion_proof-verify_inclusion}
use apichain_backend.Audit.Content.{AuditRow}
use apichain_backend.Audit.Chain.{is_within, select_rows}
use apichain_backend.Audit.Ranges.{Ascending}
use apichain_backend.Anchoring.Stamp.{MerkleAnchor, between, row_hashes}
use apichain_backend.Anchoring.Coverage.{Covers, AnchorsFrom}
use apichain_backend.Anchoring.Proofs.{
  ProofEntry, is_covering, covering_anchors, first_covering, path_under, entry_for, entries_loop,
  entries_of, entries_for_subject, is_subject, last_id, make_entry,
}
use apichain_backend.Anchoring.Covering.{
  select_rows-Ascending, Member-select_rows, Member-of_select_rows, Misses, Misses-first_covering,
  Misses-covering_anchors, first_or_later, index_of-get_elem?,
}

module _ (sha256 : Bytes → Bytes) (anchors : List MerkleAnchor) (rows : List AuditRow) where
  -- A row that an anchor covers has a path under this anchor, and the path verifies.
  path_under-verify_inclusion :
      (a : MerkleAnchor) (row : AuditRow)
      → Ascending 0 rows
      → Member row rows
      → Covers sha256 rows a
      → is_covering row.id a ≡ true
      → (path : List ProofStep) × (path_under sha256 anchors rows a row.id ≡ ok path)
        × (verify_inclusion sha256 (leaf_hash sha256 row.row_hash) path a.merkle_root ≡ ok true)
  unfolding path_under
  path_under-verify_inclusion a row asc m (_, _, b) h =
      let found = between a.from_audit_id a.to_audit_id rows in
      let test = is_within (some a.from_audit_id) (some a.to_audit_id) in
      let (i, e, g) =
        index_of-get_elem? 0 found row (select_rows-Ascending test 0 rows asc)
          (Member-select_rows test row rows m h) in
      let g' =
        get_elem?-map (leaf_hash sha256) (row_hashes found) i
          (get_elem?-map (λ (r : AuditRow). r.row_hash) found i g) in
      let (path, root, p, b', v) =
        inclusion_proof-verify_inclusion sha256 (map (leaf_hash sha256) (row_hashes found)) i g' in
      let same : root ≡ a.merkle_root = cc in
      (
        path,
        rw (e, path_under) p,
        subst (λ r. verify_inclusion sha256 (leaf_hash sha256 row.row_hash) path r ≡ ok true) same
            v,
      )

  first_covering-All :
      (P : MerkleAnchor → Type 0) (audit_id : ℕ) (list : List MerkleAnchor) {a : MerkleAnchor}
      → All P list
      → first_covering audit_id list ≡ some a
      → P a × (is_covering audit_id a ≡ true)
  unfolding first_covering
  first_covering-All P audit_id [] ps e = cc
  first_covering-All P audit_id (b ∷ list) {a} (p, ps) e =
      elim (Bool-cases (is_covering audit_id b)) [
        | inl y ↦
            let same : b ≡ a = cc (rw y at e) in
            (subst P same p, subst (λ x. is_covering audit_id x ≡ true) same y)
        | inr n ↦ first_covering-All P audit_id list ps (rw n at e)
      ]

  covering_anchors-All :
      (P : MerkleAnchor → Type 0) (first last : ℕ) (list : List MerkleAnchor)
      → All P list
      → All P (covering_anchors first last list)
  unfolding covering_anchors
  covering_anchors-All P first last [] ps = tt
  covering_anchors-All P first last (b ∷ list) (p, ps) =
      elim (Bool-cases (leb first b.to_audit_id && leb b.from_audit_id last)) [
        | inl y ↦ rw y (p, covering_anchors-All P first last list ps)
        | inr n ↦ rw n (covering_anchors-All P first last list ps)
      ]

  AnchorsFrom-Covers :
      (m : ℕ) (list : List MerkleAnchor)
      → AnchorsFrom sha256 rows m list
      → All (Covers sha256 rows) list
  AnchorsFrom-Covers m [] h = tt
  AnchorsFrom-Covers m (a ∷ list) (_, _, c, h) = (c, AnchorsFrom-Covers a.to_audit_id list h)

  -- An entry for its row: it has neither an anchor nor a path, and no anchor covers the row, or it has an
  -- anchor that covers the row and a path that an offline verifier accepts for the row's leaf under the
  -- anchor's published root.
  abbrev pub IsProved : AuditRow → ProofEntry → Type 0
  IsProved row e =
      (e.audit_id ≡ row.id)
      × (e.row_hash ≡ row.row_hash)
      × (((e.anchor ≡ none) × (e.path ≡ none) × All (Misses row.id) anchors)
          ⊎ ((a : MerkleAnchor) × (path : List ProofStep) × (e.anchor ≡ some a)
              × (e.path ≡ some path)
              × (is_covering row.id a ≡ true)
              × (verify_inclusion sha256 (leaf_hash sha256 row.row_hash) path a.merkle_root
                  ≡ ok true)))

  abbrev pub AllProved : List AuditRow → List ProofEntry → Type 0
  AllProved [] [] = Unit
  AllProved [] (e ∷ entries) = ⊥
  AllProved (row ∷ subject_rows) [] = ⊥
  AllProved (row ∷ subject_rows) (e ∷ entries) = IsProved row e × AllProved subject_rows entries

  entry_for-IsProved :
      (covering : List MerkleAnchor) (row : AuditRow)
      → Ascending 0 rows
      → All (Covers sha256 rows) covering
      → Member row rows
      → (All (Misses row.id) covering → All (Misses row.id) anchors)
      → (e : ProofEntry) × (entry_for sha256 anchors rows covering row ≡ ok e) × IsProved row e
  unfolding entry_for
  entry_for-IsProved covering row asc cs m wide =
      elim (Option-cases (first_covering row.id covering)) [
        | inl e ↦ (
          make_entry row none none,
          rw (e, entry_for) refl,
          (refl, refl, inl (refl, refl, wide (Misses-first_covering row.id covering e))),
        )
        | inr (a, e) ↦
            let (c, h) = first_covering-All (Covers sha256 rows) row.id covering cs e in
            let (path, p, v) = path_under-verify_inclusion a row asc m c h in
            (
              make_entry row (some a) (some path),
              rw (e, entry_for) (rw p refl),
              (refl, refl, inr (a, path, refl, refl, h, v)),
            )
      ]

  entries_loop-AllProved :
      (covering : List MerkleAnchor) (subject_rows : List AuditRow)
      → Ascending 0 rows
      → All (Covers sha256 rows) covering
      → ((row : AuditRow) → Member row subject_rows → Member row rows)
      → ((row : AuditRow)
          → Member row subject_rows
          → All (Misses row.id) covering
          → All (Misses row.id) anchors)
      → (entries : List ProofEntry) × (entries_loop sha256 anchors rows covering subject_rows
          ≡ ok entries)
        × AllProved subject_rows entries
  unfolding entries_loop
  entries_loop-AllProved covering [] asc cs sub wide = ([], refl, tt)
  entries_loop-AllProved covering (row ∷ subject_rows) asc cs sub wide =
      let (e, p, proved) =
        entry_for-IsProved covering row asc cs (sub row (inl refl)) (wide row (inl refl)) in
      let (entries, q, all) =
        entries_loop-AllProved covering subject_rows asc cs (λ r m. sub r (inr m))
          (λ r m. wide r (inr m)) in
      (e ∷ entries, rw (p, q) refl, (proved, all))

  -- For a table in id order and covered anchors, `entries_for_subject` returns one entry for each
  -- audit row of the subject, in order: a row that some anchor covers comes with an anchor that covers it
  -- and a path that `verify_inclusion` accepts for the row's leaf under that anchor's root; a row that no
  -- anchor covers comes with neither.
  pub entries_for_subject-AllProved :
      (subject_type subject_id : Text)
      → Ascending 0 rows
      → AnchorsFrom sha256 rows 0 anchors
      → (entries : List ProofEntry) × (entries_for_subject sha256 anchors rows subject_type
            subject_id
          ≡ ok entries)
        × AllProved (select_rows (is_subject subject_type subject_id) rows) entries
  unfolding entries_for_subject
  entries_for_subject-AllProved subject_type subject_id asc h =
      go (select_rows (is_subject subject_type subject_id) rows)
        (select_rows-Ascending (is_subject subject_type subject_id) 0 rows asc)
        (λ row. Member-of_select_rows (is_subject subject_type subject_id) row rows)
    where
      go :
          (found : List AuditRow)
          → Ascending 0 found
          → ((row : AuditRow) → Member row found → Member row rows)
          → (entries : List ProofEntry) × (entries_of sha256 anchors rows found ≡ ok entries)
            × AllProved found entries
      go [] rising sub = ([], refl, tt)
      go (row ∷ found) (lt, rising) sub =
          entries_loop-AllProved (covering_anchors row.id (last_id row.id found) anchors)
            (row ∷ found) asc
            (covering_anchors-All (Covers sha256 rows) row.id (last_id row.id found) anchors
              (AnchorsFrom-Covers 0 anchors h))
            sub
            (λ r m.
              let (l, u) = first_or_later row found r rising m in
              Misses-covering_anchors row.id (last_id row.id found) r.id anchors l u)
