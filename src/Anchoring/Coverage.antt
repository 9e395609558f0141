-- ===== src/Anchoring/Coverage.antt =====
-- What the anchors of the worker cover, as an invariant of its ticks.
use mathlib.Core.Path.{subst}
use mathlib.Core.List.{append-nil, append_assoc, map-append}
use apichain_backend.Base.{
  ℕ, suc, ◌+◌, ◌*◌, ◌≤◌, ◌<◌, ◌≡◌, refl, sym, ap, ◌∙◌, Bool, true, false, ◌⊎◌, inl, inr, Option,
  none, some, List, [], ◌∷◌, ◌++◌, map, arith, ltb, ◌==◌, length, length-map, Bool-cases,
  Option-cases, take, take_split,
}
use apichain_backend.Base.Bytes.{Bytes}
use apichain_backend.Base.Result.{ok}
use apichain_backend.Canonical.DateTime.{DateTime, microseconds}
use apichain_backend.Merkle.{leaf_hash, build_root}
use apichain_backend.Merkle.Tree.{digest, build_root-digest}
use apichain_backend.Audit.Content.{AuditRow}
use apichain_backend.Audit.Chain.{is_within, select_rows}
use apichain_backend.Audit.Ranges.{Ascending}
use apichain_backend.Anchoring.Run.{Settings, starts_at, waits_for, resolve_gap_at_start}
use apichain_backend.Anchoring.Stamp.{
  MerkleAnchor, Worker, Tick, last_anchored, next_start, first_id, last_of, between, row_hashes,
  ids, skip, waiting_on, record_failure, new_anchor, record_anchor, submit, anchor_run,
  anchor_candidates, stamp_with_session,
}
use apichain_backend.Anchoring.RunLaws.{
  IsRun, TakesRun, contiguous_run-TakesRun, last_of-eq, ids-between, select_rows-ge,
}

resolve_cases :
    (settings : Settings) (now : DateTime) (start first_id : ℕ) (created : DateTime)
    → (resolve_gap_at_start settings now start first_id created ≡ starts_at first_id)
      ⊎ ((gap : ℕ) × (resolve_gap_at_start settings now start first_id created ≡ waits_for gap))
unfolding resolve_gap_at_start
resolve_cases settings now start first_id created = elim (Bool-cases (first_id == start)) [
  | inl y ↦ inl (rw y (ap starts_at (ground arith)))
  | inr n ↦
      elim (Bool-cases (
        ltb (microseconds now)
          (microseconds created + 2 * settings.anchor_interval_seconds * 1000000))) [
            | inl fresh ↦ inr (start, rw (n, fresh) refl)
            | inr old ↦ inl (rw (n, old) refl)
          ]
]

abbrev pub added : Option MerkleAnchor → List MerkleAnchor
added none = []
added (some a) = a ∷ []

module _ (sha256 : Bytes → Bytes) (rows : List AuditRow) where
  -- Every audit id from the first to the last of an anchor is in the table, and the anchor's root is
  -- that of the tree over these rows.
  abbrev pub Covers : MerkleAnchor → Type 0
  Covers a =
      let run = between a.from_audit_id a.to_audit_id rows in
      IsRun a.from_audit_id (ids run)
      × (a.from_audit_id + length run ≡ a.to_audit_id + 1)
      × (build_root sha256 (map (leaf_hash sha256) (row_hashes run)) ≡ ok a.merkle_root)

  -- The anchors' ranges are in order and disjoint, above `m`, and each is covered.
  abbrev pub AnchorsFrom : ℕ → List MerkleAnchor → Type 0
  AnchorsFrom m [] = Unit
  AnchorsFrom m (a ∷ anchors) =
      (m < a.from_audit_id)
      × (a.from_audit_id ≤ a.to_audit_id)
      × Covers a
      × AnchorsFrom a.to_audit_id anchors

  -- The last anchored id, or `m`.
  abbrev upper : ℕ → List MerkleAnchor → ℕ
  upper m [] = m
  upper m (a ∷ anchors) = upper a.to_audit_id anchors

  le-upper : (m : ℕ) (anchors : List MerkleAnchor) → AnchorsFrom m anchors → m ≤ upper m anchors
  le-upper m [] h = omega arith
  le-upper m (a ∷ anchors) (lt, le, c, h) = omega (arith, le-upper a.to_audit_id anchors h)

  last_anchored-upper :
      (a : MerkleAnchor) (anchors : List MerkleAnchor)
      → AnchorsFrom a.to_audit_id anchors
      → last_anchored (a ∷ anchors) ≡ some (upper a.to_audit_id anchors)
  unfolding last_anchored
  last_anchored-upper a [] h = refl
  last_anchored-upper a (b ∷ anchors) (lt, le, c, h) =
      let e = last_anchored-upper b anchors h in ground (arith, e, le-upper b.to_audit_id anchors h)

  AnchorsFrom-append :
      (m : ℕ) (anchors : List MerkleAnchor) (a : MerkleAnchor)
      → AnchorsFrom m anchors
      → upper m anchors < a.from_audit_id
      → a.from_audit_id ≤ a.to_audit_id
      → Covers a
      → AnchorsFrom m (anchors ++ a ∷ [])
  AnchorsFrom-append m [] a h lt le c = (lt, le, c, tt)
  AnchorsFrom-append m (b ∷ anchors) a (p, q, r, h) lt le c =
      (p, q, r, AnchorsFrom-append b.to_audit_id anchors a h lt le c)

  next_start-above :
      (anchors : List MerkleAnchor) (start : ℕ)
      → Ascending 0 rows
      → AnchorsFrom 0 anchors
      → next_start anchors rows ≡ some start
      → upper 0 anchors < start
  unfolding next_start
  next_start-above [] start asc h e = first_above rows asc e
    where
      first_above : (rs : List AuditRow) → Ascending 0 rs → first_id rs ≡ some start → 0 < start
      first_above [] asc' e' = cc
      first_above (row ∷ rs) (lt, _) e' = ground arith
  next_start-above (a ∷ anchors) start asc (_, _, _, h) e =
      let e' = rw (last_anchored-upper a anchors h, next_start) at e in ground arith

  -- The tree over a run that is not empty has a root.
  root_of_run :
      (from to x : ℕ) (run : List ℕ)
      → ids (between from to rows) ≡ x ∷ run
      → (root : Bytes) × (build_root sha256
            (map (leaf_hash sha256) (row_hashes (between from to rows)))
          ≡ ok root)
  root_of_run from to x run e = go (between from to rows) e
    where
      go :
          (found : List AuditRow)
          → ids found ≡ x ∷ run
          → (root : Bytes) × (build_root sha256 (map (leaf_hash sha256) (row_hashes found))
              ≡ ok root)
      go [] e' = cc
      go (row ∷ found) e' =
          let (t, b, _) = build_root-digest sha256 row.row_hash (row_hashes found) in
          (digest sha256 t, b)

module _ (sha256 : Bytes → Bytes) (calendars : Bytes → Option Bytes) (settings : Settings)
    (now : DateTime) (rows : List AuditRow) where
  -- A tick that does not raise, adds the anchor that it reports and no other, and keeps the anchors
  -- covered.
  abbrev pub Covered : Worker → Tick → Type 0
  Covered w tick =
      (w' : Worker) × (written : Option MerkleAnchor) × (tick ≡ ok (w', written))
      × (w'.anchors ≡ w.anchors ++ added written)
      × AnchorsFrom sha256 rows 0 w'.anchors

  skip-Covered :
      (w w' : Worker)
      → w'.anchors ≡ w.anchors
      → AnchorsFrom sha256 rows 0 w.anchors
      → Covered w (skip w')
  skip-Covered w w' e h =
      (w', none, refl, e ∙ sym (append-nil w.anchors), subst (AnchorsFrom sha256 rows 0) (sym e) h)

  submit-Covered :
      (w : Worker) (from to : ℕ) (root : Bytes)
      → AnchorsFrom sha256 rows 0 w.anchors
      → upper sha256 rows 0 w.anchors < from
      → from ≤ to
      → IsRun from (ids (between from to rows))
      → from + length (between from to rows) ≡ to + 1
      → build_root sha256 (map (leaf_hash sha256) (row_hashes (between from to rows))) ≡ ok root
      → Covered w (submit calendars now w from to root)
  unfolding submit
  submit-Covered w from to root h lt le run count b = elim (Option-cases (calendars root)) [
    | inl e ↦ rw (e, submit) (skip-Covered w (record_failure w) refl h)
    | inr (proof, e) ↦
        let anchor = new_anchor w.next_anchor_id now from to root proof in
        rw (e, submit)
          (
            record_anchor w anchor,
            some anchor,
            refl,
            refl,
            AnchorsFrom-append sha256 rows 0 w.anchors anchor h lt le (run, count, b),
          )
  ]

  anchor_run-Covered :
      (w : Worker) (s x : ℕ) (run rest : List ℕ)
      → AnchorsFrom sha256 rows 0 w.anchors
      → Ascending 0 rows
      → upper sha256 rows 0 w.anchors < x
      → IsRun (x + 1) run
      → ids (select_rows (is_within (some s) none) rows) ≡ x ∷ run ++ rest
      → Covered w (anchor_run sha256 calendars settings now rows w (x ∷ run))
  unfolding anchor_run
  anchor_run-Covered w s x run rest h asc lt r e =
      let to = last_of x run in
      let found = ids-between s 0 x run rest rows asc r e in
      let (root, b) = root_of_run sha256 rows x to x run found in
      let n : length (between x to rows) ≡ suc (length run) =
        sym (length-map (λ row. row.id) (between x to rows)) ∙ ap length found in
      rw b (
        submit-Covered w x to root h lt (omega (arith, last_of-eq x run r)) (rw found (refl, r))
          (omega (arith, n, last_of-eq x run r)) b)

  anchor_candidates-Covered :
      (w : Worker) (start : ℕ) (candidates : List AuditRow) (others : List AuditRow)
      → 0 < settings.anchor_max_rows
      → AnchorsFrom sha256 rows 0 w.anchors
      → Ascending 0 rows
      → upper sha256 rows 0 w.anchors < start
      → select_rows (is_within (some start) none) rows ≡ candidates ++ others
      → Covered w (anchor_candidates sha256 calendars settings now rows w start candidates)
  unfolding anchor_candidates
  anchor_candidates-Covered w start [] others p h asc lt e =
      skip-Covered w (waiting_on none w) refl h
  anchor_candidates-Covered w start (row ∷ candidates) others p h asc lt e =
      elim (resolve_cases settings now start row.id row.created_at) [
        | inr (gap, g) ↦ rw (g, anchor_candidates) (skip-Covered w (waiting_on (some gap) w) refl h)
        | inl g ↦
            rw (g, anchor_candidates)
              (from_run _ (
                contiguous_run-TakesRun (ids (row ∷ candidates)) row.id settings.anchor_max_rows p))
      ]
    where
      all_ids :
          ids (select_rows (is_within (some start) none) rows)
          ≡ row.id ∷ ids candidates ++ ids others
      all_ids = ap ids e ∙ map-append (λ r. r.id) (row ∷ candidates) others

      from_run :
          (run : List ℕ)
          → TakesRun row.id settings.anchor_max_rows (ids (row ∷ candidates)) run
          → Covered w (anchor_run sha256 calendars settings now rows (waiting_on none w) run)
      from_run [] (rest, split, r, short, inl full) = absurd (omega arith)
      from_run [] ([], split, r, short, inr gap) = absurd (cc)
      from_run [] (y ∷ rest, split, r, short, inr gap) = absurd (gap (ground arith))
      from_run (x ∷ run) (rest, split, (first, r), short, stop) =
          anchor_run-Covered (waiting_on none w) start x run (rest ++ ids others) h asc
            (omega (arith, select_rows-ge start row.id (ids candidates ++ ids others) rows all_ids))
            (subst (λ k. IsRun (k + 1) run) (sym first) r)
            (all_ids ∙ ap (λ l. l ++ ids others) split ∙ append_assoc (x ∷ run) rest (ids others))

  -- Every tick returns, and it keeps the anchors covered: their ranges are in order and disjoint,
  -- every audit id of a range is in the table, and each root is that of the tree over its range. The
  -- tick adds the anchor that it reports and no other. This needs rows in id order and a limit of at
  -- least one row.
  pub stamp_with_session-Covered :
      (locked : Bool) (w : Worker)
      → 0 < settings.anchor_max_rows
      → Ascending 0 rows
      → AnchorsFrom sha256 rows 0 w.anchors
      → Covered w (stamp_with_session sha256 calendars settings now rows locked w)
  unfolding stamp_with_session
  stamp_with_session-Covered false w p asc h = skip-Covered w _ refl h
  stamp_with_session-Covered true w p asc h = elim (Option-cases (next_start w.anchors rows)) [
    | inl e ↦ rw (e, stamp_with_session) (skip-Covered w _ refl h)
    | inr (start, e) ↦
        let (others, split) =
          take_split settings.anchor_max_rows (select_rows (is_within (some start) none) rows) in
        rw (e, stamp_with_session)
          (anchor_candidates-Covered _ start
            (take settings.anchor_max_rows (select_rows (is_within (some start) none) rows)) others
            p h asc (next_start-above sha256 rows w.anchors start asc h e) split)
  ]
