-- ===== src/Audit/Ranges.antt =====
-- `verify_chain` on a range of ids, and the row that a refusal names.
use apichain_backend.Base.{
  ℕ, suc, ◌+◌, ◌-◌, ◌≤◌, ◌<◌, ◌≡◌, refl, ap, ◌∙◌, true, false, inl, inr, Option, none, some, List,
  [], ◌∷◌, ◌++◌, arith, ltb, leb, length, Option-cases, Bool-cases, le→leb,
}
use apichain_backend.Base.Bytes.{Bytes}
use apichain_backend.Audit.Content.{AuditRow, genesis_prev_hash}
use apichain_backend.Audit.Chain.{
  Reason, accepted, refused, is_within, select_rows, tail_hash, check_row, walk, verify_chain,
}
use apichain_backend.Audit.Verdict.{
  Linked, IsLink-of_check_row, walk_of_Linked, verify_chain-iff-Linked,
}

-- Ids of a table in the order of the primary key.
abbrev pub Ascending : ℕ → List AuditRow → Type 0
Ascending above [] = Unit
Ascending above (row ∷ rows) = (above < row.id) × Ascending row.id rows

-- Nothing is selected of the rows from `f` on.
select_rows-before :
    (f a : ℕ) (rows : List AuditRow)
    → f ≤ suc a
    → Ascending a rows
    → select_rows (λ row. ltb row.id f) rows ≡ []
unfolding select_rows
select_rows-before f a [] h asc = refl
select_rows-before f a (row ∷ rows) h (lt, asc) =
    ground (arith, select_rows-before f row.id rows (omega arith) asc)

-- Nothing is selected of the rows beyond `t`.
pub select_rows-beyond :
    (from : Option ℕ) (t a : ℕ) (rows : List AuditRow)
    → t ≤ a
    → Ascending a rows
    → select_rows (is_within from (some t)) rows ≡ []
unfolding select_rows
select_rows-beyond from t a [] h asc = refl
select_rows-beyond none t a (row ∷ rows) h (lt, asc) =
    ground (arith, select_rows-beyond none t row.id rows (omega arith) asc)
select_rows-beyond (some f) t a (row ∷ rows) h (lt, asc) =
    ground (arith, select_rows-beyond (some f) t row.id rows (omega arith) asc)

-- No lower bound is the lower bound 0.
select_rows-any_id :
    (to : Option ℕ) (rows : List AuditRow)
    → select_rows (is_within none to) rows ≡ select_rows (is_within (some 0) to) rows
unfolding select_rows
select_rows-any_id to [] = refl
select_rows-any_id to (row ∷ rows) = rw (le→leb 0 row.id (omega arith), select_rows-any_id to rows)

module _ (keccak : Bytes → Bytes) where
  -- The rows up to `to` of a linked chain that lies at or above `f` are linked.
  Linked-upto :
      (f a : ℕ) (to : Option ℕ) (before : Bytes) (rows : List AuditRow)
      → f ≤ suc a
      → Ascending a rows
      → Linked keccak before rows
      → Linked keccak before (select_rows (is_within (some f) to) rows)
  unfolding select_rows
  Linked-upto f a to before [] h asc l = tt
  Linked-upto f a none before (row ∷ rows) h (lt, asc) (link, l) =
      let rest = Linked-upto f row.id none row.row_hash rows (omega arith) asc l in
      rw (le→leb f row.id (omega arith)) (link, rest)
  Linked-upto f a (some t) before (row ∷ rows) h (lt, asc) (link, l) =
      let rest = Linked-upto f row.id (some t) row.row_hash rows (omega arith) asc l in
      elim (Bool-cases (leb row.id t)) [
        | inl e ↦ rw (le→leb f row.id (omega arith), e) (link, rest)
        | inr e ↦
            rw
              (
                le→leb f row.id (omega arith),
                e,
                select_rows-beyond (some f) t row.id rows (ground arith) asc,
              )
              tt
      ]

  -- The rows of a range are linked from the hash before the range.
  Linked-range :
      (f a : ℕ) (to : Option ℕ) (before : Bytes) (rows : List AuditRow)
      → Ascending a rows
      → Linked keccak before rows
      → Linked keccak
          (tail_hash before (select_rows (λ row. ltb row.id f) rows))
          (select_rows (is_within (some f) to) rows)
  unfolding select_rows tail_hash
  Linked-range f a to before [] asc l = tt
  Linked-range f a to before (row ∷ rows) (lt, asc) (link, l) = elim (Bool-cases (ltb row.id f)) [
    | inl e ↦
        let out : leb f row.id ≡ false = ground arith in
        rw (e, out) (Linked-range f row.id to row.row_hash rows asc l)
    | inr e ↦
        rw (e, select_rows-before f row.id rows (ground arith) asc)
          (Linked-upto f (row.id - 1) to before (row ∷ rows) (ground arith) (omega arith, asc)
            (link, l))
  ]

  Linked-from_start :
      (to : Option ℕ) (before : Bytes) (rows : List AuditRow)
      → Ascending 0 rows
      → Linked keccak before rows
      → Linked keccak before (select_rows (is_within none to) rows)
  Linked-from_start to before rows asc l =
      rw (select_rows-any_id to rows) (Linked-upto 0 0 to before rows (omega arith) asc l)

  -- If the whole chain of a table in id order verifies, then so does every range of ids, whatever
  -- its bounds, with every row of the range counted.
  pub verify_chain_range :
      (from to : Option ℕ) (rows : List AuditRow)
      → Ascending 0 rows
      → (verify_chain keccak none none rows).is_ok ≡ true
      → verify_chain keccak from to rows ≡ accepted (length (select_rows (is_within from to) rows))
  unfolding verify_chain
  verify_chain_range none to rows asc h =
      walk_of_Linked keccak genesis_prev_hash 0 (select_rows (is_within none to) rows) (
        Linked-from_start to genesis_prev_hash rows asc ((verify_chain-iff-Linked keccak rows).0 h))
      ∙ ap accepted (omega arith)
  verify_chain_range (some f) to rows asc h =
      walk_of_Linked keccak (tail_hash genesis_prev_hash (select_rows (λ row. ltb row.id f) rows)) 0
        (select_rows (is_within (some f) to) rows)
        (Linked-range f 0 to genesis_prev_hash rows asc ((verify_chain-iff-Linked keccak rows).0 h))
      ∙ ap accepted (omega arith)

  -- A refusal names the first row that does not link to the rows before it, which do form a chain,
  -- with the test that this row fails and its place.
  pub walk_refusal :
      (before : Bytes) (n : ℕ) (rows : List AuditRow)
      → (walk keccak before n rows).is_ok ≡ false
      → (good : List AuditRow) × (bad : AuditRow) × (rest : List AuditRow) × (why : Reason) × (rows
          ≡ good ++ bad ∷ rest)
        × Linked keccak before good
        × (check_row keccak (tail_hash before good) bad ≡ some why)
        × (walk keccak before n rows ≡ refused (n + length good + 1) bad.id why)
  unfolding walk tail_hash
  walk_refusal before n [] h = cc
  walk_refusal before n (row ∷ rows) h = elim (Option-cases (check_row keccak before row)) [
    | inr (why, e) ↦ (
      [],
      row,
      rows,
      why,
      refl,
      tt,
      e,
      rw (e, walk) (ap (λ k. refused k row.id why) (omega arith)),
    )
    | inl e ↦
        let (good, bad, rest, why, split, l, c, v) =
          walk_refusal row.row_hash (n + 1) rows (rw (e, walk) at h) in
        (
          row ∷ good,
          bad,
          rest,
          why,
          ap (◌∷◌ row) split,
          (IsLink-of_check_row keccak before row e, l),
          c,
          rw (e, walk) (v ∙ ap (λ k. refused k bad.id why) (omega arith)),
        )
  ]
