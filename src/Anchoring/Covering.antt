-- ===== src/Anchoring/Covering.antt =====
-- The rows of one subject and the anchors that cover them: selected rows, ids, and the covering query.
use apichain_backend.Base.{
  ℕ, suc, ◌≤◌, ◌≡◌, refl, sym, ap, ◌∙◌, Bool, true, false, ◌&&◌, inl, inr, none, some, List, [],
  ◌∷◌, arith, leb, ◌==◌, get_elem?, Bool-cases, All, Member,
}
use apichain_backend.Audit.Content.{AuditRow}
use apichain_backend.Audit.Chain.{select_rows}
use apichain_backend.Audit.Ranges.{Ascending}
use apichain_backend.Anchoring.Stamp.{MerkleAnchor, ids}
use apichain_backend.Anchoring.Proofs.{
  is_covering, covering_anchors, first_covering, index_of, last_id,
}

Ascending-mono : (a b : ℕ) (rows : List AuditRow) → a ≤ b → Ascending b rows → Ascending a rows
Ascending-mono a b [] h asc = tt
Ascending-mono a b (row ∷ rows) h (lt, asc) = (omega arith, asc)

pub select_rows-Ascending :
    (test : AuditRow → Bool) (a : ℕ) (rows : List AuditRow)
    → Ascending a rows
    → Ascending a (select_rows test rows)
unfolding select_rows
select_rows-Ascending test a [] asc = tt
select_rows-Ascending test a (row ∷ rows) (lt, asc) = elim (Bool-cases (test row)) [
  | inl y ↦ rw y (lt, select_rows-Ascending test row.id rows asc)
  | inr n ↦
      rw n (select_rows-Ascending test a rows (Ascending-mono a row.id rows (omega arith) asc))
]

pub Member-select_rows :
    (test : AuditRow → Bool) (row : AuditRow) (rows : List AuditRow)
    → Member row rows
    → test row ≡ true
    → Member row (select_rows test rows)
unfolding select_rows
Member-select_rows test row [] m h = absurd m
Member-select_rows test row (r ∷ rows) (inl e) h =
    let y : test r ≡ true = ap test (sym e) ∙ h in rw y (inl e)
Member-select_rows test row (r ∷ rows) (inr m) h = elim (Bool-cases (test r)) [
  | inl y ↦ rw y (inr (Member-select_rows test row rows m h))
  | inr n ↦ rw n (Member-select_rows test row rows m h)
]

pub Member-of_select_rows :
    (test : AuditRow → Bool) (row : AuditRow) (rows : List AuditRow)
    → Member row (select_rows test rows)
    → Member row rows
unfolding select_rows
Member-of_select_rows test row [] m = m
Member-of_select_rows test row (r ∷ rows) m = elim (Bool-cases (test r)) [
  | inl y ↦ keep (rw y at m) (Member-of_select_rows test row rows)
  | inr n ↦ inr (Member-of_select_rows test row rows (rw n at m))
]
  where
    keep :
        Member row (r ∷ select_rows test rows)
        → (Member row (select_rows test rows) → Member row rows)
        → Member row (r ∷ rows)
    keep (inl e) f = inl e
    keep (inr m') f = inr (f m')

-- An id below all ids of the rows has no place among them.
index_of-none :
    (x a : ℕ) (rows : List AuditRow) → x ≤ a → Ascending a rows → index_of x (ids rows) ≡ none
unfolding index_of
index_of-none x a [] h asc = refl
index_of-none x a (row ∷ rows) h (lt, asc) =
    ground (arith, index_of-none x row.id rows (omega arith) asc)

-- A row is found at the place of its id.
pub index_of-get_elem? :
    (a : ℕ) (rows : List AuditRow) (row : AuditRow)
    → Ascending a rows
    → Member row rows
    → (i : ℕ) × (index_of row.id (ids rows) ≡ some i) × (get_elem? rows i ≡ some row)
unfolding index_of
index_of-get_elem? a [] row asc m = absurd m
index_of-get_elem? a (r ∷ rows) row (lt, asc) (inl e) =
    let n : index_of row.id (ids rows) ≡ none =
      index_of-none row.id r.id rows (omega (arith, ap (λ x. x.id) e)) asc in
    let y : (r.id == row.id) ≡ true = ground (arith, ap (λ x. x.id) e) in
    (0, rw (n, index_of) (rw y refl), ap some (sym e))
index_of-get_elem? a (r ∷ rows) row (lt, asc) (inr m) =
    let (i, e, g) = index_of-get_elem? r.id rows row asc m in (suc i, rw (e, index_of) refl, g)

-- An anchor that does not cover an id.
abbrev pub Misses : ℕ → MerkleAnchor → Type 0
Misses audit_id a = is_covering audit_id a ≡ false

pub Misses-first_covering :
    (audit_id : ℕ) (list : List MerkleAnchor)
    → first_covering audit_id list ≡ none
    → All (Misses audit_id) list
unfolding first_covering
Misses-first_covering audit_id [] e = tt
Misses-first_covering audit_id (a ∷ list) e = elim (Bool-cases (is_covering audit_id a)) [
  | inl y ↦ absurd (never (rw y at e))
  | inr n ↦ (n, Misses-first_covering audit_id list (rw n at e))
]
  where
    never : some a ≡ none → ⊥
    never q = cc

-- An anchor that the query leaves out covers no id between its bounds.
pub Misses-covering_anchors :
    (first last audit_id : ℕ) (list : List MerkleAnchor)
    → first ≤ audit_id
    → audit_id ≤ last
    → All (Misses audit_id) (covering_anchors first last list)
    → All (Misses audit_id) list
unfolding covering_anchors
Misses-covering_anchors first last audit_id [] l u h = tt
Misses-covering_anchors first last audit_id (a ∷ list) l u h =
    elim (Bool-cases (leb first a.to_audit_id && leb a.from_audit_id last)) [
      | inl y ↦ kept (rw y at h) (Misses-covering_anchors first last audit_id list l u)
      | inr n ↦ (
        outside a.from_audit_id a.to_audit_id n,
        Misses-covering_anchors first last audit_id list l u (rw n at h),
      )
    ]
  where
    kept :
        All (Misses audit_id) (a ∷ covering_anchors first last list)
        → (All (Misses audit_id) (covering_anchors first last list) → All (Misses audit_id) list)
        → All (Misses audit_id) (a ∷ list)
    kept (m, ms) f = (m, f ms)

    outside :
        (from to : ℕ)
        → (leb first to && leb from last) ≡ false
        → (leb from audit_id && leb audit_id to) ≡ false
    outside from to n = ground arith

-- The ids of ascending rows lie between the first and the last.
le-last_id : (x : ℕ) (rows : List AuditRow) → Ascending x rows → x ≤ last_id x rows
le-last_id x [] asc = omega arith
le-last_id x (row ∷ rows) (lt, asc) = omega (arith, lt, le-last_id row.id rows asc)

between_ids :
    (x : ℕ) (rows : List AuditRow) (row : AuditRow)
    → Ascending x rows
    → Member row rows
    → (x ≤ row.id) × (row.id ≤ last_id x rows)
between_ids x [] row asc m = absurd m
between_ids x (r ∷ rows) row (lt, asc) (inl e) =
    let same : row.id ≡ r.id = ap (λ (t : AuditRow). t.id) e in
    (omega (arith, lt, same), omega (arith, same, le-last_id r.id rows asc))
between_ids x (r ∷ rows) row (lt, asc) (inr m) =
    let (l, u) = between_ids r.id rows row asc m in (omega (arith, lt, l), u)

pub first_or_later :
    (row : AuditRow) (rows : List AuditRow) (r : AuditRow)
    → Ascending row.id rows
    → Member r (row ∷ rows)
    → (row.id ≤ r.id) × (r.id ≤ last_id row.id rows)
first_or_later row rows r asc (inl e) =
    let same : r.id ≡ row.id = ap (λ (t : AuditRow). t.id) e in
    (omega (arith, same), omega (arith, same, le-last_id row.id rows asc))
first_or_later row rows r asc (inr m) = between_ids row.id rows r asc m
