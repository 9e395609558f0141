-- ===== src/Anchoring/RunLaws.antt =====
-- What `contiguous_run` takes, and which rows of the table lie between its first and its last id.
use apichain_backend.Base.{
  ℕ, suc, ◌+◌, ◌-◌, ◌≤◌, ◌<◌, ◌≡◌, ◌≢◌, refl, sym, ap, ap₂, false, ◌⊎◌, inl, inr, none, some, List,
  [], ◌∷◌, ◌++◌, arith, leb, ◌==◌, length, Bool-cases, le→leb,
}
use mathlib.Core.Path.{subst}
use apichain_backend.Audit.Content.{AuditRow}
use apichain_backend.Audit.Chain.{is_within, select_rows}
use apichain_backend.Audit.Ranges.{Ascending, select_rows-beyond}
use apichain_backend.Anchoring.Run.{run_loop, contiguous_run}
use apichain_backend.Anchoring.Stamp.{ids, last_of, between}

-- `start`, `start + 1`, … with no gap.
abbrev pub IsRun : ℕ → List ℕ → Type 0
IsRun start [] = Unit
IsRun start (x ∷ xs) = (x ≡ start) × IsRun (start + 1) xs

-- The next id is not there.
abbrev pub IsGap : ℕ → List ℕ → Type 0
IsGap expected [] = Unit
IsGap expected (x ∷ xs) = x ≢ expected

-- What a run takes of the available ids: an unbroken prefix, which ends only at the limit or where
-- the next id is missing.
abbrev pub TakesRun : ℕ → ℕ → List ℕ → List ℕ → Type 0
TakesRun start max_rows available run =
    (rest : List ℕ) × (available ≡ run ++ rest)
    × IsRun start run
    × (length run ≤ max_rows)
    × ((length run ≡ max_rows) ⊎ IsGap (start + length run) rest)

run_loop-TakesRun :
    (available : List ℕ) (expected taken max_rows : ℕ)
    → (left : ℕ) → left + taken ≡ max_rows
    → 0 < left
    → TakesRun expected left available (run_loop available expected taken max_rows)
unfolding run_loop
run_loop-TakesRun [] expected taken max_rows left e h = ([], refl, tt, omega arith, inr tt)
run_loop-TakesRun (x ∷ available) expected taken max_rows left e h =
    elim (Bool-cases (x == expected)) [
      | inr n ↦ rw n (x ∷ available, refl, tt, omega arith, inr (ground arith))
      | inl y ↦ elim (Bool-cases (leb max_rows (taken + 1))) [
        | inl full ↦
            rw (y, full) (available, refl, (ground arith, tt), ground arith, inl (ground arith))
        | inr more ↦
            let (rest, split, run, short, stop) =
              run_loop-TakesRun available (expected + 1) (taken + 1) max_rows (left - 1)
                (ground arith) (ground arith) in
            rw (y, more)
              (rest, ap (◌∷◌ x) split, (ground arith, run), ground arith, again rest stop)
      ]
    ]
  where
    again :
        (rest : List ℕ)
        → (length (run_loop available (expected + 1) (taken + 1) max_rows) ≡ left - 1)
          ⊎ IsGap
              (expected + 1 + length (run_loop available (expected + 1) (taken + 1) max_rows))
              rest
        → (suc (length (run_loop available (expected + 1) (taken + 1) max_rows)) ≡ left)
          ⊎ IsGap
              (expected + suc (length (run_loop available (expected + 1) (taken + 1) max_rows)))
              rest
    again rest (inl full) = inl (omega arith)
    again [] (inr gap) = inr tt
    again (y ∷ rest) (inr gap) = inr (omega arith)

-- `contiguous_run` takes the longest unbroken prefix of at most `max_rows` ids from `start`: it ends
-- at the limit, at the end of the ids, or where the next id is missing.
pub contiguous_run-TakesRun :
    (available : List ℕ) (start max_rows : ℕ)
    → 0 < max_rows
    → TakesRun start max_rows available (contiguous_run available start max_rows)
unfolding contiguous_run
contiguous_run-TakesRun available start max_rows h =
    run_loop-TakesRun available start 0 max_rows max_rows (omega arith) h

le-last_of : (x : ℕ) (run : List ℕ) → IsRun (x + 1) run → x ≤ last_of x run
le-last_of x [] r = omega arith
le-last_of x (y ∷ run) (e, r) =
    omega (arith, le-last_of y run (subst (λ k. IsRun (k + 1) run) (sym e) r))

-- The last id of a run is its first plus its length.
pub last_of-eq : (x : ℕ) (run : List ℕ) → IsRun (x + 1) run → last_of x run ≡ x + length run
last_of-eq x [] r = omega arith
last_of-eq x (y ∷ run) (e, r) =
    omega (arith, last_of-eq y run (subst (λ k. IsRun (k + 1) run) (sym e) r))

-- Among rows above `x`, those up to the end of a run that begins with the next id are the run.
ids-between_above :
    (lo x : ℕ) (run rest : List ℕ) (rows : List AuditRow)
    → lo ≤ x
    → Ascending x rows
    → IsRun (x + 1) run
    → ids rows ≡ run ++ rest
    → ids (between lo (last_of x run) rows) ≡ run
unfolding select_rows
ids-between_above lo x [] rest rows h asc r e =
    rw (select_rows-beyond (some lo) x x rows (omega arith) asc) refl
ids-between_above lo x (y ∷ run) rest [] h asc r e = cc
ids-between_above lo x (y ∷ run) rest (row ∷ rows) h (lt, asc) (first, r) e =
    let i : row.id ≡ y = cc in
    let r' = subst (λ k. IsRun (k + 1) run) (sym first) r in
    rw
      (
        le→leb lo row.id (omega arith),
        le→leb row.id (last_of y run) (omega (arith, le-last_of y run r')),
      )
      (ap₂ ◌∷◌ i (
        ids-between_above lo y run rest rows (omega arith) (subst (λ k. Ascending k rows) i asc) r'
          (cc)))

pub select_rows-ge :
    (s x : ℕ) (ys : List ℕ) (rows : List AuditRow)
    → ids (select_rows (is_within (some s) none) rows) ≡ x ∷ ys
    → s ≤ x
unfolding select_rows
select_rows-ge s x ys [] e = cc
select_rows-ge s x ys (row ∷ rows) e = elim (Bool-cases (leb s row.id)) [
  | inl y ↦ let i : row.id ≡ x = ground (arith, rw y at e) in ground arith
  | inr n ↦ select_rows-ge s x ys rows (rw n at e)
]

select_rows-all_above :
    (s a : ℕ) (rows : List AuditRow)
    → s ≤ suc a
    → Ascending a rows
    → select_rows (is_within (some s) none) rows ≡ rows
unfolding select_rows
select_rows-all_above s a [] h asc = refl
select_rows-all_above s a (row ∷ rows) h (lt, asc) =
    rw (le→leb s row.id (omega arith), select_rows-all_above s row.id rows (omega arith) asc)

-- A run at the head of the ids from `s` on is exactly what lies between its first and its last id.
pub ids-between :
    (s a x : ℕ) (run rest : List ℕ) (rows : List AuditRow)
    → Ascending a rows
    → IsRun (x + 1) run
    → ids (select_rows (is_within (some s) none) rows) ≡ x ∷ run ++ rest
    → ids (between x (last_of x run) rows) ≡ x ∷ run
unfolding select_rows
ids-between s a x run rest [] asc r e = cc
ids-between s a x run rest (row ∷ rows) (lt, asc) r e = elim (Bool-cases (leb s row.id)) [
  | inl y ↦
      let e' = rw (y, select_rows-all_above s row.id rows (ground arith) asc) at e in
      let i : row.id ≡ x = cc e' in
      rw
        (
          le→leb x row.id (omega arith),
          le→leb row.id (last_of x run) (omega (arith, le-last_of x run r)),
        )
        (ap₂ ◌∷◌ i (
          ids-between_above x x run rest rows (omega arith) (subst (λ k. Ascending k rows) i asc) r
            (cc e')))
  | inr n ↦
      let e' = rw n at e in
      let below : leb x row.id ≡ false = ground (arith, select_rows-ge s x (run ++ rest) rows e') in
      rw below (ids-between s row.id x run rest rows asc r e')
]
