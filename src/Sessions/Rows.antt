-- ===== src/Sessions/Rows.antt =====
-- Lookups and counts over changed rows.
use apichain_backend.Base.{
  ℕ, ◌+◌, ◌≤◌, ◌<◌, ◌≡◌, ◌≢◌, refl, sym, ap, ◌∙◌, Bool, true, false, not, ◌&&◌, some, List, [], ◌∷◌,
  ◌++◌, ◌==◌, ==_iff, arith, Bool-cases, inl, inr, if◌then◌else◌,
}
use apichain_backend.Base.Bytes.{bytes_eq}
use apichain_backend.Canonical.Text.{Text}
use apichain_backend.Sessions.Tokens.{
  RefreshToken, is_set, find_id, find_hash, change_row, revoked, rotated_into,
}

-- A session: a token that is neither revoked nor rotated out.
abbrev pub is_session : RefreshToken → Bool
is_session row = not (is_set row.revoked_at) && not (is_set row.rotated_to)

abbrev pub session_of : ℕ → RefreshToken → ℕ
session_of user_id row = if row.user_id == user_id && is_session row then 1 else 0

unfoldable pub count_sessions : ℕ → List RefreshToken → ℕ
count_sessions user_id [] = 0
count_sessions user_id (row ∷ rows) = session_of user_id row + count_sessions user_id rows

-- Ids in the order of the primary key.
abbrev pub Rising : ℕ → List RefreshToken → Type 0
Rising above [] = Unit
Rising above (row ∷ rows) = (above < row.id) × Rising row.id rows

-- A change that keeps what a token is looked up by.
pub record KeepsKeys (f : RefreshToken → RefreshToken) : Type 0 where
  pub same_id : (row : RefreshToken) → (f row).id ≡ row.id
  pub same_user : (row : RefreshToken) → (f row).user_id ≡ row.user_id
  pub same_hash : (row : RefreshToken) → (f row).token_hash ≡ row.token_hash

pub revoked-KeepsKeys : (now : ℕ) → KeepsKeys (revoked now)
revoked-KeepsKeys now = record {
  same_id = λ row. refl;
  same_user = λ row. refl;
  same_hash = λ row. refl;
}

pub rotated_into-KeepsKeys : (id : ℕ) → KeepsKeys (rotated_into id)
rotated_into-KeepsKeys id = record {
  same_id = λ row. refl;
  same_user = λ row. refl;
  same_hash = λ row. refl;
}

pub some-eq : {A : Type 0} {a b : A} → some a ≡ some b → a ≡ b
some-eq e = cc

pub ==_refl : (a : ℕ) → (a == a) ≡ true
==_refl a = ground arith

pub not_== : (a b : ℕ) → a ≢ b → (a == b) ≡ false
not_== a b n = ground arith

pub count_sessions-append :
    (user_id : ℕ) (rows : List RefreshToken) (row : RefreshToken)
    → count_sessions user_id (rows ++ row ∷ [])
      ≡ count_sessions user_id rows + session_of user_id row
unfolding count_sessions
count_sessions-append user_id [] row = omega arith
count_sessions-append user_id (r ∷ rows) row = omega (arith, count_sessions-append user_id rows row)

-- A change moves the count by what it does to the changed row.
pub count_sessions-change_row :
    (user_id id : ℕ) (f : RefreshToken → RefreshToken) (rows : List RefreshToken)
    (row : RefreshToken)
    → find_id id rows ≡ some row
    → count_sessions user_id (change_row id f rows) + session_of user_id row
      ≡ count_sessions user_id rows + session_of user_id (f row)
unfolding count_sessions find_id change_row
count_sessions-change_row user_id id f [] row h = cc
count_sessions-change_row user_id id f (r ∷ rows) row h = elim (Bool-cases (r.id == id)) [
  | inl y ↦ (let same : r ≡ row = some-eq (rw y at h) in rw (y, sym same) (omega arith))
  | inr n ↦
      (let ih = count_sessions-change_row user_id id f rows row (rw n at h) in
        rw n (omega (arith, ih)))
]

pub find_id-append :
    (id : ℕ) (rows : List RefreshToken) (row new : RefreshToken)
    → find_id id rows ≡ some row
    → find_id id (rows ++ new ∷ []) ≡ some row
unfolding find_id
find_id-append id [] row new h = cc
find_id-append id (r ∷ rows) row new h = elim (Bool-cases (r.id == id)) [
  | inl y ↦ rw y (rw y at h)
  | inr n ↦ rw n (find_id-append id rows row new (rw n at h))
]

pub find_id-change_row :
    (id : ℕ) (f : RefreshToken → RefreshToken) (rows : List RefreshToken) (row : RefreshToken)
    → KeepsKeys f
    → find_id id rows ≡ some row
    → find_id id (change_row id f rows) ≡ some (f row)
unfolding find_id change_row
find_id-change_row id f [] row k h = cc
find_id-change_row id f (r ∷ rows) row k h = elim (Bool-cases (r.id == id)) [
  | inl y ↦
      (let same : r ≡ row = some-eq (rw y at h) in
        let kept : ((f r).id == id) ≡ true = ap (λ i. i == id) (k.same_id r) ∙ y in
        rw y rw kept (ap (λ (x : RefreshToken). some (f x)) same))
  | inr n ↦ rw n rw n (find_id-change_row id f rows row k (rw n at h))
]

pub find_id-change_row_other :
    (id other : ℕ) (f : RefreshToken → RefreshToken) (rows : List RefreshToken)
    → KeepsKeys f
    → (id == other) ≡ false
    → find_id other (change_row id f rows) ≡ find_id other rows
unfolding find_id change_row
find_id-change_row_other id other f [] k n = refl
find_id-change_row_other id other f (r ∷ rows) k n = elim (Bool-cases (r.id == id)) [
  | inl y ↦
      (let away : (r.id == other) ≡ false = rw ((==_iff r.id id).0 y) n in
        rw y rw (k.same_id r) rw away refl)
  | inr m ↦
      rw m (
        ap (λ o. if r.id == other then some r else o)
          (find_id-change_row_other id other f rows k n))
]

pub Rising-mono : (a b : ℕ) (rows : List RefreshToken) → a ≤ b → Rising b rows → Rising a rows
Rising-mono a b [] h r = tt
Rising-mono a b (row ∷ rows) h (lt, r) = (omega arith, r)

-- A looked-up row lies above the bound of the ids.
pub above_of_find_hash :
    (hash : Text) (a : ℕ) (rows : List RefreshToken) (row : RefreshToken)
    → Rising a rows
    → find_hash hash rows ≡ some row
    → a < row.id
unfolding find_hash
above_of_find_hash hash a [] row r h = cc
above_of_find_hash hash a (x ∷ rows) row (lt, r) h =
    elim (Bool-cases (bytes_eq x.token_hash hash)) [
      | inl y ↦ (let same : x ≡ row = some-eq (rw y at h) in rw (sym same) lt)
      | inr n ↦ omega (arith, lt, above_of_find_hash hash x.id rows row r (rw n at h))
    ]

-- The row of a hash is the row of its own id.
pub find_id_of_find_hash :
    (hash : Text) (a : ℕ) (rows : List RefreshToken) (row : RefreshToken)
    → Rising a rows
    → find_hash hash rows ≡ some row
    → find_id row.id rows ≡ some row
unfolding find_hash find_id
find_id_of_find_hash hash a [] row r h = cc
find_id_of_find_hash hash a (x ∷ rows) row (lt, r) h =
    elim (Bool-cases (bytes_eq x.token_hash hash)) [
      | inl y ↦ (let same : x ≡ row = some-eq (rw y at h) in rw (sym same) rw (==_refl x.id) refl)
      | inr n ↦
          (let tail = rw n at h in
            rw
              (not_== x.id row.id
                (λ e. absurd (below x.id row.id e (above_of_find_hash hash x.id rows row r tail))))
              (find_id_of_find_hash hash x.id rows row r tail))
    ]
  where
    below : (p q : ℕ) → p ≡ q → p < q → ⊥
    below p q e l = omega arith

-- The changed row answers to its hash.
pub find_hash-change_row :
    (hash : Text) (a : ℕ) (f : RefreshToken → RefreshToken) (rows : List RefreshToken)
    (row : RefreshToken)
    → KeepsKeys f
    → Rising a rows
    → find_hash hash rows ≡ some row
    → find_hash hash (change_row row.id f rows) ≡ some (f row)
unfolding find_hash change_row
find_hash-change_row hash a f [] row k r h = cc
find_hash-change_row hash a f (x ∷ rows) row k (lt, r) h =
    elim (Bool-cases (bytes_eq x.token_hash hash)) [
      | inl y ↦
          (let same : x ≡ row = some-eq (rw y at h) in
            rw (sym same) rw (==_refl x.id) rw (k.same_hash x) rw y refl)
      | inr n ↦
          (let tail = rw n at h in
            rw
              (not_== x.id row.id
                (λ e. absurd (below x.id row.id e (above_of_find_hash hash x.id rows row r tail))))
              rw n (find_hash-change_row hash x.id f rows row k r tail))
    ]
  where
    below : (p q : ℕ) → p ≡ q → p < q → ⊥
    below p q e l = omega arith

-- A change of another row leaves it.
pub find_hash-change_row_other :
    (hash : Text) (id a : ℕ) (f : RefreshToken → RefreshToken) (rows : List RefreshToken)
    (row : RefreshToken)
    → KeepsKeys f
    → (id == row.id) ≡ false
    → find_hash hash rows ≡ some row
    → find_hash hash (change_row id f rows) ≡ some row
unfolding find_hash change_row
find_hash-change_row_other hash id a f [] row k n h = cc
find_hash-change_row_other hash id a f (x ∷ rows) row k n h =
    elim (Bool-cases (bytes_eq x.token_hash hash)) [
      | inl y ↦
          (let same : x ≡ row = some-eq (rw y at h) in
            rw (apart x.id row.id id (ap (λ (t : RefreshToken). t.id) same) n) rw y (ap some same))
      | inr m ↦ elim (Bool-cases (x.id == id)) [
        | inl here ↦ rw here rw (k.same_hash x) rw m (rw m at h)
        | inr there ↦
            rw there rw m (find_hash-change_row_other hash id a f rows row k n (rw m at h))
      ]
    ]
  where
    apart : (p q i : ℕ) → p ≡ q → (i == q) ≡ false → (p == i) ≡ false
    apart p q i e m = ground arith

pub find_hash-append :
    (hash : Text) (rows : List RefreshToken) (row new : RefreshToken)
    → find_hash hash rows ≡ some row
    → find_hash hash (rows ++ new ∷ []) ≡ some row
unfolding find_hash
find_hash-append hash [] row new h = cc
find_hash-append hash (r ∷ rows) row new h = elim (Bool-cases (bytes_eq r.token_hash hash)) [
  | inl y ↦ rw y (rw y at h)
  | inr n ↦ rw n (find_hash-append hash rows row new (rw n at h))
]
