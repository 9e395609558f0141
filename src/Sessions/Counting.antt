-- ===== src/Sessions/Counting.antt =====
-- The sessions of a user over the revocations and changes that the operations make.
use apichain_backend.Base.{
  ℕ, ◌+◌, ◌≡◌, refl, ap, Bool, true, false, not, ◌&&◌, Option, none, some, List, [], ◌∷◌, ◌==◌, leb,
  arith, Bool-cases, inl, inr, if◌then◌else◌,
}
use apichain_backend.Sessions.Tokens.{
  RefreshToken, TokenSettings, Clock, is_set, find_id, revoked, revoke_for, revoke_all, is_recent,
  recent_found, within_reuse_window,
}
use apichain_backend.Sessions.Rows.{session_of, count_sessions, some-eq}
use apichain_backend.Sessions.Valid.{user_of}

pub revoke_for_sessions :
    (user_id now : ℕ) (row : RefreshToken) → session_of user_id (revoke_for user_id now row) ≡ 0
revoke_for_sessions user_id now row = ground arith

pub count_sessions-revoke_all :
    (user_id now : ℕ) (rows : List RefreshToken)
    → count_sessions user_id (revoke_all user_id now rows) ≡ 0
unfolding count_sessions revoke_all
count_sessions-revoke_all user_id now [] = refl
count_sessions-revoke_all user_id now (row ∷ rows) =
    omega (arith, revoke_for_sessions user_id now row, count_sessions-revoke_all user_id now rows)

revoke_for_other :
    (user_id other now : ℕ) (row : RefreshToken)
    → (user_id == other) ≡ false
    → session_of other (revoke_for user_id now row) ≡ session_of other row
revoke_for_other user_id other now row n = ground arith

pub count_sessions-revoke_all_other :
    (user_id other now : ℕ) (rows : List RefreshToken)
    → (user_id == other) ≡ false
    → count_sessions other (revoke_all user_id now rows) ≡ count_sessions other rows
unfolding count_sessions revoke_all
count_sessions-revoke_all_other user_id other now [] n = refl
count_sessions-revoke_all_other user_id other now (row ∷ rows) n = omega (
  arith,
  revoke_for_other user_id other now row n,
  count_sessions-revoke_all_other user_id other now rows n,
)

pub user_of-find_id :
    (id : ℕ) (rows : List RefreshToken) (row : RefreshToken)
    → find_id id rows ≡ some row
    → user_of id rows ≡ some row.user_id
unfolding find_id user_of
user_of-find_id id [] row h = cc
user_of-find_id id (r ∷ rows) row h = elim (Bool-cases (r.id == id)) [
  | inl y ↦ rw y (ap (λ (t : RefreshToken). some t.user_id) (some-eq (rw y at h)))
  | inr n ↦ rw n (user_of-find_id id rows row (rw n at h))
]

-- A token that neither was revoked nor has a successor is a session of its user.
pub session_of_unspent :
    (u : ℕ) (row : RefreshToken)
    → row.revoked_at ≡ none
    → row.rotated_to ≡ none
    → session_of u row ≡ (if row.user_id == u then 1 else 0)
session_of_unspent u row a b = rw (a, b) ground arith

pub session_of_spent :
    (u : ℕ) (row : RefreshToken) (next : ℕ) → row.rotated_to ≡ some next → session_of u row ≡ 0
session_of_spent u row next h = rw h ground arith

pub session_of-revoked : (u now : ℕ) (row : RefreshToken) → session_of u (revoked now row) ≡ 0
session_of-revoked u now row = ground arith

abbrev pub one_of : Bool → ℕ
one_of b = if b then 1 else 0

pub session_of_recent :
    (settings : TokenSettings) (clock : Clock) (u : ℕ) (row : RefreshToken)
    → is_recent settings clock row ≡ true
    → session_of u row ≡ one_of (row.user_id == u)
session_of_recent settings clock u row h =
    go (is_set row.rotated_to) (is_set row.revoked_at)
      (leb clock.sql_now (row.issued_at + settings.reuse_window)) (row.user_id == u) h
  where
    go :
        (a b c d : Bool)
        → (not a && (not b && c)) ≡ true
        → one_of (d && (not b && not a)) ≡ one_of d
    go true b c d e = cc
    go false true c d e = cc
    go false false c true e = refl
    go false false c false e = refl

-- The successor of a token that is presented within the window.
pub recent_successor :
    (settings : TokenSettings) (clock : Clock) (next : ℕ) (rows : List RefreshToken)
    → within_reuse_window settings clock next rows ≡ true
    → (row : RefreshToken) × (find_id next rows ≡ some row) × (is_recent settings clock row ≡ true)
unfolding within_reuse_window
recent_successor settings clock next rows h = go (find_id next rows) refl h
  where
    go :
        (found : Option RefreshToken)
        → find_id next rows ≡ found
        → recent_found settings clock found ≡ true
        → (row : RefreshToken) × (find_id next rows ≡ some row)
          × (is_recent settings clock row ≡ true)
    go none n e = cc
    go (some row) y e = (row, y, e)
