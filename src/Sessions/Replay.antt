-- ===== src/Sessions/Replay.antt =====
-- The table after a rotation: its invariant, and the row that was presented.
use mathlib.Core.Path.{subst}
use apichain_backend.Base.{
  ℕ, ◌+◌, ◌<◌, ◌≡◌, refl, sym, ap, ◌∙◌, Bool, true, false, some, List, [], ◌∷◌, ◌++◌, ◌==◌, arith,
  Bool-cases, inl, inr,
}
use apichain_backend.Canonical.Text.{Text}
use apichain_backend.Sessions.Tokens.{
  RefreshToken, TokenTable, TokenSettings, Clock, find_id, find_hash, change_row, revoked,
  rotated_into, is_recent, within_reuse_window, rotated, new_token, issue, rotate,
}
use apichain_backend.Sessions.Rows.{
  revoked-KeepsKeys, rotated_into-KeepsKeys, some-eq, ==_refl, not_==, find_id_of_find_hash,
  find_id-append, find_id-change_row, find_id-change_row_other, find_hash-change_row,
  find_hash-change_row_other, find_hash-append,
}
use apichain_backend.Sessions.Valid.{
  user_of, LinkWithin, Below, IsValid, link_of_find_id, change_row-IsValid, revoked-IsValid,
  issue-IsValid, user_of_issued,
}
use apichain_backend.Sessions.Counting.{recent_successor}
use apichain_backend.Sessions.Rotation.{linked, regraced, Rotated-rotate}

pub Below-of_find_id :
    (b id : ℕ) (rows : List RefreshToken) (row : RefreshToken)
    → Below b rows
    → find_id id rows ≡ some row
    → row.id < b
unfolding find_id
Below-of_find_id b id [] row l h = cc
Below-of_find_id b id (x ∷ rows) row (lt, l) h = elim (Bool-cases (x.id == id)) [
  | inl y ↦ (let same : x ≡ row = some-eq (rw y at h) in rw (sym same) lt)
  | inr n ↦ Below-of_find_id b id rows row l (rw n at h)
]

pub find_id_new :
    (rows : List RefreshToken) (new : RefreshToken)
    → Below new.id rows
    → find_id new.id (rows ++ new ∷ []) ≡ some new
unfolding find_id
find_id_new [] new b = rw (==_refl new.id) refl
find_id_new (r ∷ rows) new (lt, b) =
    rw (not_== r.id new.id (λ e. absurd (less r.id new.id e lt))) (find_id_new rows new b)
  where
    less : (p q : ℕ) → p ≡ q → p < q → ⊥
    less p q e l = omega arith

pub apart : (a b : ℕ) → a < b → (b == a) ≡ false
apart a b l = ground arith

pub apart' : (a b : ℕ) → a < b → (a == b) ≡ false
apart' a b l = ground arith

pub not_recent :
    (settings : TokenSettings) (clock : Clock) (row : RefreshToken)
    → row.issued_at + settings.reuse_window < clock.sql_now
    → is_recent settings clock row ≡ false
not_recent settings clock row l = ground arith

module _ (hash_token : Text → Text) (settings : TokenSettings) where
  -- The row that was presented, in the table of the rotation.
  pub record Presented (clock : Clock) (new_raw : Text) (row held : RefreshToken) (hash : Text)
      (table : TokenTable) : Type 0 where
    pub valid : IsValid table
    pub by_id : find_id row.id table.rows ≡ some held
    pub by_hash : find_hash hash table.rows ≡ some held
    pub same_id : held.id ≡ row.id
    pub same_user : held.user_id ≡ row.user_id

  linked-IsValid :
      (clock : Clock) (new_raw : Text) (row held : RefreshToken) (hash : Text) (table : TokenTable)
      → Presented clock new_raw row held hash table
      → IsValid (linked hash_token settings clock new_raw row table)
  unfolding issue
  linked-IsValid clock new_raw row held hash table p =
      let new = new_token hash_token settings clock row.user_id new_raw table.next_id in
      change_row-IsValid (issue hash_token settings clock row.user_id new_raw table).0 row.id
        (rotated_into table.next_id) held (rotated_into-KeepsKeys table.next_id)
        (find_id-append row.id table.rows held new p.by_id)
        (
          Below-of_find_id table.next_id row.id table.rows held p.valid.below p.by_id,
          user_of_issued hash_token settings clock row.user_id new_raw table p.valid
              ∙ ap some (sym p.same_user),
        )
        (issue-IsValid hash_token settings clock row.user_id new_raw table p.valid)

  pub regraced-Presented :
      (clock : Clock) (new_raw : Text) (row : RefreshToken) (next : ℕ) (hash : Text)
      (table : TokenTable)
      → IsValid table
      → find_hash hash table.rows ≡ some row
      → row.rotated_to ≡ some next
      → within_reuse_window settings clock next table.rows ≡ true
      → Presented clock new_raw row
          (revoked clock.now row)
          hash
          (regraced hash_token settings clock row next table)
  regraced-Presented clock new_raw row next hash table v found link inside =
      let (successor, there, recent) = recent_successor settings clock next table.rows inside in
      let held = find_id_of_find_hash hash 0 table.rows row v.rising found in
      let (later, owner) : (row.id < next) × (user_of next table.rows ≡ some row.user_id) =
        subst (LinkWithin table.rows row.id row.user_id) link
          (link_of_find_id table.rows table.rows row.id row v.links held) in
      let rows1 : List RefreshToken = change_row next (revoked clock.now) table.rows in
      let v1 : IsValid (record table { rows = rows1 }) =
        revoked-IsValid table next clock.now successor there v in
      let kept : find_id row.id rows1 ≡ some row =
        find_id-change_row_other next row.id (revoked clock.now) table.rows
          (revoked-KeepsKeys clock.now) (apart row.id next later)
        ∙ held in
      let kept_hash : find_hash hash rows1 ≡ some row =
        find_hash-change_row_other hash next 0 (revoked clock.now) table.rows row
          (revoked-KeepsKeys clock.now) (apart row.id next later) found in
      record {
        valid = revoked-IsValid (record table { rows = rows1 }) row.id clock.now row kept v1;
        by_id =
            find_id-change_row row.id (revoked clock.now) rows1 row (revoked-KeepsKeys clock.now)
              kept;
        by_hash =
            find_hash-change_row hash 0 (revoked clock.now) rows1 row (revoked-KeepsKeys clock.now)
              v1.rising kept_hash;
        same_id = refl;
        same_user = refl;
      }

  pub plain_Presented :
      (clock : Clock) (new_raw : Text) (row : RefreshToken) (hash : Text) (table : TokenTable)
      → IsValid table
      → find_hash hash table.rows ≡ some row
      → Presented clock new_raw row row hash table
  plain_Presented clock new_raw row hash table v found = record {
    valid = v;
    by_id = find_id_of_find_hash hash 0 table.rows row v.rising found;
    by_hash = found;
    same_id = refl;
    same_user = refl;
  }

  -- A rotation keeps the table valid: ids in order and below the sequence, and each link to a later
  -- token of the same user.
  pub rotate-IsValid :
      (clock : Clock) (raw new_raw : Text) (table after : TokenTable) (new : RefreshToken)
      (grace : Bool)
      → IsValid table
      → rotate hash_token settings clock raw new_raw table ≡ rotated after new grace
      → IsValid after
  rotate-IsValid clock raw new_raw table after new grace v h =
      let p = Rotated-rotate hash_token settings clock raw new_raw table after new grace h in
      elim p.path [
        | inl (g, unspent, t) ↦ subst IsValid t (
            linked-IsValid clock new_raw p.row p.row (hash_token raw) table
              (plain_Presented clock new_raw p.row (hash_token raw) table v p.found))
        | inr (next, g, link, inside, t) ↦ subst IsValid t (
            linked-IsValid clock new_raw p.row (revoked clock.now p.row) (hash_token raw)
              (regraced hash_token settings clock p.row next table)
              (regraced-Presented clock new_raw p.row next (hash_token raw) table v p.found link
                inside))
      ]

  -- The presented row as the link leaves it.
  pub find_hash_linked :
      (clock : Clock) (new_raw : Text) (row held : RefreshToken) (hash : Text) (table : TokenTable)
      → Presented clock new_raw row held hash table
      → find_hash hash (linked hash_token settings clock new_raw row table).rows
        ≡ some (rotated_into table.next_id held)
  unfolding issue
  find_hash_linked clock new_raw row held hash table p =
      let new = new_token hash_token settings clock row.user_id new_raw table.next_id in
      let rows1 : List RefreshToken = table.rows ++ new ∷ [] in
      ap (λ i. find_hash hash (change_row i (rotated_into table.next_id) rows1)) (sym p.same_id)
      ∙ find_hash-change_row hash 0 (rotated_into table.next_id) rows1 held
          (rotated_into-KeepsKeys table.next_id)
          (issue-IsValid hash_token settings clock row.user_id new_raw table p.valid).rising
          (find_hash-append hash table.rows held new p.by_hash)
