-- ===== src/Sessions/Rotation.antt =====
-- `rotate`: what a rotation passes, and the number of sessions.
use mathlib.Core.Path.{subst}
use apichain_backend.Base.{
  ℕ, ◌+◌, ◌<◌, ◌≡◌, ◌⊎◌, refl, sym, ap, ◌∙◌, Bool, true, false, Option, none, some, List, [], ◌∷◌,
  ◌++◌, ◌==◌, leb, arith, Bool-cases, inl, inr,
}
use apichain_backend.Canonical.Text.{Text}
use apichain_backend.Sessions.Tokens.{
  RefreshToken, TokenTable, TokenSettings, Clock, find_id, find_hash, change_row, revoked,
  rotated_into, within_reuse_window, rotated, reuse_detected, invalid_token, new_token, issue,
  succeed, present, rotate_found, rotate,
}
use apichain_backend.Sessions.Rows.{
  session_of, count_sessions, count_sessions-append, count_sessions-change_row, revoked-KeepsKeys,
  some-eq, find_id_of_find_hash, find_id-append, find_id-change_row, find_id-change_row_other,
}
use apichain_backend.Sessions.Valid.{user_of, LinkWithin, IsValid, link_of_find_id}
use apichain_backend.Sessions.Counting.{
  user_of-find_id, session_of_unspent, session_of_spent, session_of-revoked, session_of_recent,
  one_of, recent_successor,
}

module _ (hash_token : Text → Text) (settings : TokenSettings) where
  -- The table of a rotation, from the table in which the row was presented.
  abbrev pub linked : Clock → Text → RefreshToken → TokenTable → TokenTable
  linked clock new_raw row table = record {
    rows =
        change_row row.id (rotated_into table.next_id) (
          table.rows ++ new_token hash_token settings clock row.user_id new_raw table.next_id ∷ []);
    next_id = table.next_id + 1;
  }

  -- The table in which a spent token is presented within the window.
  abbrev pub regraced : Clock → RefreshToken → ℕ → TokenTable → TokenTable
  regraced clock row next table = record table {
    rows = change_row row.id (revoked clock.now) (change_row next (revoked clock.now) table.rows);
  }

  -- What a rotation has passed.
  pub record Rotated (clock : Clock) (raw new_raw : Text) (table after : TokenTable)
      (new : RefreshToken) (grace : Bool) : Type 0 where
    pub row : RefreshToken
    pub found : find_hash (hash_token raw) table.rows ≡ some row
    pub unrevoked : row.revoked_at ≡ none
    pub issued : new ≡ new_token hash_token settings clock row.user_id new_raw table.next_id
    pub path :
        ((grace ≡ false) × (row.rotated_to ≡ none) × (linked clock new_raw row table ≡ after))
        ⊎ ((next : ℕ) × (grace ≡ true)
            × (row.rotated_to ≡ some next)
            × (within_reuse_window settings clock next table.rows ≡ true)
            × (linked clock new_raw row (regraced clock row next table) ≡ after))

  succeed_rotated :
      (clock : Clock) (new_raw : Text) (row : RefreshToken) (g : Bool) (table after : TokenTable)
      (new : RefreshToken) (grace : Bool)
      → succeed hash_token settings clock new_raw row g table ≡ rotated after new grace
      → (grace ≡ g)
        × (linked clock new_raw row table ≡ after)
        × (new ≡ new_token hash_token settings clock row.user_id new_raw table.next_id)
  unfolding issue
  succeed_rotated clock new_raw row g table after new grace h =
      elim (Bool-cases (leb row.expires_at clock.now)) [
        | inl expired ↦ absurd (not_invalid (rw expired at h))
        | inr live ↦ parts (rw live at h)
      ]
    where
      not_invalid : invalid_token ≡ rotated after new grace → ⊥
      not_invalid e = cc

      parts :
          {t : TokenTable} {n : RefreshToken}
          → rotated t n g ≡ rotated after new grace
          → (grace ≡ g) × (t ≡ after) × (new ≡ n)
      parts e = (cc, cc, cc)

  Rotated-present :
      (clock : Clock) (raw new_raw : Text) (table after : TokenTable) (new : RefreshToken)
      (grace : Bool) (row : RefreshToken) (at link : Option ℕ)
      → find_hash (hash_token raw) table.rows ≡ some row
      → row.revoked_at ≡ at
      → row.rotated_to ≡ link
      → present hash_token settings clock new_raw row at link table ≡ rotated after new grace
      → Rotated clock raw new_raw table after new grace
  Rotated-present clock raw new_raw table after new grace row (some at) link f a l h = cc
  Rotated-present clock raw new_raw table after new grace row none none f a l h =
      let (g, t, n) = succeed_rotated clock new_raw row false table after new grace h in
      record { row = row; found = f; unrevoked = a; issued = n; path = inl (g, l, t) }
  Rotated-present clock raw new_raw table after new grace row none (some next) f a l h =
      elim (Bool-cases (within_reuse_window settings clock next table.rows)) [
        | inr late ↦ absurd (not_reuse (rw late at h))
        | inl inside ↦
            (let (g, t, n) =
                succeed_rotated clock new_raw row true (regraced clock row next table) after new
                  grace (rw inside at h) in
              record {
                row = row;
                found = f;
                unrevoked = a;
                issued = n;
                path = inr (next, g, l, inside, t);
              })
      ]
    where
      not_reuse : {t : TokenTable} → reuse_detected t ≡ rotated after new grace → ⊥
      not_reuse e = cc

  Rotated-rotate_found :
      (clock : Clock) (raw new_raw : Text) (table after : TokenTable) (new : RefreshToken)
      (grace : Bool) (found : Option RefreshToken)
      → find_hash (hash_token raw) table.rows ≡ found
      → rotate_found hash_token settings clock new_raw found table ≡ rotated after new grace
      → Rotated clock raw new_raw table after new grace
  Rotated-rotate_found clock raw new_raw table after new grace none f h = cc
  Rotated-rotate_found clock raw new_raw table after new grace (some row) f h =
      Rotated-present clock raw new_raw table after new grace row row.revoked_at row.rotated_to f
        refl refl h

  pub Rotated-rotate :
      (clock : Clock) (raw new_raw : Text) (table after : TokenTable) (new : RefreshToken)
      (grace : Bool)
      → rotate hash_token settings clock raw new_raw table ≡ rotated after new grace
      → Rotated clock raw new_raw table after new grace
  unfolding rotate
  Rotated-rotate clock raw new_raw table after new grace h =
      Rotated-rotate_found clock raw new_raw table after new grace
        (find_hash (hash_token raw) table.rows) refl h

  -- A link moves a session on, or starts one in place of a row that is no session.
  count_sessions-linked :
      (clock : Clock) (new_raw : Text) (row : RefreshToken) (table : TokenTable)
      (held : RefreshToken) (u : ℕ)
      → find_id row.id table.rows ≡ some held
      → count_sessions u (linked clock new_raw row table).rows + session_of u held
        ≡ count_sessions u table.rows + one_of (row.user_id == u)
  count_sessions-linked clock new_raw row table held u h =
      let new = new_token hash_token settings clock row.user_id new_raw table.next_id in
      let moved =
        count_sessions-change_row u row.id (rotated_into table.next_id) (table.rows ++ new ∷ [])
          held (find_id-append row.id table.rows held new h) in
      let grown = count_sessions-append u table.rows new in ground (arith, moved, grown)

  count_sessions-regraced :
      (clock : Clock) (new_raw : Text) (row : RefreshToken) (next : ℕ) (table : TokenTable) (u : ℕ)
      → IsValid table
      → find_id row.id table.rows ≡ some row
      → row.rotated_to ≡ some next
      → within_reuse_window settings clock next table.rows ≡ true
      → count_sessions u (linked clock new_raw row (regraced clock row next table)).rows
        ≡ count_sessions u table.rows
  count_sessions-regraced clock new_raw row next table u v found link inside =
      let (successor, there, recent) = recent_successor settings clock next table.rows inside in
      let (later, owner) : (row.id < next) × (user_of next table.rows ≡ some row.user_id) =
        subst (LinkWithin table.rows row.id row.user_id) link
          (link_of_find_id table.rows table.rows row.id row v.links found) in
      let same : successor.user_id ≡ row.user_id =
        some-eq (sym (user_of-find_id next table.rows successor there) ∙ owner) in
      let one = count_sessions-change_row u next (revoked clock.now) table.rows successor there in
      let kept =
        find_id-change_row_other next row.id (revoked clock.now) table.rows
          (revoked-KeepsKeys clock.now) (apart row.id next later)
        ∙ found in
      let rows1 : List RefreshToken = change_row next (revoked clock.now) table.rows in
      let two = count_sessions-change_row u row.id (revoked clock.now) rows1 row kept in
      let moved =
        count_sessions-linked clock new_raw row (regraced clock row next table)
          (revoked clock.now row) u
          (find_id-change_row row.id (revoked clock.now) rows1 row (revoked-KeepsKeys clock.now)
            kept) in
      let weight =
        session_of_recent settings clock u successor recent ∙ ap (λ x. one_of (x == u)) same in
      omega (
        arith,
        one,
        two,
        moved,
        weight,
        session_of-revoked u clock.now successor,
        session_of-revoked u clock.now row,
        session_of_spent u row next link,
      )
    where
      apart : (a b : ℕ) → a < b → (b == a) ≡ false
      apart a b l = ground arith

  -- A rotation moves a session on and never adds one: in a valid table, whichever way a token is
  -- rotated, within the reuse window too, every user has as many sessions after it as before.
  pub rotate_sessions :
      (clock : Clock) (raw new_raw : Text) (table after : TokenTable) (new : RefreshToken)
      (grace : Bool) (u : ℕ)
      → IsValid table
      → rotate hash_token settings clock raw new_raw table ≡ rotated after new grace
      → count_sessions u after.rows ≡ count_sessions u table.rows
  rotate_sessions clock raw new_raw table after new grace u v h =
      let p = Rotated-rotate clock raw new_raw table after new grace h in
      let found = find_id_of_find_hash (hash_token raw) 0 table.rows p.row v.rising p.found in
      elim p.path [
        | inl (g, unspent, t) ↦
            (let moved = count_sessions-linked clock new_raw p.row table p.row u found in
              let weight = session_of_unspent u p.row p.unrevoked unspent in
              ap (λ (x : TokenTable). count_sessions u x.rows) (sym t)
              ∙ omega (arith, moved, weight))
        | inr (next, g, link, inside, t) ↦
            ap (λ (x : TokenTable). count_sessions u x.rows) (sym t)
            ∙ count_sessions-regraced clock new_raw p.row next table u v found link inside
      ]
