-- ===== src/Sessions/Reuse.antt =====
-- What a second presentation of a rotated raw token leads to, and what a detected reuse leaves.
use mathlib.Core.Path.{subst}
use apichain_backend.Base.{
  ℕ, ◌+◌, ◌<◌, ◌≡◌, ◌≢◌, ◌⊎◌, refl, sym, ap, ◌∙◌, Bool, true, false, Option, none, some, [], ◌∷◌,
  ◌++◌, leb, Bool-cases, inl, inr,
}
use apichain_backend.Canonical.Text.{Text}
use apichain_backend.Sessions.Tokens.{
  RefreshToken, TokenTable, TokenSettings, Clock, find_id, find_hash, revoked, rotated_into,
  revoke_all, recent_found, within_reuse_window, rotated, reuse_detected, invalid_token, new_token,
  succeed, present, rotate_found, rotate,
}
use apichain_backend.Sessions.Rows.{
  count_sessions, rotated_into-KeepsKeys, not_==, find_id-change_row_other,
}
use apichain_backend.Sessions.Revocations.{revoke_all-IsValid}
use apichain_backend.Sessions.Valid.{IsValid}
use apichain_backend.Sessions.Counting.{count_sessions-revoke_all, count_sessions-revoke_all_other}
use apichain_backend.Sessions.Rotation.{linked, regraced, Rotated-rotate}
use apichain_backend.Sessions.Replay.{
  Below-of_find_id, find_id_new, apart', not_recent, Presented, plain_Presented, regraced-Presented,
  find_hash_linked,
}

module _ (hash_token : Text → Text) (settings : TokenSettings) where
  -- What is left of the table when a reuse is detected.
  abbrev pub all_revoked : Clock → ℕ → TokenTable → TokenTable
  all_revoked clock user_id table = record table { rows = revoke_all user_id clock.now table.rows }

  rotate_of_found :
      (clock : Clock) (raw new_raw : Text) (table : TokenTable) (row : RefreshToken)
      → find_hash (hash_token raw) table.rows ≡ some row
      → rotate hash_token settings clock raw new_raw table
        ≡ present hash_token settings clock new_raw row row.revoked_at row.rotated_to table
  unfolding rotate
  rotate_of_found clock raw new_raw table row f = rw f refl

  find_id_linked :
      (clock : Clock) (new_raw : Text) (row held : RefreshToken) (hash : Text) (table : TokenTable)
      → Presented hash_token settings clock new_raw row held hash table
      → find_id table.next_id (linked hash_token settings clock new_raw row table).rows
        ≡ some (new_token hash_token settings clock row.user_id new_raw table.next_id)
  find_id_linked clock new_raw row held hash table p =
      let new = new_token hash_token settings clock row.user_id new_raw table.next_id in
      find_id-change_row_other row.id table.next_id (rotated_into table.next_id)
        (table.rows ++ new ∷ []) (rotated_into-KeepsKeys table.next_id)
        (apart' row.id table.next_id (
          rw (sym p.same_id)
            (Below-of_find_id table.next_id row.id table.rows held p.valid.below p.by_id)))
      ∙ find_id_new table.rows new p.valid.below

  again_plain :
      (clock later : Clock) (raw new_raw other_raw : Text) (row : RefreshToken) (table : TokenTable)
      → IsValid table
      → find_hash (hash_token raw) table.rows ≡ some row
      → row.revoked_at ≡ none
      → clock.sql_now + settings.reuse_window < later.sql_now
      → rotate hash_token settings later raw other_raw
          (linked hash_token settings clock new_raw row table)
        ≡ reuse_detected
            (all_revoked later row.user_id (linked hash_token settings clock new_raw row table))
  unfolding within_reuse_window
  again_plain clock later raw new_raw other_raw row table v found unrevoked wait =
      let q =
        plain_Presented hash_token settings clock new_raw row (hash_token raw) table v found in
      let after = linked hash_token settings clock new_raw row table in
      let late : within_reuse_window settings later table.next_id after.rows ≡ false =
        ap (recent_found settings later)
          (find_id_linked clock new_raw row row (hash_token raw) table q)
        ∙ not_recent settings later
            (new_token hash_token settings clock row.user_id new_raw table.next_id) wait in
      rotate_of_found later raw other_raw after (rotated_into table.next_id row)
        (find_hash_linked hash_token settings clock new_raw row row (hash_token raw) table q)
      ∙ (ap
            (λ at.
              present hash_token settings later other_raw (rotated_into table.next_id row) at
                (some table.next_id) after)
            unrevoked
          ∙ rw late refl)

  again_regraced :
      (clock later : Clock) (raw new_raw other_raw : Text) (row : RefreshToken) (next : ℕ)
      (table : TokenTable)
      → IsValid table
      → find_hash (hash_token raw) table.rows ≡ some row
      → row.rotated_to ≡ some next
      → within_reuse_window settings clock next table.rows ≡ true
      → rotate hash_token settings later raw other_raw (
          linked hash_token settings clock new_raw row
            (regraced hash_token settings clock row next table))
        ≡ reuse_detected (
            all_revoked later row.user_id (
              linked hash_token settings clock new_raw row
                (regraced hash_token settings clock row next table)))
  again_regraced clock later raw new_raw other_raw row next table v found link inside =
      rotate_of_found later raw other_raw
        (linked hash_token settings clock new_raw row
          (regraced hash_token settings clock row next table))
        (rotated_into table.next_id (revoked clock.now row))
        (find_hash_linked hash_token settings clock new_raw row (revoked clock.now row)
          (hash_token raw) (regraced hash_token settings clock row next table)
          (regraced-Presented hash_token settings clock new_raw row next (hash_token raw) table v
            found link inside))

  -- After a rotation of a valid table, the next presentation of the same raw token on the table that the
  -- rotation left is detected as reused, and all tokens of its user are revoked: at once if that rotation
  -- was within the reuse window (the second presentation), and otherwise from when the reuse window has
  -- passed since that rotation.
  pub rotate_again :
      (clock later : Clock) (raw new_raw other_raw : Text) (table after : TokenTable)
      (new : RefreshToken) (grace : Bool)
      → IsValid table
      → rotate hash_token settings clock raw new_raw table ≡ rotated after new grace
      → (grace ≡ true) ⊎ (clock.sql_now + settings.reuse_window < later.sql_now)
      → rotate hash_token settings later raw other_raw after
        ≡ reuse_detected (all_revoked later new.user_id after)
  rotate_again clock later raw new_raw other_raw table after new grace v h when =
      let p = Rotated-rotate hash_token settings clock raw new_raw table after new grace h in
      let same_user : p.row.user_id ≡ new.user_id =
        ap (λ (t : RefreshToken). t.user_id) (sym p.issued) in
      elim p.path [
        | inl (g, unspent, t) ↦
            subst
              (λ (x : TokenTable).
                rotate hash_token settings later raw other_raw x
                ≡ reuse_detected (all_revoked later new.user_id x))
              t
              (again_plain clock later raw new_raw other_raw p.row table v p.found p.unrevoked
                  (waited g when)
                ∙ ap
                    (λ u.
                      reuse_detected (
                        all_revoked later u (linked hash_token settings clock new_raw p.row table)))
                    same_user)
        | inr (next, g, link, inside, t) ↦
            subst
              (λ (x : TokenTable).
                rotate hash_token settings later raw other_raw x
                ≡ reuse_detected (all_revoked later new.user_id x))
              t
              (again_regraced clock later raw new_raw other_raw p.row next table v p.found link
                  inside
                ∙ ap
                    (λ u. reuse_detected (
                      all_revoked later u (
                        linked hash_token settings clock new_raw p.row
                          (regraced hash_token settings clock p.row next table))))
                    same_user)
      ]
    where
      waited :
          grace ≡ false
          → (grace ≡ true) ⊎ (clock.sql_now + settings.reuse_window < later.sql_now)
          → clock.sql_now + settings.reuse_window < later.sql_now
      waited g (inl e) = absurd (never (sym g ∙ e))
        where
          never : false ≡ true → ⊥
          never e = cc
      waited g (inr l) = l

  -- What a detected reuse leaves.
  pub record AllRevoked (clock : Clock) (raw : Text) (table after : TokenTable) : Type 0 where
    pub row : RefreshToken
    pub found : find_hash (hash_token raw) table.rows ≡ some row
    pub none_left : count_sessions row.user_id after.rows ≡ 0
    pub others_kept :
        (other : ℕ)
        → row.user_id ≢ other
        → count_sessions other after.rows ≡ count_sessions other table.rows
    pub none_issued : after.next_id ≡ table.next_id
    pub keeps_valid : IsValid table → IsValid after

  detected-AllRevoked :
      (clock : Clock) (raw : Text) (row : RefreshToken) (table after : TokenTable)
      → find_hash (hash_token raw) table.rows ≡ some row
      → all_revoked clock row.user_id table ≡ after
      → AllRevoked clock raw table after
  detected-AllRevoked clock raw row table after f e = record {
    row = row;
    found = f;
    none_left =
        ap (λ (t : TokenTable). count_sessions row.user_id t.rows) (sym e)
        ∙ count_sessions-revoke_all row.user_id clock.now table.rows;
    others_kept = λ other n.
        ap (λ (t : TokenTable). count_sessions other t.rows) (sym e)
        ∙ count_sessions-revoke_all_other row.user_id other clock.now table.rows
            (not_== row.user_id other n);
    none_issued = ap (λ (t : TokenTable). t.next_id) (sym e);
    keeps_valid = λ v. subst IsValid e (revoke_all-IsValid row.user_id clock.now table v);
  }

  succeed_not_detected :
      (clock : Clock) (new_raw : Text) (row : RefreshToken) (g : Bool) (table after : TokenTable)
      → succeed hash_token settings clock new_raw row g table ≡ reuse_detected after
      → ⊥
  succeed_not_detected clock new_raw row g table after h =
      elim (Bool-cases (leb row.expires_at clock.now)) [
        | inl expired ↦ one (rw expired at h)
        | inr live ↦ two (rw live at h)
      ]
    where
      one : invalid_token ≡ reuse_detected after → ⊥
      one e = cc

      two :
          {t : TokenTable} {n : RefreshToken} {x : Bool} → rotated t n x ≡ reuse_detected after → ⊥
      two e = cc

  present-AllRevoked :
      (clock : Clock) (raw new_raw : Text) (row : RefreshToken) (at link : Option ℕ)
      (table after : TokenTable)
      → find_hash (hash_token raw) table.rows ≡ some row
      → present hash_token settings clock new_raw row at link table ≡ reuse_detected after
      → AllRevoked clock raw table after
  present-AllRevoked clock raw new_raw row (some at) link table after f h =
      detected-AllRevoked clock raw row table after f (inner h)
    where
      inner : {t u : TokenTable} → reuse_detected t ≡ reuse_detected u → t ≡ u
      inner e = cc
  present-AllRevoked clock raw new_raw row none none table after f h =
      absurd (succeed_not_detected clock new_raw row false table after h)
  present-AllRevoked clock raw new_raw row none (some next) table after f h =
      elim (Bool-cases (within_reuse_window settings clock next table.rows)) [
        | inl inside ↦ absurd (
            succeed_not_detected clock new_raw row true
              (regraced hash_token settings clock row next table) after (rw inside at h))
        | inr late ↦ detected-AllRevoked clock raw row table after f (inner (rw late at h))
      ]
    where
      inner : {t u : TokenTable} → reuse_detected t ≡ reuse_detected u → t ≡ u
      inner e = cc

  -- A detected reuse ends every session of the token's user and nothing else: the token is in the
  -- table, after it its user has no session, every other user has as many as before, no token is
  -- issued, and a valid table stays valid.
  pub rotate-AllRevoked :
      (clock : Clock) (raw new_raw : Text) (table after : TokenTable)
      → rotate hash_token settings clock raw new_raw table ≡ reuse_detected after
      → AllRevoked clock raw table after
  unfolding rotate
  rotate-AllRevoked clock raw new_raw table after h =
      go (find_hash (hash_token raw) table.rows) refl h
    where
      go :
          (found : Option RefreshToken)
          → find_hash (hash_token raw) table.rows ≡ found
          → rotate_found hash_token settings clock new_raw found table ≡ reuse_detected after
          → AllRevoked clock raw table after
      go none f e = cc
      go (some row) f e =
          present-AllRevoked clock raw new_raw row row.revoked_at row.rotated_to table after f e
