-- ===== src/Sessions/Tokens.antt =====
-- The rows of `refresh_tokens` and the operations on them. Times are in microseconds; `now` is Python's
-- clock and `sql_now` the database's, which sets `issued_at`. A raw token is generated by `secrets` and
-- is an argument; `hash_token` (SHA-256 of it, in hexadecimal) is a parameter.
use apichain_backend.Base.{
  ℕ, ◌+◌, Bool, true, false, not, ◌&&◌, Option, none, some, List, [], ◌∷◌, ◌++◌, ◌==◌, leb,
  if◌then◌else◌,
}
use apichain_backend.Base.Bytes.{bytes_eq}
use apichain_backend.Canonical.Text.{Text}

pub record RefreshToken : Type 0 where
  pub id : ℕ
  pub user_id : ℕ
  pub token_hash : Text
  pub expires_at : ℕ
  pub issued_at : ℕ
  pub revoked_at : Option ℕ
  pub rotated_to : Option ℕ

-- The rows in id order, and the sequence.
pub record TokenTable : Type 0 where
  pub rows : List RefreshToken
  pub next_id : ℕ

-- `refresh_token_ttl_days` and `refresh_reuse_window_seconds`, in microseconds.
pub record TokenSettings : Type 0 where
  pub ttl : ℕ
  pub reuse_window : ℕ

pub record Clock : Type 0 where
  pub now : ℕ
  pub sql_now : ℕ

abbrev pub is_set : Option ℕ → Bool
is_set none = false
is_set (some x) = true

unfoldable pub find_id : ℕ → List RefreshToken → Option RefreshToken
find_id id [] = none
find_id id (row ∷ rows) = if row.id == id then some row else find_id id rows

unfoldable pub find_hash : Text → List RefreshToken → Option RefreshToken
find_hash hash [] = none
find_hash hash (row ∷ rows) = if bytes_eq row.token_hash hash then some row else find_hash hash rows

-- The change of the row that has this primary key.
unfoldable pub change_row :
    ℕ → (RefreshToken → RefreshToken) → List RefreshToken → List RefreshToken
change_row id f [] = []
change_row id f (row ∷ rows) = if row.id == id then f row ∷ rows else row ∷ change_row id f rows

abbrev pub revoked : ℕ → RefreshToken → RefreshToken
revoked now row = record row { revoked_at = some now }

abbrev pub rotated_into : ℕ → RefreshToken → RefreshToken
rotated_into id row = record row { rotated_to = some id }

-- The row of a user as `_revoke_all_for_user` leaves it.
abbrev pub revoke_for : ℕ → ℕ → RefreshToken → RefreshToken
revoke_for user_id now row =
    if row.user_id == user_id && not (is_set row.revoked_at) then revoked now row else row

-- `revoke_all`
unfoldable pub revoke_all : ℕ → ℕ → List RefreshToken → List RefreshToken
revoke_all user_id now [] = []
revoke_all user_id now (row ∷ rows) = revoke_for user_id now row ∷ revoke_all user_id now rows

-- The successor is unused and was issued within the window.
abbrev pub is_recent : TokenSettings → Clock → RefreshToken → Bool
is_recent settings clock row =
    not (is_set row.rotated_to)
    && (not (is_set row.revoked_at) && leb clock.sql_now (row.issued_at + settings.reuse_window))

abbrev pub recent_found : TokenSettings → Clock → Option RefreshToken → Bool
recent_found settings clock none = false
recent_found settings clock (some row) = is_recent settings clock row

-- `_within_reuse_window`
unfoldable pub within_reuse_window : TokenSettings → Clock → ℕ → List RefreshToken → Bool
unfolding find_id
within_reuse_window settings clock successor_id rows =
    recent_found settings clock (find_id successor_id rows)

-- `rotate` returns, or raises `InvalidRefreshToken`, upon which the caller rolls back, or raises
-- `ReuseDetected`, upon which the caller commits the revocation.
pub data Rotation : Type 0 where
  rotated : TokenTable → RefreshToken → Bool → Rotation
  reuse_detected : TokenTable → Rotation
  invalid_token : Rotation

module _ (hash_token : Text → Text) (settings : TokenSettings) where
  abbrev pub new_token : Clock → ℕ → Text → ℕ → RefreshToken
  new_token clock user_id raw id = record {
    id = id;
    user_id = user_id;
    token_hash = hash_token raw;
    expires_at = clock.now + settings.ttl;
    issued_at = clock.sql_now;
    revoked_at = none;
    rotated_to = none;
  }

  unfoldable pub issue : Clock → ℕ → Text → TokenTable → TokenTable × RefreshToken
  issue clock user_id raw table =
      let row = new_token clock user_id raw table.next_id in
      (record { rows = table.rows ++ row ∷ []; next_id = table.next_id + 1 }, row)

  -- The end of `rotate`: the expiry check, the successor and the link to it.
  abbrev pub succeed : Clock → Text → RefreshToken → Bool → TokenTable → Rotation
  succeed clock new_raw row grace table =
      if leb row.expires_at clock.now
      then invalid_token
      else (let out = issue clock row.user_id new_raw table in
          rotated
            (record {
              rows = change_row row.id (rotated_into out.1.id) out.0.rows;
              next_id = out.0.next_id;
            })
            out.1 grace)

  abbrev pub detected : Clock → RefreshToken → TokenTable → Rotation
  detected clock row table =
      reuse_detected (record table { rows = revoke_all row.user_id clock.now table.rows })

  -- A token that has a successor: the reuse window.
  abbrev pub spent : Clock → Text → RefreshToken → ℕ → TokenTable → Rotation
  spent clock new_raw row successor_id table =
      if within_reuse_window settings clock successor_id table.rows
      then succeed clock new_raw row true (record table {
        rows =
            change_row row.id (revoked clock.now)
              (change_row successor_id (revoked clock.now) table.rows);
      })
      else detected clock row table

  abbrev pub present : Clock → Text → RefreshToken → Option ℕ → Option ℕ → TokenTable → Rotation
  present clock new_raw row (some at) successor table = detected clock row table
  present clock new_raw row none (some successor_id) table =
      spent clock new_raw row successor_id table
  present clock new_raw row none none table = succeed clock new_raw row false table

  abbrev pub rotate_found : Clock → Text → Option RefreshToken → TokenTable → Rotation
  rotate_found clock new_raw none table = invalid_token
  rotate_found clock new_raw (some row) table =
      present clock new_raw row row.revoked_at row.rotated_to table

  -- `rotate(db, raw)`, where `new_raw` is the token that `issue` generates.
  unfoldable pub rotate : Clock → Text → Text → TokenTable → Rotation
  unfolding find_hash issue change_row revoke_all within_reuse_window
  rotate clock raw new_raw table =
      rotate_found clock new_raw (find_hash (hash_token raw) table.rows) table

  abbrev pub revoke_found : ℕ → Option RefreshToken → List RefreshToken → List RefreshToken
  revoke_found now none rows = rows
  revoke_found now (some row) rows =
      if is_set row.revoked_at then rows else change_row row.id (revoked now) rows

  -- `revoke`: logout.
  unfoldable pub revoke : ℕ → Text → TokenTable → TokenTable
  unfolding find_hash change_row
  revoke now raw table = record table {
    rows = revoke_found now (find_hash (hash_token raw) table.rows) table.rows;
  }
