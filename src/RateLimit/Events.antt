-- ===== src/RateLimit/Events.antt =====
-- The table and its operations. A time is in microseconds. An advisory lock on the key keeps the
-- operations apart once it is held, and the session commits whatever the answer is, so each returns the
-- table. The time is an argument: the code reads the clock before it takes the lock, so the times of
-- successive steps on one key may go back.
-- `sha256` and `utf8` (`str.encode`) are parameters, as is the pepper of the settings.
use apichain_backend.Base.{
  ℕ, ◌+◌, ◌-◌, ◌*◌, ◌/◌, Bool, ◌&&◌, Option, none, some, List, [], ◌∷◌, ◌++◌, ltb, leb,
  if◌then◌else◌,
}
use apichain_backend.Base.Bytes.{Bytes, bytes_eq}
use apichain_backend.Canonical.Text.{Text}

-- A scope and the numbers that the settings give it.
pub record Limit : Type 0 where
  pub scope : Text
  pub max_events : ℕ
  pub window_seconds : ℕ

-- `limit.window`
abbrev pub window : Limit → ℕ
window limit = limit.window_seconds * 1000000

-- A row of `rate_limit_events`.
pub record RateLimitEvent : Type 0 where
  pub scope : Text
  pub key_hash : Bytes
  pub at : ℕ

abbrev pub is_for : Limit → Bytes → RateLimitEvent → Bool
is_for limit key_hash e = bytes_eq e.scope limit.scope && bytes_eq e.key_hash key_hash

-- The `DELETE` of `_window_rows`: the key's rows with `at <= now - window`.
unfoldable pub delete_expired : Limit → Bytes → ℕ → List RateLimitEvent → List RateLimitEvent
delete_expired limit key_hash now [] = []
delete_expired limit key_hash now (e ∷ rows) =
    if is_for limit key_hash e && leb (e.at + window limit) now
    then delete_expired limit key_hash now rows
    else e ∷ delete_expired limit key_hash now rows

abbrev pub in_window : Limit → Bytes → ℕ → RateLimitEvent → Bool
in_window limit key_hash now e = is_for limit key_hash e && ltb now (e.at + window limit)

-- `count()` and `min(at)` of the `SELECT` of `_window_rows`.
unfoldable pub count_rows : Limit → Bytes → ℕ → List RateLimitEvent → ℕ
count_rows limit key_hash now [] = 0
count_rows limit key_hash now (e ∷ rows) =
    if in_window limit key_hash now e
    then 1 + count_rows limit key_hash now rows
    else count_rows limit key_hash now rows

abbrev pub earlier : ℕ → Option ℕ → Option ℕ
earlier a none = some a
earlier a (some b) = some (if leb a b then a else b)

unfoldable pub oldest_row : Limit → Bytes → ℕ → List RateLimitEvent → Option ℕ
oldest_row limit key_hash now [] = none
oldest_row limit key_hash now (e ∷ rows) =
    if in_window limit key_hash now e
    then earlier e.at (oldest_row limit key_hash now rows)
    else oldest_row limit key_hash now rows

-- An attempt goes on, or is answered 429 with the seconds to wait.
pub data Decision : Type 0 where
  allowed : Decision
  refused : ℕ → Decision

-- `max(1, math.ceil(seconds))` of a span in microseconds.
abbrev pub ceil_seconds : ℕ → ℕ
ceil_seconds span = let s = (span + 999999) / 1000000 in if ltb s 1 then 1 else s

-- `_refuse`: until the oldest counted event leaves the window, or a whole window.
unfoldable pub refuse : Limit → Option ℕ → ℕ → Decision
refuse limit none now = refused (ceil_seconds (window limit))
refuse limit (some oldest) now = refused (ceil_seconds (oldest + window limit - now))

module _ (sha256 : Bytes → Bytes) (utf8 : Text → Bytes) (pepper : Text) where
  -- `_hash`
  unfoldable pub hash_key : Limit → Text → Bytes
  hash_key limit key = sha256 (utf8 (pepper ++ 31 ∷ limit.scope ++ 31 ∷ key))

  abbrev pub event : Limit → Text → ℕ → RateLimitEvent
  event limit key now = record { scope = limit.scope; key_hash = hash_key limit key; at = now }

  -- `take`, with the rows that it leaves.
  unfoldable pub take : Limit → Text → ℕ → List RateLimitEvent → Decision × List RateLimitEvent
  unfolding hash_key delete_expired count_rows oldest_row refuse
  take limit key now rows =
      let kept = delete_expired limit (hash_key limit key) now rows in
      if leb limit.max_events (count_rows limit (hash_key limit key) now kept)
      then (refuse limit (oldest_row limit (hash_key limit key) now kept) now, kept)
      else (allowed, kept ++ event limit key now ∷ [])

  unfoldable pub ensure_allowed :
      Limit → Text → ℕ → List RateLimitEvent → Decision × List RateLimitEvent
  unfolding hash_key delete_expired count_rows oldest_row refuse
  ensure_allowed limit key now rows =
      let kept = delete_expired limit (hash_key limit key) now rows in
      if leb limit.max_events (count_rows limit (hash_key limit key) now kept)
      then (refuse limit (oldest_row limit (hash_key limit key) now kept) now, kept)
      else (allowed, kept)

  -- `record`
  unfoldable pub record_event : Limit → Text → ℕ → List RateLimitEvent → List RateLimitEvent
  record_event limit key now rows = rows ++ event limit key now ∷ []

  abbrev pub delete_for : Limit → Bytes → List RateLimitEvent → List RateLimitEvent
  delete_for limit key_hash [] = []
  delete_for limit key_hash (e ∷ rows) =
      if is_for limit key_hash e
      then delete_for limit key_hash rows
      else e ∷ delete_for limit key_hash rows

  unfoldable pub clear : Limit → Text → List RateLimitEvent → List RateLimitEvent
  unfolding hash_key
  clear limit key rows = delete_for limit (hash_key limit key) rows

-- The longest window of the limits.
abbrev pub longest_window : List Limit → ℕ
longest_window [] = 0
longest_window (limit ∷ limits) =
    let rest = longest_window limits in if leb rest (window limit) then window limit else rest

-- `prune`, under the limits of the deployment.
unfoldable pub prune : List Limit → ℕ → List RateLimitEvent → List RateLimitEvent
prune limits now [] = []
prune limits now (e ∷ rows) =
    if leb (e.at + longest_window limits) now
    then prune limits now rows
    else e ∷ prune limits now rows
