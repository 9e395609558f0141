-- ===== src/RateLimit/Times.antt =====
-- The rows of the table by key: each key as the list of its times.
use mathlib.Core.List.{append-nil}
use apichain_backend.Base.{
  ℕ, ◌+◌, ◌≡◌, refl, sym, ap, ◌∙◌, Bool, true, false, ◌&&◌, Option, none, List, [], ◌∷◌, ◌++◌, ltb,
  leb, arith, Bool-cases, inl, inr, length, if◌then◌else◌,
}
use apichain_backend.Base.Bytes.{Bytes, bytes_eq, bytes_eq_refl, eq_of_bytes_eq}
use apichain_backend.Canonical.Text.{Text}
use apichain_backend.RateLimit.Events.{
  Limit, window, RateLimitEvent, is_for, delete_expired, count_rows, earlier, oldest_row, Decision,
  allowed, refuse, hash_key, event, take,
}

-- The times of one key, oldest row first.
unfoldable pub times_of : Limit → Bytes → List RateLimitEvent → List ℕ
times_of limit key_hash [] = []
times_of limit key_hash (e ∷ rows) =
    if is_for limit key_hash e
    then e.at ∷ times_of limit key_hash rows
    else times_of limit key_hash rows

-- The times that are inside the window at `now`.
unfoldable pub live : Limit → ℕ → List ℕ → List ℕ
live limit now [] = []
live limit now (t ∷ ts) =
    if ltb now (t + window limit) then t ∷ live limit now ts else live limit now ts

unfoldable pub oldest : List ℕ → Option ℕ
oldest [] = none
oldest (t ∷ ts) = earlier t (oldest ts)

-- The counter of one key on its own: what `take` promises.
unfoldable pub take_time : Limit → ℕ → List ℕ → Decision × List ℕ
unfolding live oldest refuse
take_time limit now ts =
    if leb limit.max_events (length (live limit now ts))
    then (refuse limit (oldest (live limit now ts)) now, live limit now ts)
    else (allowed, live limit now ts ++ now ∷ [])

not_live : (a now : ℕ) → leb a now ≡ true → ltb now a ≡ false
not_live a now h = ground arith

still_live : (a now : ℕ) → leb a now ≡ false → ltb now a ≡ true
still_live a now h = ground arith

module _ (limit : Limit) (key_hash : Bytes) (now : ℕ) where
  times_of-delete_expired :
      (rows : List RateLimitEvent)
      → times_of limit key_hash (delete_expired limit key_hash now rows)
        ≡ live limit now (times_of limit key_hash rows)
  unfolding times_of delete_expired live
  times_of-delete_expired [] = refl
  times_of-delete_expired (e ∷ rows) = elim (Bool-cases (is_for limit key_hash e)) [
    | inr n ↦ rw (n, n) (times_of-delete_expired rows)
    | inl y ↦ elim (Bool-cases (leb (e.at + window limit) now)) [
      | inl out ↦ rw (y, out, not_live (e.at + window limit) now out) (times_of-delete_expired rows)
      | inr live ↦
          rw (y, live, y, still_live (e.at + window limit) now live) ground
            (arith, times_of-delete_expired rows)
    ]
  ]

  count_rows-times_of :
      (rows : List RateLimitEvent)
      → count_rows limit key_hash now (delete_expired limit key_hash now rows)
        ≡ length (live limit now (times_of limit key_hash rows))
  unfolding times_of delete_expired live count_rows
  count_rows-times_of [] = refl
  count_rows-times_of (e ∷ rows) = elim (Bool-cases (is_for limit key_hash e)) [
    | inr n ↦ rw (n, n) (count_rows-times_of rows)
    | inl y ↦ elim (Bool-cases (leb (e.at + window limit) now)) [
      | inl out ↦ rw (y, out, not_live (e.at + window limit) now out) (count_rows-times_of rows)
      | inr live ↦
          rw (y, live, y, still_live (e.at + window limit) now live) ground
            (arith, count_rows-times_of rows)
    ]
  ]

  oldest_row-times_of :
      (rows : List RateLimitEvent)
      → oldest_row limit key_hash now (delete_expired limit key_hash now rows)
        ≡ oldest (live limit now (times_of limit key_hash rows))
  unfolding times_of delete_expired live oldest_row oldest
  oldest_row-times_of [] = refl
  oldest_row-times_of (e ∷ rows) = elim (Bool-cases (is_for limit key_hash e)) [
    | inr n ↦ rw (n, n) (oldest_row-times_of rows)
    | inl y ↦ elim (Bool-cases (leb (e.at + window limit) now)) [
      | inl out ↦ rw (y, out, not_live (e.at + window limit) now out) (oldest_row-times_of rows)
      | inr live ↦
          rw (y, live, y, still_live (e.at + window limit) now live) ground
            (arith, oldest_row-times_of rows)
    ]
  ]

times_of-append :
    (limit : Limit) (key_hash : Bytes) (rows : List RateLimitEvent) (e : RateLimitEvent)
    → times_of limit key_hash (rows ++ e ∷ [])
      ≡ times_of limit key_hash rows ++ (if is_for limit key_hash e then e.at ∷ [] else [])
unfolding times_of
times_of-append limit key_hash [] e = refl
times_of-append limit key_hash (r ∷ rows) e =
    rw (times_of-append limit key_hash rows e) (push (is_for limit key_hash r))
  where
    push :
        (mine : Bool)
        → (if mine
            then r.at
              ∷ (times_of limit key_hash rows
                  ++ (if is_for limit key_hash e then e.at ∷ [] else []))
            else times_of limit key_hash rows
              ++ (if is_for limit key_hash e then e.at ∷ [] else []))
          ≡ (if mine then r.at ∷ times_of limit key_hash rows else times_of limit key_hash rows)
            ++ (if is_for limit key_hash e then e.at ∷ [] else [])
    push true = refl
    push false = refl

-- Deleting the rows of one key takes no row of another.
is_for_other :
    (limit other : Limit) (key_hash other_hash : Bytes) (e f : RateLimitEvent)
    → e.scope ≡ limit.scope
    → e.key_hash ≡ key_hash
    → is_for other other_hash e ≡ false
    → is_for limit key_hash f ≡ true
    → is_for other other_hash f ≡ false
is_for_other limit other key_hash other_hash e f s k n y =
    let scopes = eq_of_bytes_eq f.scope limit.scope (both f.scope y).0 in
    let hashes = eq_of_bytes_eq f.key_hash key_hash (both f.scope y).1 in
    rw (scopes ∙ sym s, hashes ∙ sym k) n
  where
    both :
        (scope : Text)
        → (bytes_eq scope limit.scope && bytes_eq f.key_hash key_hash) ≡ true
        → (bytes_eq scope limit.scope ≡ true) × (bytes_eq f.key_hash key_hash ≡ true)
    both scope h = ground arith

times_of-delete_expired_other :
    (limit other : Limit) (key_hash other_hash : Bytes) (now : ℕ) (e : RateLimitEvent)
    (rows : List RateLimitEvent)
    → e.scope ≡ limit.scope
    → e.key_hash ≡ key_hash
    → is_for other other_hash e ≡ false
    → times_of other other_hash (delete_expired limit key_hash now rows)
      ≡ times_of other other_hash rows
unfolding times_of delete_expired
times_of-delete_expired_other limit other key_hash other_hash now e [] s k n = refl
times_of-delete_expired_other limit other key_hash other_hash now e (r ∷ rows) s k n =
    let ih = times_of-delete_expired_other limit other key_hash other_hash now e rows s k n in
    elim (Bool-cases (is_for limit key_hash r)) [
      | inr other_key ↦ rw other_key (keep ih)
      | inl mine ↦
          let out = is_for_other limit other key_hash other_hash e r s k n mine in
          elim (Bool-cases (leb (r.at + window limit) now)) [
            | inl gone ↦ rw (mine, gone, out) ih
            | inr kept ↦ rw (mine, kept) (keep ih)
          ]
    ]
  where
    keep :
        times_of other other_hash (delete_expired limit key_hash now rows)
          ≡ times_of other other_hash rows
        → times_of other other_hash (r ∷ delete_expired limit key_hash now rows)
          ≡ times_of other other_hash (r ∷ rows)
    keep ih = rw ih refl

module _ (sha256 : Bytes → Bytes) (utf8 : Text → Bytes) (pepper : Text) where
  is_for-event :
      (limit : Limit) (key : Text) (now : ℕ)
      → is_for limit
          (hash_key sha256 utf8 pepper limit key)
          (event sha256 utf8 pepper limit key now)
        ≡ true
  is_for-event limit key now =
      rw (bytes_eq_refl limit.scope, bytes_eq_refl (hash_key sha256 utf8 pepper limit key)) refl

  -- The table is a family of independent counters: `take` decides by the times of its own key alone
  -- and leaves that key's times as the counter of one key does, and the times of every other scope
  -- or key hash stay as they were.
  pub take-take_time :
      (limit : Limit) (key : Text) (now : ℕ) (rows : List RateLimitEvent)
      → let key_hash = hash_key sha256 utf8 pepper limit key in
        let after = take sha256 utf8 pepper limit key now rows in
        let counter = take_time limit now (times_of limit key_hash rows) in
        (after.0 ≡ counter.0)
        × (times_of limit key_hash after.1 ≡ counter.1)
        × ((other : Limit) (other_hash : Bytes)
            → is_for other other_hash (event sha256 utf8 pepper limit key now) ≡ false
            → times_of other other_hash after.1 ≡ times_of other other_hash rows)
  unfolding take take_time
  take-take_time limit key now rows =
      let key_hash = hash_key sha256 utf8 pepper limit key in
      let rest : List RateLimitEvent = delete_expired limit key_hash now rows in
      let counted = count_rows-times_of limit key_hash now rows in
      let kept = times_of-delete_expired limit key_hash now rows in
      elim (Bool-cases
        (leb limit.max_events (length (live limit now (times_of limit key_hash rows))))) [
          | inl full ↦
              rw (counted, full)
                (
                  ap (λ o. refuse limit o now) (oldest_row-times_of limit key_hash now rows),
                  kept,
                  λ other other_hash n.
                      times_of-delete_expired_other limit other key_hash other_hash now
                        (event sha256 utf8 pepper limit key now) rows refl refl n,
                )
          | inr free ↦
              rw (counted, free)
                (
                  refl,
                  times_of-append limit key_hash rest (event sha256 utf8 pepper limit key now)
                      ∙ rw (kept, is_for-event limit key now) refl,
                  λ other other_hash n.
                      times_of-append other other_hash rest (event sha256 utf8 pepper limit key now)
                      ∙ rw n (append-nil (times_of other other_hash rest))
                      ∙ times_of-delete_expired_other limit other key_hash other_hash now
                          (event sha256 utf8 pepper limit key now) rows refl refl n,
                )
        ]
