-- ===== src/RateLimit/Histories.antt =====
-- Runs of `take`s of many limits and keys on one table.
use apichain_backend.Base.{
  ℕ, ◌+◌, ◌*◌, ◌≤◌, ◌<◌, length, ◌≡◌, refl, sym, ap, ◌∙◌, Bool, true, false, ◌&&◌, List, [], ◌∷◌,
  if◌then◌else◌,
}
use apichain_backend.Base.Bytes.{Bytes, bytes_eq, eq_of_bytes_eq}
use apichain_backend.Canonical.Text.{Text}
use apichain_backend.RateLimit.Events.{
  Limit, RateLimitEvent, is_for, Decision, allowed, refused, hash_key, event, take,
}
use apichain_backend.RateLimit.Times.{times_of, take_time, take-take_time}
use apichain_backend.RateLimit.Window.{
  count_span, let_through, run_takes, Rising, run_takes_bound, take_time_after_wait,
}

pub record Attempt : Type 0 where
  pub limit : Limit
  pub key : Text
  pub at : ℕ

-- The attempts under the limit's scope are under this limit.
abbrev pub HasOneLimit : Limit → List Attempt → Type 0
HasOneLimit limit [] = Unit
HasOneLimit limit (a ∷ attempts) =
    (bytes_eq a.limit.scope limit.scope ≡ true → a.limit ≡ limit) × HasOneLimit limit attempts

both : (a b : Bool) → (a && b) ≡ true → (a ≡ true) × (b ≡ true)
both true true e = (refl, refl)
both true false e = cc
both false b e = cc

module _ (sha256 : Bytes → Bytes) (utf8 : Text → Bytes) (pepper : Text) where
  abbrev pub event_of : Attempt → RateLimitEvent
  event_of a = event sha256 utf8 pepper a.limit a.key a.at

  -- The times of the attempts that count under one limit and key hash.
  abbrev pub own_times : Limit → Bytes → List Attempt → List ℕ
  own_times limit key_hash [] = []
  own_times limit key_hash (a ∷ attempts) =
      if is_for limit key_hash (event_of a)
      then a.at ∷ own_times limit key_hash attempts
      else own_times limit key_hash attempts

  abbrev pub let_in : Limit → Bytes → Attempt → Decision → List ℕ → List ℕ
  let_in limit key_hash a decision taken =
      if is_for limit key_hash (event_of a) then let_through decision a.at taken else taken

  -- The table after the attempts, and the times that were let through under the limit and key hash.
  unfoldable pub run_attempts :
      Limit → Bytes → List Attempt → List RateLimitEvent → List ℕ → List RateLimitEvent × List ℕ
  unfolding take
  run_attempts limit key_hash [] rows taken = (rows, taken)
  run_attempts limit key_hash (a ∷ attempts) rows taken =
      let out = take sha256 utf8 pepper a.limit a.key a.at rows in
      run_attempts limit key_hash attempts out.1 (let_in limit key_hash a out.0 taken)

  take_own :
      (limit : Limit) (key_hash : Bytes) (a : Attempt) (rows : List RateLimitEvent)
      → a.limit ≡ limit
      → hash_key sha256 utf8 pepper a.limit a.key ≡ key_hash
      → let out = take sha256 utf8 pepper a.limit a.key a.at rows in
        let counter = take_time limit a.at (times_of limit key_hash rows) in
        (out.0 ≡ counter.0) × (times_of limit key_hash out.1 ≡ counter.1)
  take_own limit key_hash a rows same hashed =
      let (decided, kept, others) = take-take_time sha256 utf8 pepper a.limit a.key a.at rows in
      rw (sym hashed, sym same) (decided, kept)

  run_attempts-run_takes :
      (limit : Limit) (key_hash : Bytes) (attempts : List Attempt) (rows : List RateLimitEvent)
      (taken : List ℕ)
      → HasOneLimit limit attempts
      → (run_attempts limit key_hash attempts rows taken).1
        ≡ (run_takes limit
            (own_times limit key_hash attempts)
            (times_of limit key_hash rows)
            taken).1
  unfolding run_attempts run_takes
  run_attempts-run_takes limit key_hash [] rows taken one = refl
  run_attempts-run_takes limit key_hash (a ∷ attempts) rows taken (one, ones) =
      go (λ later. run_attempts-run_takes limit key_hash attempts out.1 later ones)
        (is_for limit key_hash (event_of a)) refl
    where
      out : Decision × List RateLimitEvent
      out = take sha256 utf8 pepper a.limit a.key a.at rows

      go :
          ((later : List ℕ)
            → (run_attempts limit key_hash attempts out.1 later).1
              ≡ (run_takes limit
                  (own_times limit key_hash attempts)
                  (times_of limit key_hash out.1)
                  later).1)
          → (b : Bool) → is_for limit key_hash (event_of a) ≡ b
          → (run_attempts limit key_hash attempts out.1
              (if b then let_through out.0 a.at taken else taken)).1
            ≡ (run_takes limit
                (if b
                  then a.at ∷ own_times limit key_hash attempts
                  else own_times limit key_hash attempts)
                (times_of limit key_hash rows)
                taken).1
      go ih true y =
          let (scoped, hashed) = both (bytes_eq a.limit.scope limit.scope) _ y in
          let (decided, kept) =
            take_own limit key_hash a rows (one scoped)
              (eq_of_bytes_eq (hash_key sha256 utf8 pepper a.limit a.key) key_hash hashed) in
          ih (let_through out.0 a.at taken) ∙ rw (decided, kept) refl
      go ih false n =
          let (decided, kept, others) = take-take_time sha256 utf8 pepper a.limit a.key a.at rows in
          ih taken ∙ rw (others limit key_hash n) refl

  -- In any run of attempts from an empty table, under whatever limits and keys, as long as a scope has
  -- one limit and the times that `take` reads under the limit and key hash never go back from one attempt
  -- to the next, no span of one window length holds more attempts let through under them than the limit.
  pub take_bound :
      (limit : Limit) (key_hash : Bytes) (attempts : List Attempt) (from : ℕ)
      → HasOneLimit limit attempts
      → Rising 0 (own_times limit key_hash attempts)
      → count_span limit from (run_attempts limit key_hash attempts [] []).1 ≤ limit.max_events
  unfolding times_of
  take_bound limit key_hash attempts from one rising =
      rw (run_attempts-run_takes limit key_hash attempts [] [] one)
        (run_takes_bound limit (own_times limit key_hash attempts) from rising)

  -- When `take` refuses an attempt under a limit that allows any, of a key with at most as many rows as
  -- the limit allows, then a `take` of the same key on the table that the refusal left, at any time from
  -- the end of the announced wait on, is let through.
  pub take_after_wait :
      (limit : Limit) (key : Text) (now wait later : ℕ) (rows kept : List RateLimitEvent)
      → 0 < limit.max_events
      → length (times_of limit (hash_key sha256 utf8 pepper limit key) rows) ≤ limit.max_events
      → take sha256 utf8 pepper limit key now rows ≡ (refused wait, kept)
      → now + wait * 1000000 ≤ later
      → (take sha256 utf8 pepper limit key later kept).0 ≡ allowed
  take_after_wait limit key now wait later rows kept some_allowed fits e passed =
      let key_hash = hash_key sha256 utf8 pepper limit key in
      let (decided, left, others) = take-take_time sha256 utf8 pepper limit key now rows in
      let (again, left_again, others_again) =
        take-take_time sha256 utf8 pepper limit key later kept in
      let refusal : take_time limit now (times_of limit key_hash rows)
          ≡ (refused wait, times_of limit key_hash kept) =
        pair-eq (sym decided ∙ ap (λ (out : Decision × List RateLimitEvent). out.0) e) (
          sym left
          ∙ ap (λ (out : Decision × List RateLimitEvent). times_of limit key_hash out.1) e) in
      again
      ∙ take_time_after_wait limit now wait later (times_of limit key_hash rows)
          (times_of limit key_hash kept) some_allowed fits refusal passed
    where
      pair-eq :
          {out : Decision × List ℕ} {d : Decision} {ts : List ℕ}
          → out.0 ≡ d
          → out.1 ≡ ts
          → out ≡ (d, ts)
      pair-eq e f = λ i. (e i, f i)
