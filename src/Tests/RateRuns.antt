-- ===== src/Tests/RateRuns.antt =====
-- Runs of the rate limits.
use apichain_backend.Base.{ℕ, ◌*◌, ◌≤◌, ◌≡◌, refl, false, List, [], ◌∷◌, arith}
use apichain_backend.Base.Bytes.{Bytes, bytes_eq}
use apichain_backend.Canonical.Text.{Text}
use apichain_backend.RateLimit.Events.{
  Limit, RateLimitEvent, allowed, refused, is_for, take, ensure_allowed, record_event, clear,
  hash_key, event,
}
use apichain_backend.RateLimit.Times.{times_of, take_time, take-take_time}
use apichain_backend.RateLimit.Window.{Rising, run_takes, count_span}
use apichain_backend.RateLimit.Histories.{
  Attempt, HasOneLimit, own_times, run_attempts, take_bound, take_after_wait,
}

abbrev plain_hash : Bytes → Bytes
plain_hash bytes = bytes

abbrev same_bytes : Text → Bytes
same_bytes t = t

-- Two attempts in ten seconds.
abbrev two_in_ten : Limit
two_in_ten = record { scope = 120 ∷ []; max_events = 2; window_seconds = 10 }

abbrev second : ℕ → ℕ
second n = n * 1000000

abbrev key_a : Text
key_a = 97 ∷ []

abbrev earlier_rows : List RateLimitEvent
earlier_rows =
    event plain_hash same_bytes [] two_in_ten key_a (second 1)
    ∷ event plain_hash same_bytes [] two_in_ten key_a (second 5)
    ∷ []

third_refused :
    take plain_hash same_bytes [] two_in_ten key_a (second 7) earlier_rows
    ≡ (refused 4, earlier_rows)
unfolding take bytes_eq
third_refused = refl

failures_counted :
    (ensure_allowed plain_hash same_bytes [] two_in_ten key_a (second 7) (
      record_event plain_hash same_bytes [] two_in_ten key_a
        (second 6)
        (clear plain_hash same_bytes [] two_in_ten key_a earlier_rows))).0
    ≡ allowed
unfolding ensure_allowed record_event clear bytes_eq
failures_counted = refl

take-take_time_example :
    let key_hash = hash_key plain_hash same_bytes [] two_in_ten key_a in
    let after = take plain_hash same_bytes [] two_in_ten key_a (second 7) earlier_rows in
    let counter = take_time two_in_ten (second 7) (times_of two_in_ten key_hash earlier_rows) in
    (after.0 ≡ counter.0)
    × (times_of two_in_ten key_hash after.1 ≡ counter.1)
    × ((other : Limit) (other_hash : Bytes)
        → is_for other other_hash (event plain_hash same_bytes [] two_in_ten key_a (second 7))
          ≡ false
        → times_of other other_hash after.1 ≡ times_of other other_hash earlier_rows)
take-take_time_example =
    take-take_time plain_hash same_bytes [] two_in_ten key_a (second 7) earlier_rows

abbrev five_times : List ℕ
five_times = second 1 ∷ second 5 ∷ second 7 ∷ second 11 ∷ second 12 ∷ []

let_through_of_five :
    (run_takes two_in_ten five_times [] []).1 ≡ second 11 ∷ second 5 ∷ second 1 ∷ []
unfolding run_takes
let_through_of_five = refl

-- The five attempts, and one of another key between them.
abbrev attempt : Text → ℕ → Attempt
attempt key t = record { limit = two_in_ten; key = key; at = second t }

abbrev six_attempts : List Attempt
six_attempts =
    attempt key_a 1
    ∷ attempt key_a 5
    ∷ attempt (98 ∷ []) 6
    ∷ attempt key_a 7
    ∷ attempt key_a 11
    ∷ attempt key_a 12
    ∷ []

abbrev hash_a : Bytes
hash_a = hash_key plain_hash same_bytes [] two_in_ten key_a

one_limit : HasOneLimit two_in_ten six_attempts
one_limit = (λ e. refl, (λ e. refl, (λ e. refl, (λ e. refl, (λ e. refl, (λ e. refl, tt))))))

five-Rising : Rising 0 (own_times plain_hash same_bytes [] two_in_ten hash_a six_attempts)
unfolding bytes_eq hash_key
five-Rising = (omega arith, (omega arith, (omega arith, (omega arith, (omega arith, tt)))))

take_bound_example :
    count_span two_in_ten
      (second 2)
      (run_attempts plain_hash same_bytes [] two_in_ten hash_a six_attempts [] []).1
    ≤ 2
take_bound_example =
    take_bound plain_hash same_bytes [] two_in_ten hash_a six_attempts (second 2) one_limit
      five-Rising

take_after_wait_example :
    (take plain_hash same_bytes [] two_in_ten key_a (second 11) earlier_rows).0 ≡ allowed
unfolding times_of hash_key bytes_eq
take_after_wait_example =
    take_after_wait plain_hash same_bytes [] two_in_ten key_a (second 7) 4 (second 11) earlier_rows
      earlier_rows (omega arith) (omega arith) third_refused (omega arith)

-- Attempts at 50 and 60 milliseconds; the attempt read at 10.1 seconds takes the lock before the one
-- read at 9.9 seconds, which then finds the other rows deleted and is let through too.
abbrev at_ms : ℕ → Attempt
at_ms t = record { limit = two_in_ten; key = key_a; at = t * 1000 }

abbrev late_attempts : List Attempt
late_attempts = at_ms 50 ∷ at_ms 60 ∷ at_ms 10100 ∷ at_ms 9900 ∷ []

three_in_ten :
    count_span two_in_ten 40000
      (run_attempts plain_hash same_bytes [] two_in_ten hash_a late_attempts [] []).1
    ≡ 3
unfolding run_attempts bytes_eq
three_in_ten = refl
