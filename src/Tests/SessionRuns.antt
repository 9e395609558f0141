-- ===== src/Tests/SessionRuns.antt =====
-- Runs of the refresh tokens: a login, a rotation, a lost reply and a replay.
use apichain_backend.Base.{ℕ, ◌+◌, ◌≡◌, refl, true, false, Option, none, some, [], ◌∷◌, arith, inl}
use apichain_backend.Base.Bytes.{bytes_eq}
use apichain_backend.Canonical.Text.{Text}
use apichain_backend.Sessions.Tokens.{
  RefreshToken, TokenTable, TokenSettings, Clock, rotated, reuse_detected, rotate, revoke,
}
use apichain_backend.Sessions.Rows.{count_sessions}
use apichain_backend.Sessions.Valid.{user_of, IsValid}
use apichain_backend.Sessions.Rotation.{rotate_sessions}
use apichain_backend.Sessions.Replay.{rotate-IsValid}
use apichain_backend.Sessions.Reuse.{all_revoked, AllRevoked, rotate_again, rotate-AllRevoked}

-- A stand-in for the hash of a raw token.
abbrev plain_hash : Text → Text
plain_hash raw = 104 ∷ raw

abbrev one_minute : TokenSettings
one_minute = record { ttl = 100000; reuse_window = 60 }

abbrev at_time : ℕ → Clock
at_time t = record { now = t; sql_now = t }

abbrev token : ℕ → ℕ → Text → ℕ → Option ℕ → Option ℕ → RefreshToken
token id user_id raw at revoked link = record {
  id = id;
  user_id = user_id;
  token_hash = plain_hash raw;
  expires_at = at + 100000;
  issued_at = at;
  revoked_at = revoked;
  rotated_to = link;
}

abbrev raw_a : Text
raw_a = 97 ∷ []

abbrev raw_b : Text
raw_b = 98 ∷ []

abbrev raw_c : Text
raw_c = 99 ∷ []

-- Users 7 and 8 after a login each, and after the first rotation of 7's token.
abbrev two_logins : TokenTable
two_logins = record {
  rows = token 1 7 raw_a 10 none none ∷ token 2 8 raw_b 11 none none ∷ [];
  next_id = 3;
}

abbrev one_rotation : TokenTable
one_rotation = record {
  rows =
      token 1 7 raw_a 10 none (some 3)
      ∷ token 2 8 raw_b 11 none none
      ∷ token 3 7 raw_c 20 none none
      ∷ [];
  next_id = 4;
}

-- The reply was lost, and the token comes back at 50.
abbrev raw_d : Text
raw_d = 100 ∷ []

abbrev one_retry : TokenTable
one_retry = record {
  rows =
      token 1 7 raw_a 10 (some 50) (some 4)
      ∷ token 2 8 raw_b 11 none none
      ∷ token 3 7 raw_c 20 (some 50) none
      ∷ token 4 7 raw_d 50 none none
      ∷ [];
  next_id = 5;
}

abbrev all_out : TokenTable
all_out = record {
  rows =
      token 1 7 raw_a 10 (some 50) (some 4)
      ∷ token 2 8 raw_b 11 none none
      ∷ token 3 7 raw_c 20 (some 50) none
      ∷ token 4 7 raw_d 50 (some 90) none
      ∷ [];
  next_id = 5;
}

two_logins-IsValid : IsValid two_logins
unfolding user_of
two_logins-IsValid = record {
  rising = (omega arith, (omega arith, tt));
  below = (omega arith, (omega arith, tt));
  positive = omega arith;
  links = (tt, (tt, tt));
}

one_rotation-IsValid : IsValid one_rotation
unfolding user_of
one_rotation-IsValid = record {
  rising = (omega arith, (omega arith, (omega arith, tt)));
  below = (omega arith, (omega arith, (omega arith, tt)));
  positive = omega arith;
  links = ((omega arith, refl), (tt, (tt, tt)));
}

first_rotation :
    rotate plain_hash one_minute (at_time 20) raw_a raw_c two_logins
    ≡ rotated one_rotation (token 3 7 raw_c 20 none none) false
unfolding rotate bytes_eq
first_rotation = refl

retried_rotation :
    rotate plain_hash one_minute (at_time 50) raw_a raw_d one_rotation
    ≡ rotated one_retry (token 4 7 raw_d 50 none none) true
unfolding rotate bytes_eq
retried_rotation = refl

replayed : rotate plain_hash one_minute (at_time 90) raw_a raw_b one_retry ≡ reuse_detected all_out
unfolding rotate bytes_eq
replayed = refl

logged_out : revoke plain_hash one_minute 30 raw_b two_logins ≡ record two_logins {
  rows = token 1 7 raw_a 10 none none ∷ token 2 8 raw_b 11 (some 30) none ∷ [];
}
unfolding revoke bytes_eq
logged_out = refl

rotate_sessions_example : count_sessions 7 one_retry.rows ≡ count_sessions 7 one_rotation.rows
rotate_sessions_example =
    rotate_sessions plain_hash one_minute (at_time 50) raw_a raw_d one_rotation one_retry
      (token 4 7 raw_d 50 none none) true 7 one_rotation-IsValid retried_rotation

rotate-IsValid_example : IsValid one_retry
rotate-IsValid_example =
    rotate-IsValid plain_hash one_minute (at_time 50) raw_a raw_d one_rotation one_retry
      (token 4 7 raw_d 50 none none) true one_rotation-IsValid retried_rotation

rotate_again_example :
    rotate plain_hash one_minute (at_time 90) raw_a raw_b one_retry
    ≡ reuse_detected (all_revoked plain_hash one_minute (at_time 90) 7 one_retry)
rotate_again_example =
    rotate_again plain_hash one_minute (at_time 50) (at_time 90) raw_a raw_d raw_b one_rotation
      one_retry (token 4 7 raw_d 50 none none) true one_rotation-IsValid retried_rotation (inl refl)

rotate-AllRevoked_example : AllRevoked plain_hash one_minute (at_time 90) raw_a one_retry all_out
rotate-AllRevoked_example =
    rotate-AllRevoked plain_hash one_minute (at_time 90) raw_a raw_b one_retry all_out replayed
