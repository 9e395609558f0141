-- ===== src/Tests/ContactRuns.antt =====
-- Runs of the contact verification.
use apichain_backend.Base.{
  ℕ, ◌+◌, ◌*◌, ◌≤◌, ◌≡◌, refl, true, none, some, List, [], ◌∷◌, arith, Bool, leb, ◌&&◌, ◌==◌,
}
use apichain_backend.Base.Bytes.{Bytes, bytes_eq}
use apichain_backend.Canonical.Text.{codes}
use apichain_backend.Contact.Codes.{
  sms, CodeTable, verified, no_active_code, code_sent, issue_code, send_code, confirm_code,
  supersede, recent_sends, retry_after,
}
use apichain_backend.Contact.Phone.{to_e164_ke}
use apichain_backend.Contact.Waiting.{NewestFirst, retry_after_waited}
use apichain_backend.Contact.Active.{count_active}
use apichain_backend.Contact.Steps.{IsValid, remaining}
use apichain_backend.Contact.Guesses.{
  Request, send, confirm, run_requests, run_requests_bound, confirm_code-send_code,
}

abbrev plain_hmac : Bytes → Bytes
plain_hmac bytes = bytes

abbrev no_codes : CodeTable
no_codes = record { rows = []; next_id = 1 }

no_codes-IsValid : IsValid 7 sms no_codes
unfolding count_active
no_codes-IsValid = record { falling = tt; one = omega arith }

abbrev minute : ℕ → ℕ
minute n = n * 60000000

-- A code, six wrong guesses and the right one, a second code and its confirmation.
abbrev attack : List Request
attack =
    send (codes "123456") true (minute 10)
    ∷ confirm (codes "000000") (minute 11)
    ∷ confirm (codes "000001") (minute 11)
    ∷ confirm (codes "000002") (minute 11)
    ∷ confirm (codes "000003") (minute 11)
    ∷ confirm (codes "000004") (minute 11)
    ∷ confirm (codes "000005") (minute 11)
    ∷ confirm (codes "123456") (minute 12)
    ∷ send (codes "654321") true (minute 13)
    ∷ confirm (codes "654321") (minute 14)
    ∷ []

five_wrong : (run_requests plain_hmac 7 sms attack no_codes).wrong ≡ 5
unfolding run_requests bytes_eq
five_wrong = refl

run_requests_bound_example :
    (run_requests plain_hmac 7 sms attack no_codes).wrong
    ≤ 5 * (run_requests plain_hmac 7 sms attack no_codes).issued + remaining 7 sms no_codes
run_requests_bound_example = run_requests_bound plain_hmac 7 sms attack no_codes no_codes-IsValid

sent_first :
    send_code plain_hmac 7 sms (codes "123456") true (minute 10) no_codes
    ≡ (code_sent, issue_code plain_hmac 7 sms (codes "123456") (minute 10) no_codes)
unfolding send_code
sent_first = refl

confirm_code-send_code_example :
    let after = issue_code plain_hmac 7 sms (codes "123456") (minute 10) no_codes in
    let out = confirm_code plain_hmac 7 sms (codes "123456") (minute 12) after in
    (out.0 ≡ verified)
    × ((confirm_code plain_hmac 7 sms (codes "123456") (minute 13) out.1).0 ≡ no_active_code)
confirm_code-send_code_example =
    confirm_code-send_code plain_hmac 7 sms (codes "123456") (minute 10) (minute 12) (minute 13)
      no_codes (issue_code plain_hmac 7 sms (codes "123456") (minute 10) no_codes) no_codes-IsValid
      sent_first (omega arith)

-- Two sends at 10 and 11 minutes, and a third at 11.
abbrev two_sends : CodeTable
two_sends =
    issue_code plain_hmac 7 sms (codes "222222") (minute 11)
      (issue_code plain_hmac 7 sms (codes "111111") (minute 10) no_codes)

third_waits : retry_after (recent_sends 7 sms (minute 11) two_sends.rows) (minute 11) ≡ some 60
unfolding retry_after recent_sends supersede
third_waits = refl

two_sends-NewestFirst : NewestFirst (minute 11) two_sends.rows
unfolding supersede
two_sends-NewestFirst = (omega arith, (omega arith, tt))

retry_after_waited_example :
    retry_after (recent_sends 7 sms (minute 12) two_sends.rows) (minute 12) ≡ none
retry_after_waited_example =
    retry_after_waited 7 sms two_sends.rows (minute 11) (minute 11) 60 (minute 12)
      two_sends-NewestFirst third_waits (omega arith)

abbrev ascii_digit : ℕ → Bool
ascii_digit c = leb 48 c && leb c 57

local_number :
    to_e164_ke (λ c. c == 32) ascii_digit (some (codes "0712-345 678"))
    ≡ some (codes "+254712345678")
unfolding to_e164_ke
local_number = refl

foreign_number : to_e164_ke (λ c. c == 32) ascii_digit (some (codes "+256712345678")) ≡ none
unfolding to_e164_ke
foreign_number = refl
