-- ===== src/Contact/Guesses.antt =====
-- Runs of sends and confirmations for one farmer and channel: how many guesses are ever compared.
use mathlib.Core.Path.{subst}
use apichain_backend.Base.{
  ℕ, ◌+◌, ◌*◌, ◌≤◌, ◌<◌, ◌≡◌, refl, ap, ◌∙◌, Bool, true, Option, none, some, List, [], ◌∷◌, arith,
}
use apichain_backend.Base.Bytes.{Bytes, bytes_eq_refl}
use apichain_backend.Canonical.Text.{Text}
use apichain_backend.Contact.Codes.{
  CommChannel, VerificationCode, CodeTable, code_ttl, change_code, recent_sends, retry_after,
  Answer, verified, no_active_code, Sending, wait_for, code_sent, mac, new_code, issue_code,
  send_unless, send_code, consumed, confirm_code,
}
use apichain_backend.Contact.Active.{active_code-none}
use apichain_backend.Contact.Steps.{
  remaining, IsValid, is_wrong, is_issued, open_still, issued_first, issued-IsValid, consumed_count,
  Step-send_code, Step-confirm_code,
}

-- A request of the farmer and the channel: a send with the code drawn, whether the message was sent and
-- the time, or a confirmation with the code typed and the time.
pub data Request : Type 0 where
  send : Text → Bool → ℕ → Request
  confirm : Text → ℕ → Request

module _ (hmac : Bytes → Bytes) (farmer_id : ℕ) (channel : CommChannel) where
  -- How many codes a run issues and how many wrong guesses it compares, and the table that it leaves.
  pub record Run : Type 0 where
    pub issued : ℕ
    pub wrong : ℕ
    pub table : CodeTable

  unfoldable pub run_requests : List Request → CodeTable → Run
  unfolding send_code confirm_code
  run_requests [] table = record { issued = 0; wrong = 0; table = table }
  run_requests (send code is_sent now ∷ requests) table =
      let out = send_code hmac farmer_id channel code is_sent now table in
      let rest = run_requests requests out.1 in
      record rest { issued = is_issued out.0 + rest.issued }
  run_requests (confirm code now ∷ requests) table =
      let out = confirm_code hmac farmer_id channel code now table in
      let rest = run_requests requests out.1 in record rest { wrong = is_wrong out.0 + rest.wrong }

  -- Guesses are bounded by the codes that are issued: in a valid table, a run of sends and confirmations
  -- of one farmer and channel, in any order, at any times and with any codes, answers `invalid_code` at
  -- most five times for each code it issues and once for each guess that the active code had left.
  pub run_requests_bound :
      (requests : List Request) (table : CodeTable)
      → IsValid farmer_id channel table
      → (run_requests requests table).wrong
        ≤ 5 * (run_requests requests table).issued + remaining farmer_id channel table
  unfolding run_requests
  run_requests_bound [] table v = omega arith
  run_requests_bound (send code is_sent now ∷ requests) table v =
      let step = Step-send_code hmac farmer_id channel code is_sent now table v in
      omega (
        arith,
        step.spent,
        run_requests_bound requests (send_code hmac farmer_id channel code is_sent now table).1
            step.valid,
      )
  run_requests_bound (confirm code now ∷ requests) table v =
      let step = Step-confirm_code hmac farmer_id channel code now table v in
      omega (
        arith,
        step.spent,
        run_requests_bound requests (confirm_code hmac farmer_id channel code now table).1
            step.valid,
      )

  -- A code that was sent from a valid table is accepted by a confirmation that directly follows the send,
  -- before the code expires; and the next confirmation after that, with the same code at any time, is
  -- refused as not active.
  pub confirm_code-send_code :
      (code : Text) (now later again : ℕ) (table after : CodeTable)
      → IsValid farmer_id channel table
      → send_code hmac farmer_id channel code true now table ≡ (code_sent, after)
      → later < now + code_ttl
      → let out = confirm_code hmac farmer_id channel code later after in
        (out.0 ≡ verified)
        × ((confirm_code hmac farmer_id channel code again out.1).0 ≡ no_active_code)
  unfolding send_code confirm_code
  confirm_code-send_code code now later again table after v h fresh =
      go (retry_after (recent_sends farmer_id channel now table.rows) now) h
    where
      new : VerificationCode
      new = new_code hmac farmer_id channel code now table.next_id

      issued : CodeTable
      issued = issue_code hmac farmer_id channel code now table

      used : CodeTable
      used = record issued { rows = change_code new.id (consumed hmac later) issued.rows }

      accepted : confirm_code hmac farmer_id channel code later issued ≡ (verified, used)
      accepted =
          rw (issued_first hmac farmer_id channel code now table) rw (open_still now later fresh) rw
            (bytes_eq_refl (mac hmac farmer_id channel code)) refl

      refused : (confirm_code hmac farmer_id channel code again used).0 ≡ no_active_code
      refused =
          rw
            (active_code-none farmer_id channel used.rows (
              consumed_count hmac farmer_id channel later issued new
                (issued-IsValid hmac farmer_id channel code now table v)
                (issued_first hmac farmer_id channel code now table)))
            refl

      Done : CodeTable → Type 0
      Done t =
          let out = confirm_code hmac farmer_id channel code later t in
          (out.0 ≡ verified)
          × ((confirm_code hmac farmer_id channel code again out.1).0 ≡ no_active_code)

      go :
          (wait : Option ℕ)
          → send_unless hmac wait farmer_id channel code true now table ≡ (code_sent, after)
          → Done after
      go (some wait) e = absurd (never (ap (λ (p : Sending × CodeTable). p.0) e))
        where
          never : wait_for wait ≡ code_sent → ⊥
          never q = cc
      go none e = subst Done (ap (λ (p : Sending × CodeTable). p.1) e) (
        ap (λ (p : Answer × CodeTable). p.0) accepted,
        ap (λ (p : Answer × CodeTable). (confirm_code hmac farmer_id channel code again p.1).0)
              accepted
            ∙ refused,
      )
