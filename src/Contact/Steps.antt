-- ===== src/Contact/Steps.antt =====
-- One send or confirmation of a farmer and channel: the table's invariant, and the guesses that are
-- left.
use apichain_backend.Base.{
  ℕ, ◌+◌, ◌-◌, ◌*◌, ◌≤◌, ◌<◌, ◌≡◌, refl, sym, ap, Bool, true, false, Option, none, some, List, [],
  ◌∷◌, leb, arith, Bool-cases, inl, inr,
}
use apichain_backend.Base.Bytes.{Bytes}
use apichain_backend.Canonical.Text.{Text}
use apichain_backend.Contact.Codes.{
  CommChannel, VerificationCode, CodeTable, code_ttl, max_attempts, is_active, active_code,
  change_code, superseded, sms, email, recent_sends, retry_after, Answer, verified, no_active_code,
  code_locked, invalid_code, Sending, wait_for, send_failed, code_sent, matches, new_code,
  issue_code, settle, send_unless, send_code, counted, consumed, confirm_active, confirm_code,
}
use apichain_backend.Contact.Active.{
  one_if, count_active, Falling, KeepsOwner, Falling-change_code, Falling-supersede,
  count_active-supersede, active_code-none, some-eq, count_active-change_code,
  active_code-change_code,
}

-- The guesses that the active code still takes.
abbrev pub left_of : Option VerificationCode → ℕ
left_of none = 0
left_of (some row) = max_attempts - row.attempts

abbrev pub remaining : ℕ → CommChannel → CodeTable → ℕ
remaining farmer_id channel table = left_of (active_code farmer_id channel table.rows)

-- A table in id order with at most one active code of the farmer and the channel.
pub record IsValid (farmer_id : ℕ) (channel : CommChannel) (table : CodeTable) : Type 0 where
  pub falling : Falling table.next_id table.rows
  pub one : count_active farmer_id channel table.rows ≤ 1

abbrev pub is_wrong : Answer → ℕ
is_wrong verified = 0
is_wrong no_active_code = 0
is_wrong code_locked = 0
is_wrong (invalid_code left) = 1

-- Whether a send issued a code.
abbrev pub is_issued : Sending → ℕ
is_issued (wait_for wait) = 0
is_issued send_failed = 1
is_issued code_sent = 1

superseded-KeepsOwner : (now : ℕ) → KeepsOwner (superseded now)
superseded-KeepsOwner now = record {
  same_id = λ row. refl;
  same_owner = λ farmer_id channel row. refl;
}

left_bound : (o : Option VerificationCode) → left_of o ≤ 5
left_bound none = omega arith
left_bound (some row) = omega arith

is_active_found :
    (farmer_id : ℕ) (channel : CommChannel) (rows : List VerificationCode) (row : VerificationCode)
    → active_code farmer_id channel rows ≡ some row
    → is_active farmer_id channel row ≡ true
unfolding active_code
is_active_found farmer_id channel [] row h = cc
is_active_found farmer_id channel (r ∷ rows) row h =
    elim (Bool-cases (is_active farmer_id channel r)) [
      | inl y ↦ (let same : r ≡ row = some-eq (rw y at h) in rw (sym same) y)
      | inr n ↦ is_active_found farmer_id channel rows row (rw n at h)
    ]

pub open_still : (now later : ℕ) → later < now + code_ttl → leb (now + code_ttl) later ≡ false
open_still now later l = ground arith

module _ (hmac : Bytes → Bytes) (farmer_id : ℕ) (channel : CommChannel) where
  counted-KeepsOwner : KeepsOwner (counted hmac)
  counted-KeepsOwner = record { same_id = λ row. refl; same_owner = λ f c row. refl }

  consumed-KeepsOwner : (now : ℕ) → KeepsOwner (consumed hmac now)
  consumed-KeepsOwner now = record { same_id = λ row. refl; same_owner = λ f c row. refl }

  -- What a step gives and leaves.
  pub record Step (before : CodeTable) (gained wrong : ℕ) (after : CodeTable) : Type 0 where
    pub valid : IsValid farmer_id channel after
    pub spent :
        wrong + remaining farmer_id channel after ≤ 5 * gained + remaining farmer_id channel before

  same_Step : (table : CodeTable) → IsValid farmer_id channel table → Step table 0 0 table
  same_Step table v = record { valid = v; spent = omega arith }

  pub consumed_count :
      (now : ℕ) (table : CodeTable) (row : VerificationCode)
      → IsValid farmer_id channel table
      → active_code farmer_id channel table.rows ≡ some row
      → count_active farmer_id channel (change_code row.id (consumed hmac now) table.rows) ≡ 0
  consumed_count now table row v a =
      let moved =
        count_active-change_code farmer_id table.next_id channel (consumed hmac now) table.rows row
          v.falling a in
      let closed : is_active farmer_id channel (consumed hmac now row) ≡ false = ground arith in
      omega (arith, v.one, moved, ap one_if closed)

  verified_Step :
      (now : ℕ) (table : CodeTable) (row : VerificationCode)
      → IsValid farmer_id channel table
      → active_code farmer_id channel table.rows ≡ some row
      → Step table 0 0 (record table { rows = change_code row.id (consumed hmac now) table.rows })
  verified_Step now table row v a =
      let none_left = consumed_count now table row v a in
      record {
        valid = record {
          falling =
              Falling-change_code row.id table.next_id (consumed hmac now) table.rows
                (consumed-KeepsOwner now) v.falling;
          one = omega (arith, none_left);
        };
        spent = omega (arith, ap left_of (active_code-none farmer_id channel _ none_left));
      }

  wrong_Step :
      (table : CodeTable) (row : VerificationCode)
      → IsValid farmer_id channel table
      → active_code farmer_id channel table.rows ≡ some row
      → leb max_attempts row.attempts ≡ false
      → Step table 0 1 (record table { rows = change_code row.id (counted hmac) table.rows })
  wrong_Step table row v a room =
      let open_still : is_active farmer_id channel (counted hmac row) ≡ true =
        is_active_found farmer_id channel table.rows row a in
      let moved =
        count_active-change_code farmer_id table.next_id channel (counted hmac) table.rows row
          v.falling a in
      let now_active =
        active_code-change_code farmer_id table.next_id channel (counted hmac) table.rows row
          v.falling a open_still in
      record {
        valid = record {
          falling =
              Falling-change_code row.id table.next_id (counted hmac) table.rows counted-KeepsOwner
                v.falling;
          one = omega (arith, v.one, moved, ap one_if open_still);
        };
        spent = rw (now_active, a) (fewer row.attempts room);
      }
    where
      fewer : (n : ℕ) → leb 5 n ≡ false → 1 + (5 - (n + 1)) ≤ 5 * 0 + (5 - n)
      fewer n e = ground arith

  pub Step-confirm_code :
      (code : Text) (now : ℕ) (table : CodeTable)
      → IsValid farmer_id channel table
      → Step table 0
          (is_wrong (confirm_code hmac farmer_id channel code now table).0)
          (confirm_code hmac farmer_id channel code now table).1
  unfolding confirm_code
  Step-confirm_code code now table v = go (active_code farmer_id channel table.rows) refl
    where
      go :
          (o : Option VerificationCode)
          → active_code farmer_id channel table.rows ≡ o
          → Step table 0
              (is_wrong (confirm_active hmac farmer_id channel o code now table).0)
              (confirm_active hmac farmer_id channel o code now table).1
      go none a = same_Step table v
      go (some row) a = elim (Bool-cases (leb row.expires_at now)) [
        | inl late ↦ rw late (same_Step table v)
        | inr fresh ↦ elim (Bool-cases (leb max_attempts row.attempts)) [
          | inl locked ↦ rw fresh rw locked (same_Step table v)
          | inr room ↦ elim (Bool-cases (matches hmac row.code_hmac farmer_id channel code)) [
            | inl right ↦ rw fresh rw room rw right (verified_Step now table row v a)
            | inr wrong ↦ rw fresh rw room rw wrong (wrong_Step table row v a room)
          ]
        ]
      ]

  -- The table after a code is issued has one active code, the new one.
  issued_active :
      (code : Text) (now : ℕ) (table : CodeTable)
      → is_active farmer_id channel (new_code hmac farmer_id channel code now table.next_id) ≡ true
  issued_active code now table = go channel
    where
      go :
          (c : CommChannel)
          → is_active farmer_id c (new_code hmac farmer_id c code now table.next_id) ≡ true
      go sms = ground arith
      go email = ground arith

  pub issued-IsValid :
      (code : Text) (now : ℕ) (table : CodeTable)
      → IsValid farmer_id channel table
      → IsValid farmer_id channel (issue_code hmac farmer_id channel code now table)
  unfolding count_active
  issued-IsValid code now table v = record {
    falling =
        (omega arith, Falling-supersede farmer_id channel now table.next_id table.rows v.falling);
    one = omega (
      arith,
      count_active-supersede farmer_id channel now table.rows,
      ap one_if (issued_active code now table),
    );
  }

  pub issued_first :
      (code : Text) (now : ℕ) (table : CodeTable)
      → active_code farmer_id channel (issue_code hmac farmer_id channel code now table).rows
        ≡ some (new_code hmac farmer_id channel code now table.next_id)
  unfolding active_code
  issued_first code now table = rw (issued_active code now table) refl

  settled-IsValid :
      (is_sent : Bool) (now : ℕ) (code : Text) (table : CodeTable)
      → IsValid farmer_id channel table
      → IsValid farmer_id channel
          (settle hmac is_sent table.next_id now
            (issue_code hmac farmer_id channel code now table)).1
  settled-IsValid true now code table v = issued-IsValid code now table v
  settled-IsValid false now code table v =
      let w = issued-IsValid code now table v in
      let first = issued_first code now table in
      record {
        falling =
            Falling-change_code table.next_id (table.next_id + 1) (superseded now)
              (issue_code hmac farmer_id channel code now table).rows (superseded-KeepsOwner now)
              w.falling;
        one =
            fewer
              (is_active farmer_id channel
                (superseded now (new_code hmac farmer_id channel code now table.next_id)))
              (count_active-change_code farmer_id (table.next_id + 1) channel (superseded now)
                (issue_code hmac farmer_id channel code now table).rows
                (new_code hmac farmer_id channel code now table.next_id) w.falling first)
              w.one;
      }
    where
      fewer : (b : Bool) {x y : ℕ} → x + 1 ≡ y + one_if b → y ≤ 1 → x ≤ 1
      fewer true e l = omega arith
      fewer false e l = omega arith

  pub Step-send_code :
      (code : Text) (is_sent : Bool) (now : ℕ) (table : CodeTable)
      → IsValid farmer_id channel table
      → Step table
          (is_issued (send_code hmac farmer_id channel code is_sent now table).0)
          0
          (send_code hmac farmer_id channel code is_sent now table).1
  unfolding send_code
  Step-send_code code is_sent now table v =
      go (retry_after (recent_sends farmer_id channel now table.rows) now)
    where
      issued :
          (b : Bool)
          → is_issued
              (settle hmac b table.next_id now (issue_code hmac farmer_id channel code now table)).0
            ≡ 1
      issued true = refl
      issued false = refl

      go :
          (wait : Option ℕ)
          → Step table
              (is_issued (send_unless hmac wait farmer_id channel code is_sent now table).0)
              0
              (send_unless hmac wait farmer_id channel code is_sent now table).1
      go (some wait) = same_Step table v
      go none = record {
        valid = settled-IsValid is_sent now code table v;
        spent = omega (
          arith,
          issued is_sent,
          left_bound (
              active_code farmer_id channel
                (settle hmac is_sent table.next_id now
                  (issue_code hmac farmer_id channel code now table)).1.rows),
        );
      }
