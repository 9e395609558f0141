-- ===== src/Contact/Codes.antt =====
-- The rows of `verification_codes` and what the two routes do to them. Times are in microseconds and come
-- from the one clock of the service; `hmac` is HMAC-SHA256 under the pepper of the settings.
use apichain_backend.Base.{
  ℕ, ◌+◌, ◌-◌, ◌/◌, Bool, true, false, ◌&&◌, Option, none, some, List, [], ◌∷◌, ◌++◌, ◌==◌, ltb,
  leb, if◌then◌else◌,
}
use apichain_backend.Base.Bytes.{Bytes, bytes_eq}
use apichain_backend.Canonical.Text.{Text, codes, decimal}

pub data CommChannel : Type 0 where
  sms email : CommChannel

abbrev pub channel_text : CommChannel → Text
channel_text sms = codes "sms"
channel_text email = codes "email"

abbrev pub same_channel : CommChannel → CommChannel → Bool
same_channel sms sms = true
same_channel email email = true
same_channel _ _ = false

-- `CODE_TTL`, `COOLDOWN`, `WINDOW`, `SENDS_PER_WINDOW` and `MAX_ATTEMPTS`
abbrev pub code_ttl : ℕ
code_ttl = 600000000

abbrev pub cooldown : ℕ
cooldown = 60000000

abbrev pub send_window : ℕ
send_window = 3600000000

abbrev pub sends_per_window : ℕ
sends_per_window = 5

abbrev pub max_attempts : ℕ
max_attempts = 5

pub record VerificationCode : Type 0 where
  pub id : ℕ
  pub farmer_id : ℕ
  pub channel : CommChannel
  pub code_hmac : Bytes
  pub attempts : ℕ
  pub expires_at : ℕ
  pub consumed_at : Option ℕ
  pub superseded_at : Option ℕ
  pub created_at : ℕ

-- The rows, newest id first, and the sequence.
pub record CodeTable : Type 0 where
  pub rows : List VerificationCode
  pub next_id : ℕ

abbrev pub is_unset : Option ℕ → Bool
is_unset none = true
is_unset (some at) = false

-- The rows of a farmer and a channel.
abbrev pub is_theirs : ℕ → CommChannel → VerificationCode → Bool
is_theirs farmer_id channel row = row.farmer_id == farmer_id && same_channel row.channel channel

-- Neither consumed nor superseded.
abbrev pub is_open : VerificationCode → Bool
is_open row = is_unset row.consumed_at && is_unset row.superseded_at

abbrev pub is_active : ℕ → CommChannel → VerificationCode → Bool
is_active farmer_id channel row = is_theirs farmer_id channel row && is_open row

-- The `SELECT` of the active code.
unfoldable pub active_code : ℕ → CommChannel → List VerificationCode → Option VerificationCode
active_code farmer_id channel [] = none
active_code farmer_id channel (row ∷ rows) =
    if is_active farmer_id channel row then some row else active_code farmer_id channel rows

unfoldable pub change_code :
    ℕ → (VerificationCode → VerificationCode) → List VerificationCode → List VerificationCode
change_code id f [] = []
change_code id f (row ∷ rows) = if row.id == id then f row ∷ rows else row ∷ change_code id f rows

abbrev pub superseded : ℕ → VerificationCode → VerificationCode
superseded now row = record row { superseded_at = some now }

-- The `UPDATE` of a send.
unfoldable pub supersede : ℕ → CommChannel → ℕ → List VerificationCode → List VerificationCode
supersede farmer_id channel now [] = []
supersede farmer_id channel now (row ∷ rows) =
    (if is_active farmer_id channel row then superseded now row else row)
    ∷ supersede farmer_id channel now rows

-- The `SELECT` of the send times inside the window, newest first.
unfoldable pub recent_sends : ℕ → CommChannel → ℕ → List VerificationCode → List ℕ
recent_sends farmer_id channel now [] = []
recent_sends farmer_id channel now (row ∷ rows) =
    let rest = recent_sends farmer_id channel now rows in
    if is_theirs farmer_id channel row && ltb now (row.created_at + send_window)
    then row.created_at ∷ rest
    else rest

-- `recent[n]`
abbrev pub at_index : List ℕ → ℕ → Option ℕ
at_index [] n = none
at_index (t ∷ ts) ℕ.zero = some t
at_index (t ∷ ts) (ℕ.suc n) = at_index ts n

abbrev pub cooldown_wait : Option ℕ → ℕ → Option ℕ
cooldown_wait none now = none
cooldown_wait (some last) now =
    if ltb now (last + cooldown) then some (last + cooldown - now) else none

abbrev pub window_wait : Option ℕ → ℕ → Option ℕ
window_wait none now = none
window_wait (some oldest) now = some (oldest + send_window - now)

-- `max(1, math.ceil(seconds))` of a span in microseconds.
abbrev pub whole_seconds : ℕ → ℕ
whole_seconds span = let s = (span + 999999) / 1000000 in if ltb s 1 then 1 else s

abbrev pub longest_wait : Option ℕ → Option ℕ → Option ℕ
longest_wait none none = none
longest_wait (some a) none = some (whole_seconds a)
longest_wait none (some b) = some (whole_seconds b)
longest_wait (some a) (some b) = some (whole_seconds (if leb a b then b else a))

-- `retry_after`
unfoldable pub retry_after : List ℕ → ℕ → Option ℕ
retry_after recent now =
    longest_wait (cooldown_wait (at_index recent 0) now)
      (window_wait (at_index recent (sends_per_window - 1)) now)

-- What a confirmation answers: `verified` and the three refusals.
pub data Answer : Type 0 where
  verified no_active_code code_locked : Answer
  invalid_code : ℕ → Answer

-- A send refused by the limit, or made with or without success at the provider.
pub data Sending : Type 0 where
  wait_for : ℕ → Sending
  send_failed : Sending
  code_sent : Sending

module _ (hmac : Bytes → Bytes) where
  -- `mac`; the printed message is ASCII.
  unfoldable pub mac : ℕ → CommChannel → Text → Bytes
  unfolding decimal
  mac farmer_id channel code = hmac (decimal farmer_id ++ 124 ∷ channel_text channel ++ 124 ∷ code)

  abbrev pub matches : Bytes → ℕ → CommChannel → Text → Bool
  matches stored farmer_id channel code = bytes_eq stored (mac farmer_id channel code)

  abbrev pub new_code : ℕ → CommChannel → Text → ℕ → ℕ → VerificationCode
  new_code farmer_id channel code now id = record {
    id = id;
    farmer_id = farmer_id;
    channel = channel;
    code_hmac = mac farmer_id channel code;
    attempts = 0;
    expires_at = now + code_ttl;
    consumed_at = none;
    superseded_at = none;
    created_at = now;
  }

  abbrev pub issue_code : ℕ → CommChannel → Text → ℕ → CodeTable → CodeTable
  issue_code farmer_id channel code now table = record {
    rows =
        new_code farmer_id channel code now table.next_id
        ∷ supersede farmer_id channel now table.rows;
    next_id = table.next_id + 1;
  }

  -- A code that nobody received is superseded, and stays in the table.
  abbrev pub settle : Bool → ℕ → ℕ → CodeTable → Sending × CodeTable
  settle true id now table = (code_sent, table)
  settle false id now table =
      (send_failed, record table { rows = change_code id (superseded now) table.rows })

  abbrev pub send_unless :
      Option ℕ → ℕ → CommChannel → Text → Bool → ℕ → CodeTable → Sending × CodeTable
  send_unless (some wait) farmer_id channel code is_sent now table = (wait_for wait, table)
  send_unless none farmer_id channel code is_sent now table =
      settle is_sent table.next_id now (issue_code farmer_id channel code now table)

  -- `send_verification_code` from the limit on, with whether the message was sent.
  unfoldable pub send_code : ℕ → CommChannel → Text → Bool → ℕ → CodeTable → Sending × CodeTable
  unfolding mac supersede change_code recent_sends retry_after
  send_code farmer_id channel code is_sent now table =
      send_unless (retry_after (recent_sends farmer_id channel now table.rows) now) farmer_id
        channel code is_sent now table

  abbrev pub counted : VerificationCode → VerificationCode
  counted row = record row { attempts = row.attempts + 1 }

  abbrev pub consumed : ℕ → VerificationCode → VerificationCode
  consumed now row = record row { consumed_at = some now }

  abbrev pub compare_code :
      ℕ → CommChannel → VerificationCode → Text → ℕ → CodeTable → Answer × CodeTable
  compare_code farmer_id channel row code now table =
      if matches row.code_hmac farmer_id channel code
      then (verified, record table { rows = change_code row.id (consumed now) table.rows })
      else (
        invalid_code (max_attempts - (row.attempts + 1)),
        record table { rows = change_code row.id counted table.rows },
      )

  abbrev pub confirm_active :
      ℕ → CommChannel → Option VerificationCode → Text → ℕ → CodeTable → Answer × CodeTable
  confirm_active farmer_id channel none code now table = (no_active_code, table)
  confirm_active farmer_id channel (some row) code now table =
      if leb row.expires_at now
      then (no_active_code, table)
      else if leb max_attempts row.attempts
      then (code_locked, table)
      else compare_code farmer_id channel row code now table

  -- `confirm_verification_code` on the table: a wrong guess is counted and committed before the refusal.
  unfoldable pub confirm_code : ℕ → CommChannel → Text → ℕ → CodeTable → Answer × CodeTable
  unfolding mac active_code change_code
  confirm_code farmer_id channel code now table =
      confirm_active farmer_id channel (active_code farmer_id channel table.rows) code now table
