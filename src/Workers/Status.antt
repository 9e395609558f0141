-- ===== src/Workers/Status.antt =====
-- The row of one background job and what one run does to it. `scrub_text` (services/redaction.py) is an
-- argument, and so is whether each of the two status writes reached the database.
use apichain_backend.Base.{
  ℕ, ◌+◌, Bool, true, false, not, ◌&&◌, ◌||◌, Option, none, some, [], ◌∷◌, leb, take, if◌then◌else◌,
}
use apichain_backend.Base.Bytes.{bytes_eq}
use apichain_backend.Base.Result.{Result, ok, err}
use apichain_backend.Canonical.Text.{Text, codes}
use apichain_backend.Canonical.Json.{Json, null, bool, text, Fields, end, field}
use apichain_backend.Canonical.DateTime.{DateTime, isoformat}
use apichain_backend.Lifecycle.Writer.{set_field}
use apichain_backend.Verify.Public.{json_eq}

-- The job names.
pub data Job : Type 0 where
  worker audit_integrity anchor_stamp anchor_upgrade comms_milestones rate_limit_prune : Job

pub record Outcome : Type 0 where
  pub verdict : Option Bool
  pub error : Option Text
  pub detail : Option Fields

pub record WorkerStatus : Type 0 where
  pub last_started_at : Option DateTime
  pub last_finished_at : Option DateTime
  pub last_ok : Option Bool
  pub last_ok_at : Option DateTime
  pub consecutive_failures : ℕ
  pub last_error : Option Text
  pub alarmed : Bool
  pub detail : Option Fields
  pub heartbeat_at : Option DateTime

-- `detail.get(key)`
abbrev pub get_field : Text → Fields → Option Json
get_field key end = none
get_field key (field k v fs) = if bytes_eq k key then some v else get_field key fs

abbrev pub no_detail : Option Fields → Fields
no_detail none = end
no_detail (some fs) = fs

-- `detail.get("chain_ok") is False`
abbrev pub is_false : Option Json → Bool
is_false (some (bool false)) = true
is_false _ = false

-- A value that `and` takes for true: of the two that are stored under `waiting_since`, a text that is
-- not empty.
abbrev pub is_truthy : Option Json → Bool
is_truthy (some (text (c ∷ s))) = true
is_truthy _ = false

-- `before.get("waiting_on_audit_id") == waiting`
abbrev pub still_waits : Option Json → Json → Bool
still_waits none waiting = false
still_waits (some before) waiting = json_eq before waiting

abbrev pub or_null : Option Json → Json
or_null none = null
or_null (some v) = v

-- The value of `waiting_since` for the id that is waited on.
abbrev pub waiting_since : Json → Fields → DateTime → Json
waiting_since null before now = null
waiting_since waiting before now =
    if still_waits (get_field (codes "waiting_on_audit_id") before) waiting
      && is_truthy (get_field (codes "waiting_since") before)
    then or_null (get_field (codes "waiting_since") before)
    else text (isoformat now)

abbrev pub merge_waiting : Option Json → Fields → Fields → DateTime → Fields
merge_waiting none before new now = new
merge_waiting (some waiting) before new now =
    set_field (codes "waiting_since") (waiting_since waiting before now) new

-- `_merge_detail`
unfoldable pub merge_detail : Option Fields → Fields → DateTime → Fields
unfolding isoformat json_eq
merge_detail old new now =
    merge_waiting (get_field (codes "waiting_on_audit_id") new) (no_detail old) new now

abbrev pub new_detail : Option Fields → Option Fields → DateTime → Option Fields
new_detail old none now = old
new_detail old (some new) now = some (merge_detail old new now)

-- `ops_anchor_failure_runs` for the stamping job, one failed run for any other.
abbrev pub red_after : ℕ → Job → ℕ
red_after runs anchor_stamp = runs
red_after runs worker = 1
red_after runs audit_integrity = 1
red_after runs anchor_upgrade = 1
red_after runs comms_milestones = 1
red_after runs rate_limit_prune = 1

abbrev pub is_integrity : Job → Bool
is_integrity audit_integrity = true
is_integrity _ = false

-- `_red`
unfoldable pub is_red : ℕ → Job → WorkerStatus → Bool
is_red runs job row =
    (is_integrity job && is_false (get_field (codes "chain_ok") (no_detail row.detail)))
    || leb (red_after runs job) row.consecutive_failures

-- `row.last_error or "failing"`
abbrev pub alert_text : Option Text → Text
alert_text none = codes "failing"
alert_text (some []) = codes "failing"
alert_text (some (c ∷ s)) = c ∷ s

-- The error of a failed run, `outcome.error or "failed"`.
abbrev pub error_text : Option Text → Text
error_text none = codes "failed"
error_text (some []) = codes "failed"
error_text (some (c ∷ s)) = c ∷ s

module _ (scrub_text : Text → Text) (runs : ℕ) where
  -- The verdict of a run.
  abbrev pub judge : Outcome → DateTime → WorkerStatus → Option Bool → WorkerStatus
  judge outcome now row (some true) = record row {
    last_ok = some true;
    last_ok_at = some now;
    consecutive_failures = 0;
    last_error = none;
  }
  judge outcome now row (some false) = record row {
    last_ok = some false;
    consecutive_failures = row.consecutive_failures + 1;
    last_error = some (take 500 (scrub_text (error_text outcome.error)));
  }
  judge outcome now row none = row

  -- The row after the verdict and the detail, before the alarm.
  abbrev pub judged : Outcome → DateTime → WorkerStatus → WorkerStatus
  judged outcome now row =
      let after = judge outcome now (record row { last_finished_at = some now }) outcome.verdict in
      record after { detail = new_detail after.detail outcome.detail now }

  -- `_finish`: the row, and the text of the alert if one is due.
  unfoldable pub finish_run : Job → Outcome → DateTime → WorkerStatus → WorkerStatus × Option Text
  unfolding is_red merge_detail
  finish_run job outcome now row =
      let after = judged outcome now row in
      let red = is_red runs job after in
      (
        record after { alarmed = red },
        if red && not row.alarmed then some (alert_text after.last_error) else none,
      )

  abbrev pub outcome_of : Result Text Outcome → Outcome
  outcome_of (err raised) = record { verdict = some false; error = some raised; detail = none }
  outcome_of (ok outcome) = outcome

  -- `_write`: a failed write leaves the row and answers `None`.
  abbrev pub write :
      {A : Type 0}
      → Bool
      → (WorkerStatus → WorkerStatus × Option A)
      → WorkerStatus
      → WorkerStatus × Option A
  write true change row = change row
  write false change row = (row, none)

  abbrev pub started : DateTime → WorkerStatus → WorkerStatus × Option Text
  started now row = (record row { last_started_at = some now }, none)

  -- `track`: the row, the outcome and the alert that is sent.
  unfoldable pub track :
      Job
      → Bool
      → Bool
      → DateTime
      → DateTime
      → Result Text Outcome
      → WorkerStatus
      → WorkerStatus × Outcome × Option Text
  unfolding finish_run
  track job start_written finish_written begun finished run row =
      let before = (write start_written (started begun) row).0 in
      let outcome = outcome_of run in
      let out = write finish_written (finish_run job outcome finished) before in
      (out.0, outcome, out.1)

  unfoldable pub heartbeat : DateTime → WorkerStatus → WorkerStatus
  heartbeat now row = record row { heartbeat_at = some now }
