-- ===== src/Tests/WorkerRuns.antt =====
-- Runs of the job status: an outage of the stamping job and its recovery.
use apichain_backend.Base.{◌≡◌, refl, true, false, none, some, List, [], ◌∷◌, arith}
use apichain_backend.Base.Result.{ok, err}
use apichain_backend.Canonical.Text.{Text, codes}
use apichain_backend.Workers.Status.{anchor_stamp, WorkerStatus}
use apichain_backend.Workers.Alarms.{Tick, alarms, verdicts_of, run_ticks, run_ticks-alarms}
use apichain_backend.Tests.Data.{noon}

abbrev no_scrub : Text → Text
no_scrub t = t

abbrev new_status : WorkerStatus
new_status = record {
  last_started_at = none;
  last_finished_at = none;
  last_ok = none;
  last_ok_at = none;
  consecutive_failures = 0;
  last_error = none;
  alarmed = false;
  detail = none;
  heartbeat_at = none;
}

abbrev worked : Tick
worked = record {
  start_written = true;
  finish_written = true;
  begun = noon;
  finished = noon;
  run = ok (record { verdict = some true; error = none; detail = none });
}

abbrev raised : Tick
raised = record worked { run = err (codes "TimeoutError: calendar") }

abbrev waited : Tick
waited = record worked { run = ok (record { verdict = none; error = none; detail = none }) }

abbrev unwritten : Tick
unwritten = record raised { finish_written = false }

abbrev outage : List Tick
outage = raised ∷ raised ∷ waited ∷ unwritten ∷ raised ∷ raised ∷ worked ∷ raised ∷ []

one_alert :
    run_ticks no_scrub 3 anchor_stamp outage new_status
    ≡ false ∷ false ∷ false ∷ false ∷ true ∷ false ∷ false ∷ false ∷ []
unfolding run_ticks
one_alert = refl

run_ticks-alarms_example :
    run_ticks no_scrub 3 anchor_stamp outage new_status ≡ alarms 3 0 (verdicts_of no_scrub 3 outage)
run_ticks-alarms_example =
    run_ticks-alarms no_scrub 3 anchor_stamp outage new_status refl (omega arith) refl
