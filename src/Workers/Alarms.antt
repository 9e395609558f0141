-- ===== src/Workers/Alarms.antt =====
-- Which runs of a job raise an alert.
use apichain_backend.Base.{
  ℕ, ◌+◌, ◌<◌, ◌≡◌, refl, sym, ap, ◌∙◌, Bool, true, false, not, ◌&&◌, Option, none, some, List, [],
  ◌∷◌, ◌==◌, leb, arith, if◌then◌else◌,
}
use apichain_backend.Base.Result.{Result}
use apichain_backend.Canonical.Text.{Text}
use apichain_backend.Canonical.DateTime.{DateTime}
use apichain_backend.Workers.Status.{
  Job, Outcome, WorkerStatus, red_after, is_integrity, is_red, judge, judged, finish_run,
  outcome_of, write, started, track,
}

-- One run of a job, with the times of its two status writes and whether each went through.
pub record Tick : Type 0 where
  pub start_written : Bool
  pub finish_written : Bool
  pub begun : DateTime
  pub finished : DateTime
  pub run : Result Text Outcome

abbrev pub was_sent : Option Text → Bool
was_sent none = false
was_sent (some alert) = true

-- One alert in a row of failures, at the failure that makes them enough.
abbrev pub alarms : ℕ → ℕ → List (Option Bool) → List Bool
alarms enough failures [] = []
alarms enough failures (some true ∷ verdicts) = false ∷ alarms enough 0 verdicts
alarms enough failures (some false ∷ verdicts) =
    (failures + 1 == enough) ∷ alarms enough (failures + 1) verdicts
alarms enough failures (none ∷ verdicts) = false ∷ alarms enough failures verdicts

module _ (scrub_text : Text → Text) (runs : ℕ) where
  -- The verdict that reaches the row.
  abbrev pub verdict_of : Tick → Option Bool
  verdict_of tick =
      if tick.finish_written then (outcome_of scrub_text runs tick.run).verdict else none

  abbrev pub verdicts_of : List Tick → List (Option Bool)
  verdicts_of [] = []
  verdicts_of (tick ∷ ticks) = verdict_of tick ∷ verdicts_of ticks

  -- Whether each run of a job sends an alert.
  unfoldable pub run_ticks : Job → List Tick → WorkerStatus → List Bool
  unfolding track
  run_ticks job [] row = []
  run_ticks job (tick ∷ ticks) row =
      let out =
        track scrub_text runs job tick.start_written tick.finish_written tick.begun tick.finished
          tick.run row in
      was_sent out.2 ∷ run_ticks job ticks out.0

  -- What one finished run leaves and sends.
  record Finished (enough failures : ℕ) (alert : Bool) (row : WorkerStatus) (sent : Option Text)
      : Type 0 where
    count : row.consecutive_failures ≡ failures
    remembered : row.alarmed ≡ leb enough failures
    matches : was_sent sent ≡ alert

  was_sent_if : (b : Bool) (t : Text) → was_sent (if b then some t else none) ≡ b
  was_sent_if true t = refl
  was_sent_if false t = refl

  red_when :
      (job : Job) (row : WorkerStatus)
      → is_integrity job ≡ false
      → is_red runs job row ≡ leb (red_after runs job) row.consecutive_failures
  unfolding is_red
  red_when job row other = rw other refl

  Finished-finish_run :
      (job : Job) (outcome : Outcome) (now : DateTime) (row : WorkerStatus) (failures : ℕ)
      → is_integrity job ≡ false
      → row.alarmed ≡ leb (red_after runs job) row.consecutive_failures
      → (judged scrub_text runs outcome now row).consecutive_failures ≡ failures
      → let out = finish_run scrub_text runs job outcome now row in
        Finished
          (red_after runs job)
          failures
          (leb (red_after runs job) failures
            && not (leb (red_after runs job) row.consecutive_failures))
          out.0
          out.1
  unfolding finish_run
  Finished-finish_run job outcome now row failures other alarmed e =
      let red : is_red runs job (judged scrub_text runs outcome now row)
          ≡ leb (red_after runs job) failures =
        red_when job (judged scrub_text runs outcome now row) other
        ∙ ap (leb (red_after runs job)) e in
      record {
        count = e;
        remembered = red;
        matches =
            was_sent_if
              (is_red runs job (judged scrub_text runs outcome now row) && not row.alarmed) _
            ∙ (ap (λ b. b && not row.alarmed) red
                ∙ ap (λ a. leb (red_after runs job) failures && not a) alarmed);
      }

  -- The failures in a row after a verdict.
  abbrev counted : Option Bool → ℕ → ℕ
  counted (some true) failures = 0
  counted (some false) failures = failures + 1
  counted none failures = failures

  judge-counted :
      (outcome : Outcome) (now : DateTime) (row : WorkerStatus) (verdict : Option Bool)
      → (judge scrub_text runs outcome now row verdict).consecutive_failures
        ≡ counted verdict row.consecutive_failures
  judge-counted outcome now row (some true) = refl
  judge-counted outcome now row (some false) = refl
  judge-counted outcome now row none = refl

  unchanged : (b : Bool) → (b && not b) ≡ false
  unchanged true = refl
  unchanged false = refl

  -- One alert in the list, and those that follow.
  alarms_step :
      (enough failures : ℕ) (verdict : Option Bool) (verdicts : List (Option Bool))
      → 0 < enough
      → (leb enough (counted verdict failures) && not (leb enough failures))
          ∷ alarms enough (counted verdict failures) verdicts
        ≡ alarms enough failures (verdict ∷ verdicts)
  alarms_step enough failures (some true) verdicts h =
      ap (λ b. b ∷ alarms enough 0 verdicts) (recovered enough failures h)
    where
      recovered : (n c : ℕ) → 0 < n → (leb n 0 && not (leb n c)) ≡ false
      recovered n c l = ground arith
  alarms_step enough failures (some false) verdicts h =
      ap (λ b. b ∷ alarms enough (failures + 1) verdicts) (reached enough failures)
    where
      reached : (n c : ℕ) → (leb n (c + 1) && not (leb n c)) ≡ (c + 1 == n)
      reached n c = ground arith
  alarms_step enough failures none verdicts h =
      ap (λ b. b ∷ alarms enough failures verdicts) (unchanged (leb enough failures))

  -- The row that the first status write leaves.
  abbrev begun_row : Tick → WorkerStatus → WorkerStatus
  begun_row tick row =
      (write scrub_text runs tick.start_written (started scrub_text runs tick.begun) row).0

  begun_row-alarm :
      (tick : Tick) (row : WorkerStatus)
      → ((begun_row tick row).alarmed ≡ row.alarmed)
        × ((begun_row tick row).consecutive_failures ≡ row.consecutive_failures)
  begun_row-alarm tick row = go tick.start_written
    where
      go :
          (written : Bool)
          → let after =
              (write scrub_text runs written (started scrub_text runs tick.begun) row).0 in
            (after.alarmed ≡ row.alarmed) × (after.consecutive_failures ≡ row.consecutive_failures)
      go true = (refl, refl)
      go false = (refl, refl)

  Finished-write :
      (job : Job) (outcome : Outcome) (now : DateTime) (written : Bool) (row : WorkerStatus)
      → is_integrity job ≡ false
      → row.alarmed ≡ leb (red_after runs job) row.consecutive_failures
      → let verdict = if written then outcome.verdict else none in
        let out = write scrub_text runs written (finish_run scrub_text runs job outcome now) row in
        Finished
          (red_after runs job)
          (counted verdict row.consecutive_failures)
          (leb (red_after runs job) (counted verdict row.consecutive_failures)
            && not (leb (red_after runs job) row.consecutive_failures))
          out.0
          out.1
  Finished-write job outcome now true row other alarmed =
      Finished-finish_run job outcome now row (counted outcome.verdict row.consecutive_failures)
        other alarmed
        (judge-counted outcome now (record row { last_finished_at = some now }) outcome.verdict)
  Finished-write job outcome now false row other alarmed = record {
    count = refl;
    remembered = alarmed;
    matches = sym (unchanged (leb (red_after runs job) row.consecutive_failures));
  }

  -- For a job other than the integrity check, when the row remembers whether the job is red and the
  -- runs that make it red are at least one, a run of `track`s sends an alert at the failure that
  -- completes that many failures in a row on the row, and at no other run; runs without a verdict and
  -- runs whose last status write fails do not count and send nothing.
  pub run_ticks-alarms :
      (job : Job) (ticks : List Tick) (row : WorkerStatus)
      → is_integrity job ≡ false
      → 0 < red_after runs job
      → row.alarmed ≡ leb (red_after runs job) row.consecutive_failures
      → run_ticks job ticks row
        ≡ alarms (red_after runs job) row.consecutive_failures (verdicts_of ticks)
  unfolding run_ticks track
  run_ticks-alarms job [] row other some_run alarmed = refl
  run_ticks-alarms job (tick ∷ ticks) row other some_run alarmed =
      let outcome = outcome_of scrub_text runs tick.run in
      let verdict = verdict_of tick in
      let begun : WorkerStatus = begun_row tick row in
      let (same_alarm, same_count) = begun_row-alarm tick row in
      let enough = red_after runs job in
      let step =
        Finished-write job outcome tick.finished tick.finish_written begun other
          (same_alarm ∙ (alarmed ∙ ap (leb enough) (sym same_count))) in
      let out =
        write scrub_text runs tick.finish_written
          (finish_run scrub_text runs job outcome tick.finished) begun in
      let due =
        λ (failures : ℕ). leb enough (counted verdict failures) && not (leb enough failures) in
      let count : out.0.consecutive_failures ≡ counted verdict row.consecutive_failures =
        step.count ∙ ap (counted verdict) same_count in
      let rest =
        run_ticks-alarms job ticks out.0 other some_run
          (step.remembered ∙ ap (leb enough) (sym step.count)) in
      ap (λ b. b ∷ run_ticks job ticks out.0) (step.matches ∙ ap due same_count)
      ∙ (ap (λ bs. due row.consecutive_failures ∷ bs)
            (rest ∙ ap (λ c. alarms enough c (verdicts_of ticks)) count)
          ∙ alarms_step enough row.consecutive_failures verdict (verdicts_of ticks) some_run)
