-- ===== src/Anchoring/Run.antt =====
-- `contiguous_run`, `_resolve_gap_at_start` and `_next_start`: which audit ids the next anchor
-- covers. Times are microseconds.
use apichain_backend.Base.{ℕ, ◌+◌, ◌*◌, List, [], ◌∷◌, ltb, leb, ◌==◌, if◌then◌else◌}
use apichain_backend.Canonical.DateTime.{DateTime, microseconds}

pub record Settings : Type 0 where
  pub anchor_max_rows : ℕ
  pub anchor_interval_seconds : ℕ

-- The loop of `contiguous_run`: `taken` rows are in the run.
unfoldable pub run_loop : List ℕ → ℕ → ℕ → ℕ → List ℕ
run_loop [] expected taken max_rows = []
run_loop (audit_id ∷ available_ids) expected taken max_rows =
    let rest = run_loop available_ids (expected + 1) (taken + 1) max_rows in
    if audit_id == expected then audit_id ∷ (if leb max_rows (taken + 1) then [] else rest) else []

unfoldable pub contiguous_run : List ℕ → ℕ → ℕ → List ℕ
unfolding run_loop
contiguous_run available_ids start max_rows = run_loop available_ids start 0 max_rows

-- How a run starts: at this id, or not before the missing id has committed.
pub data GapVerdict : Type 0 where
  starts_at waits_for : ℕ → GapVerdict

-- `candidates[0]` is given as its id and its `created_at`. A gap is waited on for two anchor
-- intervals and then skipped.
unfoldable pub resolve_gap_at_start : Settings → DateTime → ℕ → ℕ → DateTime → GapVerdict
resolve_gap_at_start settings now start first_id first_created_at =
    if first_id == start
    then starts_at start
    else if ltb (microseconds now)
        (microseconds first_created_at + 2 * settings.anchor_interval_seconds * 1000000)
    then waits_for start
    else starts_at first_id
