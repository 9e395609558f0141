-- ===== src/Lifecycle.antt =====
-- The batch lifecycle: app/services/transitions.py, idempotency.py, stage_payloads.py and
-- stage_writer.py, and the routes of app/routers/batches.py that change a batch.
pub mod States
pub mod Idempotency
pub mod Payloads
pub mod Writer
pub mod Routes
pub mod Create
pub mod Passed
pub mod Steps
pub mod RouteLaws
pub mod Opened
pub mod CreateLaws
pub mod Consistency
