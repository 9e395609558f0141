-- ===== src/Workers.antt =====
-- app/services/worker_status.py: what each background job did, and its alarm.
pub mod Status
pub mod Alarms
