-- ===== src/Codex.antt =====
-- app/services/codex_scoring.py: the rule check of a lab panel against the Codex limits.
pub mod Rules
pub mod Score
pub mod Verdicts
pub mod Limits
