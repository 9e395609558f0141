-- ===== src/Sessions.antt =====
-- app/services/refresh_tokens.py: issue, rotation, reuse detection and revocation.
pub mod Tokens
pub mod Rows
pub mod Valid
pub mod Revocations
pub mod Counting
pub mod Rotation
pub mod Replay
pub mod Reuse
