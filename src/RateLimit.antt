-- ===== src/RateLimit.antt =====
-- app/services/rate_limit.py: sliding-window limits over the rows of `rate_limit_events`.
pub mod Events
pub mod Times
pub mod Window
pub mod Histories
