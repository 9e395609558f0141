-- ===== src/Verify.antt =====
-- app/services/verification.py: the public three-way match over a batch's stage records.
pub mod Public
pub mod Match
pub mod Decimals
pub mod Returns
pub mod Equality
pub mod Forms
pub mod Blocks
pub mod Privacy
pub mod Matching
pub mod Matches
