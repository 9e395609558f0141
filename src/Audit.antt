-- ===== src/Audit.antt =====
-- app/services/audit_log.py: the row-hash chain. A table is the list of its rows by ascending id;
-- `next_id` is the sequence, which a rollback does not wind back. The hash is the parameter `keccak`.
pub mod Content
pub mod Chain
pub mod Verdict
pub mod Ranges
pub mod Append
pub mod Tampering
pub mod Integrity
