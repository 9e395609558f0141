-- ===== src/Anchoring.antt =====
-- app/services/anchoring.py and anchor_proof.py: the worker that publishes Merkle roots over runs of
-- `audit_log` rows, and the inclusion proofs derived from them.
pub mod Run
pub mod Stamp
pub mod RunLaws
pub mod Coverage
pub mod Proofs
pub mod Covering
pub mod ProofLaws
pub mod Upgrade
pub mod UpgradeLaws
