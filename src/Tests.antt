-- ===== src/Tests.antt =====
-- Runs of the theorems on concrete inputs.
mod Data
mod MerkleRuns
mod AuditRuns
mod AnchoringRuns
mod LifecycleRuns
mod CodexRuns
mod RouteRuns
mod ConsentRuns
mod CreateRuns
mod RateRuns
mod SessionRuns
mod VerifyRuns
mod ContactRuns
mod WorkerRuns
mod UpgradeRuns
