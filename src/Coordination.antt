-- ===== src/Coordination.antt =====
-- src/coordination: which specialists may work on which tasks of a mission at once, and what becomes of
-- what they propose.
pub mod Types
pub mod Checks
pub mod Ownership
pub mod Registry
pub mod Outcomes
pub mod State
pub mod Planning
pub mod Plans
pub mod Execution
pub mod Leases
pub mod Safety
mod Tests
pub mod Reconcile
pub mod Verdict
pub mod Specs
