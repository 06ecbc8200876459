-- ===== src/Mission.antt =====
-- src/mission/runtime.ts: the mission aggregate, its task graph, its events and its runtime.
pub mod State
pub mod Graph
pub mod Budget
pub mod Checkpoint
pub mod Snapshot
pub mod Project
pub mod Transitions
pub mod Applied
pub mod Invariant
pub mod History
pub mod Safety
pub mod Liveness
pub mod Runnable
pub mod Runtime
mod Tests
