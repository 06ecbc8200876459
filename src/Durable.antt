-- ===== src/Durable.antt =====
-- src/durable: the durable job store. A SQLite table is a list of rows, a statement the list
-- operation that it means, and a transaction keeps the old database when its body throws.
pub mod Json
pub mod Codec
pub mod Missions
pub mod Checkpoints
pub mod Types
pub mod Rows
pub mod Jobs
pub mod Queue
pub mod Settle
pub mod Calls
pub mod Machine
pub mod Refinement
pub mod Safety
pub mod Cancellation
pub mod Runner
pub mod Reads
mod Tests
