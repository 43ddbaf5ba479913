-- ===== src/ProbeQueue.antt =====
-- internal/probe/queue/scheduler.go: the pool that orders probe tasks and bounds their number.
pub mod State
pub mod Nodes
pub mod Pick
pub mod Submit
pub mod Preempt
pub mod Finish
pub mod Snapshot
pub mod Arranged
pub mod Invariant
pub mod Pool
pub mod Guarantees
mod Scenario
mod Tests
