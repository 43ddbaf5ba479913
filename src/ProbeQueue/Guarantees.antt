-- ===== src/ProbeQueue/Guarantees.antt =====
-- What internal/probe/queue/scheduler.go promises its callers.
pub mod Drained
pub mod Dispatching
pub mod Views
pub mod Records
pub mod Cancelling
pub mod Admission
pub mod Snapshots
