-- ===== src/ProbeQueue/Invariant.antt =====
-- What holds of the pool of internal/probe/queue/scheduler.go between two of its locked sections.
pub mod Working
pub mod Frame
pub mod Queueing
pub mod Promotion
pub mod Sound
pub mod Submitted
pub mod Served
