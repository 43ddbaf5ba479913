-- ===== src/Probing.antt =====
-- internal/domain/probe.go, probe_health.go and probe_schedule.go: the states of probe runs and
-- batches, and the health of a node.
pub mod States
pub mod Health
mod Tests
