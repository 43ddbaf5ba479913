-- ===== src/Revisions.antt =====
-- The revisions of the configuration: their rows in internal/repository/sqlite/revisions.go and
-- revision_snapshots.go, and the service of internal/application/revision/service.go.
pub mod Rows
pub mod Service
pub mod Lifecycle
pub mod History
pub mod Fresh
mod Tests
