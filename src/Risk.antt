-- ===== src/Risk.antt =====
-- The risk of addresses: the policies of internal/domain/iprisk.go, and their evaluation in
-- internal/application/iprisk/service.go.
pub mod Texts
pub mod Policies
pub mod Providers
pub mod Fusion
pub mod Nodes
pub mod Batches
mod Tests
