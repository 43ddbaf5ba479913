-- ===== src/Fetch.antt =====
-- internal/fetch/policy.go: which addresses the program may fetch from.
pub mod Addresses
pub mod Hosts
pub mod Targets
mod Tests
