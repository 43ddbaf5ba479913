-- ===== src/Filters.antt =====
-- internal/domain/node_filter.go: the filters of nodes by names, protocols, sources and probes.
pub mod Regex
pub mod Conditions
pub mod Matching
mod Tests
