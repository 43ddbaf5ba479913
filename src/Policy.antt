-- ===== src/Policy.antt =====
-- internal/domain/policy.go: the policy graph and its validation.
pub mod Graph
pub mod Cycles
pub mod Identifiers
pub mod Source
pub mod Rules
pub mod Topology
pub mod Positions
pub mod Told
pub mod RuleOrder
mod Tests
