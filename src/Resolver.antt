-- ===== src/Resolver.antt =====
-- internal/resolver: from the policy and the nodes to the groups that the compilers render.
pub mod Items
pub mod Admission
pub mod Groups
pub mod Snapshot
mod Tests
