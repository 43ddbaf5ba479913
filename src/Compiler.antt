-- ===== src/Compiler.antt =====
-- internal/compiler: what happens to a resolved policy before it is rendered.
pub mod Prune
mod Tests
