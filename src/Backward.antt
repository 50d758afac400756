-- ===== src/Backward.antt =====
-- src/analysis/backward: node summaries, the propagation rules and the preliminary backward pass.
pub mod Summary
pub mod Rules
pub mod Pass
pub mod Lookup
pub mod Grown
pub mod States
pub mod Seeded
pub mod Cover
pub mod Preliminary
