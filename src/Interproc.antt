-- ===== src/Interproc.antt =====
-- The queries between procedures: one orchestrator run and the scheduler.
pub mod Smash
pub mod Scheduler
pub mod Dispatch
pub mod Invariant
pub mod Drain
pub mod Active
