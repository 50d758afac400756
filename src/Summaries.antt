-- ===== src/Summaries.antt =====
-- src/analysis/interproc: summaries of procedures.
pub mod Table
pub mod Answers
pub mod Merge
pub mod Keeps
pub mod Must
pub mod Extend
