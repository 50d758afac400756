-- ===== src/Tests.antt =====
-- Runs at concrete inputs.
pub mod Model
pub mod Formulas
pub mod Blocks
pub mod Graphs
pub mod Tables
pub mod Engine
pub mod Pointers
pub mod Queries
pub mod Sorted
pub mod Renamed
