-- ===== src/Pointer.antt =====
-- The flat layout of memory regions and the alias analysis.
pub mod Constraint
pub mod Solver
pub mod Facts
pub mod Growth
pub mod MemoryGrowth
pub mod Closure
pub mod Derivation
pub mod Queue
pub mod Fixpoint
pub mod Indexed
pub mod Start
pub mod Missing
pub mod Cost
pub mod Rounds
pub mod Solve
pub mod FieldCycle
pub mod Alias
pub mod Layout
pub mod LaidOut
pub mod FindRegion
pub mod LayoutLaws
pub mod LayoutBounds
pub mod AddressMeaning
