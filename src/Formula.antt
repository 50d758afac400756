-- ===== src/Formula.antt =====
-- src/formula: the formula language.
pub mod Data
pub mod Build
pub mod Theory
pub mod Meaning
pub mod Rename
pub mod RenameMeaning
pub mod Occurs
pub mod Sorts
pub mod SortLaws
pub mod SortsKept
pub mod AlphaRename
pub mod AlphaMeaning
