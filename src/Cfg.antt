-- ===== src/Cfg.antt =====
-- src/cfg/abstract_cfg.rs.
pub mod Effect
pub mod Substitute
pub mod SubstituteMeaning
pub mod Mention
pub mod Transfer
pub mod Run
pub mod Frame
pub mod AlphaEffect
pub mod AlphaRun
pub mod MentionLaws
pub mod BoolSubstitute
pub mod WpSound
pub mod Inductive
pub mod SpSound
pub mod Graph
pub mod WellFormed
pub mod EdgeLaws
pub mod JoinExits
pub mod ExitLaws
pub mod Order
pub mod Kahn
pub mod KahnFull
pub mod KahnStart
pub mod Incoming
pub mod Built
pub mod SubstituteSorts
pub mod RegionSorts
pub mod WpSorts
