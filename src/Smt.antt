-- ===== src/Smt.antt =====
-- src/smt: the queries to the solver.
pub mod Oracle
