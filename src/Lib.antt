-- ===== src/Lib.antt =====
-- may_must_rs decides assertions of a program by backward analysis: it lowers procedures to abstract
-- control-flow graphs, carries the negated assertion backwards by weakest preconditions and asks an
-- SMT solver whether the entry can reach a violation; summaries answer calls between procedures.
--
-- Parts, and the files that model them:
-- * The formula language, src/formula/mod.rs: Formula/Data (sorts, variables, terms, memory,
--   formulas), Formula/Build (`simplify` and the constructors that call it), Formula/Rename
--   (`Formula::substitute`). `True`, `False` and `Formula::Var` are verum, falsum and prop.
--   Formula/Theory gives formulas a meaning: Z3's numbers and arrays are a parameter, the record
--   Theory. Formula/Occurs says which names a formula reads. Formula/Sorts is
--   `sort` and `validate`; SortLaws, SortsKept, Cfg/SubstituteSorts, RegionSorts and WpSorts follow
--   the sorts through simplification, substitution and `wp`.
-- * Alpha renaming, src/formula/alpha_rename.rs: Formula/AlphaRename (formulas, terms, memory) and
--   Cfg/AlphaEffect (effects, blocks); the two closures are parameters.
-- * Blocks, src/cfg/abstract_cfg.rs: Cfg/Effect (`TransferEffect`), Cfg/Substitute,
--   Cfg/Mention, Cfg/Transfer (`wp`, `wp_inductive`, `sp`, `havoc_region_in_formula`). Cfg/Run is
--   the relation between the states before and after a block, by the documented effects: a call with
--   HavocMemory and a store that was not resolved may change all memory, a load or cast that was not
--   resolved gives its target any value, calls with PreservesMemory and the effects that only serve
--   the resolution of pointers leave the state as it is. `wp` and `sp` leave the formula as it is
--   at all of these, and Cfg/Frame says for which formulas that is right. The contents of a
--   new region are those that the first state gives to its name.
-- * The graph, src/cfg/abstract_cfg.rs: Cfg/Graph (`AbstractCfg` and its operations; a `BTreeMap` is
--   an association list in ascending key order, ids are natural numbers), Cfg/Order (Kahn's
--   algorithm). Cfg/Built is the relation of the graphs that calls can build.
-- * The oracle, src/smt/oracle.rs: Smt/Oracle. Z3 itself is the record Solver; where a
--   theorem speaks of a sound solver, its `unsat` is right, and nothing else is assumed of it.
-- * Summaries, src/analysis/interproc/summaries.rs and query.rs: Summaries/Table
--   (`implies_with_shortcuts`, the covering tests, lookup and merge).
-- * The engine, src/analysis/backward/node_summary.rs, rules.rs and mod.rs: Backward/Summary,
--   Backward/Rules (one function per rule, over the engine's state), Backward/Pass (the passes of
--   `run_to_fixpoint` and of `compute_preliminary_backward_states`).
--   Backward/Grown, States, Seeded, Cover and Preliminary carry the argument for the latter: Violates
--   is the relation of the paths to a violation, over Run and the edges' guards.
-- * The alias analysis, src/pointer_analysis/andersen.rs: Pointer/Constraint (`AliasResult`,
--   `Constraint`), Pointer/Solver (`solve`; the order in which its hash map is walked is an
--   argument, and the locations of a set are walked in the
--   order of their insertion, where the source's BTreeSet sorts them). Facts, Growth, MemoryGrowth, Closure, Queue, Fixpoint, Indexed and Start carry the
--   loop's invariant, Missing and Rounds its measure; Derivation reads the constraints as rules.
-- * Flat addresses, src/cfg/flat_layout.rs: Pointer/Layout. `eval_flat_addr` wraps around as i64
--   does in a release build; a debug build panics where a result does not fit.
-- * Queries between procedures, src/analysis/interproc: Summaries/Must (`merge_must`,
--   `extend_from` of query.rs), Interproc/Smash (`run_smash` of smash.rs), Interproc/Scheduler (the
--   queue of scheduler.rs). The record Engines stands for `analyze_with_tables`, `dart_explore` and
--   the projections of summaries; debug names and logging are left out. IsScheduled is the relation
--   of the schedulers that calls of the operations reach.
-- Tests holds runs at concrete inputs.
--
-- Numbers: ids, counters and lengths are natural numbers without a bound; literals of formulas and
-- the bases of regions are integers without a bound, where the source has i64.
-- Fuel: `drain`, the loop of the topological sort, gets the number of nodes that are ready at the
-- start and of edges, since each round takes a node off the queue and each edge adds one at most;
-- the loop of `solve` has no bound in the source, and its fuel is the number of rounds;
-- so has the loop of `drain` in the scheduler, which gets more rounds than queries on the queue;
-- `run_to_fixpoint` has the source's own bound on the number of rounds.
--
-- Not modelled: the LLVM frontend and the adapter, which translate what the LLVM binding gives; the
-- lowering to Z3; the interprocedural driver, the projection to an interface, loops,
-- invariants, DART; the collection of the alias constraints from LLVM instructions and the pointer
-- environment; printing and logging.
pub mod Base
pub mod Formula
pub mod Cfg
pub mod Smt
pub mod Summaries
pub mod Backward
pub mod Pointer
pub mod Interproc
pub mod Tests
