-- ===== src/Tests/Engine.antt =====
-- The engine at concrete inputs.
-- At the left exit, 5 <= x, which fails where x is 3.
use may_must_rs.Base.{
  String-discrete, [], arith, if◌then◌else◌, none, refl, some, subst, sym, true, ℕ, ℕ_discrete, ◌∷◌,
  ◌≡◌, ◌⊎◌,
}
use may_must_rs.Backward.Cover.{StatesAreFramed, Violates, along, at_site}
use may_must_rs.Backward.Pass.{
  AssertionSite, compute_preliminary_backward_states, cyclic_cfg_unsupported, node_states,
}
use may_must_rs.Backward.Preliminary.{
  compute_preliminary_backward_states_cover, compute_preliminary_backward_states_total, formula_at,
}
use may_must_rs.Backward.Rules.{
  Engine, ask, block_edge, callee_of, discharge, discharge_callee, done, find_edge, find_node,
  first_callee, is_blocked, notmay_pre, notmay_pre_usesummary, summary_of, update_summary,
}
use may_must_rs.Backward.Summary.{NodeSummary, entry_summary, unreachable}
use may_must_rs.Base.Int.{pos, ℤ-discrete, ◌+ℤ◌}
use may_must_rs.Base.Map.{Map, get, insert, insert_key, member}
use may_must_rs.Base.Names.{entries}
use may_must_rs.Cfg.Built.{Built-IsWellFormed}
use may_must_rs.Cfg.Effect.{TransferFn, call, preserves_memory}
use may_must_rs.Cfg.Graph.{
  AbstractCfg, AbstractEdge, AbstractNode, edge_values, entry_kind, exit_kind, incoming_edges,
  known,
}
use may_must_rs.Cfg.Order.{release, topological_order_excluding}
use may_must_rs.Cfg.Run.{stop}
use may_must_rs.Cfg.Transfer.{wp}
use may_must_rs.Cfg.WellFormed.{IsWellFormed}
use may_must_rs.Cfg.WpSound.{AreFramed}
use may_must_rs.Formula.Build.{
  contains, finish_and, flatten_and, mk_and, mk_or, push, push_all, push_new, simplify,
}
use may_must_rs.Formula.Data.{
  Formula, Formula-discrete, Sort-discrete, Var-discrete, falsum, int_lit, le, not, var,
}
use may_must_rs.Formula.Theory.{holds}
use may_must_rs.Smt.Oracle.{
  Solver, answer, feasibility, feasibility_with_model, implies_with_model, is_infeasible, is_valid,
  oracle_implies, report, sat, unsat, validity_of,
}
use may_must_rs.Tests.Graphs.{bare_edge, bare_node, branch, branch-Built}
use may_must_rs.Tests.Model.{int_var, integers, threes}
use may_must_rs.Tests.Tables.{clashes, f_table, x_positive}

abbrev five_le : Formula
five_le = le (int_lit (pos 5)) (var (int_var "x"))

abbrev left_site : AssertionSite
left_site = record { site_id = 0; site_node = 1; obligation = five_le }

left-known : known 1 branch ≡ true
unfolding known get
left-known = refl

branch-WellFormed : IsWellFormed branch
branch-WellFormed = Built-IsWellFormed branch branch-Built

-- The violation is that 5 <= x fails; it is carried to the entry and not to the right exit.
abbrev branch_states : Map Formula
branch_states = (0, not five_le) ∷ (1, not five_le) ∷ (2, falsum) ∷ []

branch-states : compute_preliminary_backward_states branch left_site [] ≡ node_states branch_states
unfolding compute_preliminary_backward_states get topological_order_excluding edge_values member
    insert release incoming_edges notmay_pre mk_or wp unreachable simplify entry_summary mk_and
branch-states = refl

compute_preliminary_backward_states_total_example :
    ((m : Map Formula) × (compute_preliminary_backward_states branch left_site [] ≡ node_states m))
    ⊎ (compute_preliminary_backward_states branch left_site [] ≡ cyclic_cfg_unsupported)
compute_preliminary_backward_states_total_example =
    compute_preliminary_backward_states_total branch left_site [] branch-WellFormed left-known

node_empty : (v : ℕ) (n : AbstractNode) → get v branch.nodes ≡ some n → n.transfer ≡ []
unfolding get
node_empty v n h = ground arith

edge_empty : (k : ℕ) (e : AbstractEdge) → get k branch.edges ≡ some e → e.effects ≡ []
unfolding get
edge_empty k e h = ground arith

AreFramed-empty : (t : TransferFn) (f : Formula) → t ≡ [] → AreFramed t f
AreFramed-empty t f h = subst (λ u. AreFramed u f) (sym h) tt

branch-StatesAreFramed : StatesAreFramed branch left_site (formula_at branch_states)
branch-StatesAreFramed = (
  λ n h. AreFramed-empty n.transfer _ (node_empty 1 n h),
  λ k e n he hn. (
    AreFramed-empty e.effects _ (edge_empty k e he),
    AreFramed-empty n.transfer _ (node_empty e.source n hn),
  ),
)

threes-Violates : Violates branch left_site [] integers 0 threes
unfolding get holds member ◌+ℤ◌
threes-Violates =
    along 0 (bare_edge 0 0 1) (bare_node 0 "entry" entry_kind) threes threes threes refl refl refl
      (stop threes) refl (stop threes)
      (at_site (bare_node 1 "left" exit_kind) threes threes refl (stop threes) refl)

compute_preliminary_backward_states_cover_example :
    holds integers threes (formula_at branch_states 0) ≡ true
compute_preliminary_backward_states_cover_example =
    compute_preliminary_backward_states_cover branch left_site [] integers branch_states 0 threes
      branch-WellFormed left-known branch-states branch-StatesAreFramed threes-Violates

-- The entry's own assertion is violated where 1 <= x; the next node calls f.
abbrev call_node : AbstractNode
call_node = record (bare_node 1 "call" exit_kind) { transfer = call "f" preserves_memory ∷ [] }

abbrev calls_f : AbstractCfg
calls_f = record branch {
  nodes = (0, bare_node 0 "entry" entry_kind) ∷ (1, call_node) ∷ [];
  edges = (0, bare_edge 0 0 1) ∷ [];
  concrete_exits = 1 ∷ [];
}

abbrev reached : NodeSummary
reached = record (entry_summary 0) { state = x_positive }

abbrev seeded_engine : Engine
seeded_engine = record { summaries = (0, reached) ∷ (1, unreachable 1) ∷ []; blocked_edges = [] }

abbrev deciding : Solver
deciding = record {
  check = λ f. answer (if clashes f then unsat else sat);
  model_bindings = λ f. none;
}

-- The rule sets the entry's state to False, though its own assertion is violated.
usesummary_forgets :
    notmay_pre_usesummary calls_f deciding f_table 0 seeded_engine
    ≡ done (record (block_edge 0 seeded_engine) {
      summaries = insert 0 (record reached { state = falsum }) seeded_engine.summaries;
    })
unfolding notmay_pre_usesummary discharge_callee is_blocked member find_edge get find_node callee_of
    String-discrete entries summary_of ask feasibility oracle_implies is_infeasible mk_and simplify
    entry_summary is_valid block_edge discharge first_callee update_summary insert insert_key
    contains finish_and flatten_and push push_all push_new Formula-discrete Var-discrete
    Sort-discrete ℤ-discrete ℕ_discrete unreachable feasibility_with_model implies_with_model report
    validity_of
usesummary_forgets = refl
