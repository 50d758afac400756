-- ===== src/Backward/Pass.antt =====
-- src/analysis/backward/rules.rs and mod.rs: the two passes over the rules.
use may_must_rs.Base.{
  Bool, List, Option, [], if◌then◌else◌, length, none, reverse, some, suc, zero, ℕ, ◌+◌, ◌==◌, ◌∷◌,
}
use may_must_rs.Backward.Rules.{
  Engine, Outcome, RuleError, ask, block_edge, blocked_count, done, failed, find_node,
  forward_may_post, forward_may_usesummary, init, new_engine, notmay_pre, notmay_pre_pruned,
  notmay_pre_usesummary, set_state, summary_of, ◌>>=◌,
}
use may_must_rs.Backward.Summary.{NodeSummary, combined}
use may_must_rs.Base.Map.{Map}
use may_must_rs.Cfg.Graph.{AbstractCfg, incoming_edges, outgoing_edges}
use may_must_rs.Cfg.Order.{Sorting, cyclic, ordered, panics, topological_order_excluding}
use may_must_rs.Cfg.Transfer.{wp}
use may_must_rs.Formula.Data.{Formula, not}
use may_must_rs.Smt.Oracle.{
  FeasibilityReport, SmtModel, Solver, feasibility_with_model, feasible, is_infeasible,
}
use may_must_rs.Summaries.Table.{ContextualSummaryTable}

-- The inner loop of the backward passes, over the incoming edges of one node.
unfoldable pub pull : AbstractCfg → List ℕ → Engine → Outcome Engine
pull c [] g = done g
pull c (k ∷ ks) g = notmay_pre c k g >>= λ g1. pull c ks g1

-- The loop of `compute_preliminary_backward_states`, over the reversed order.
unfoldable pub pull_all : AbstractCfg → List ℕ → Engine → Outcome Engine
unfolding pull
pull_all c [] g = done g
pull_all c (n ∷ ns) g = pull c (incoming_edges n c) g >>= λ g1. pull_all c ns g1

-- `for edge in excluded_back_edges { engine.block_edge(*edge) }`
unfoldable pub block_all : List ℕ → Engine → Engine
block_all [] g = g
block_all (k ∷ ks) g = block_all ks (block_edge k g)

pub record AssertionSite : Type 0 where
  pub site_id : ℕ
  pub site_node : ℕ
  pub obligation : Formula

-- The engine with the negated obligation at the assertion's node.
unfoldable pub seeded : AbstractCfg → AssertionSite → List ℕ → Outcome Engine
unfolding block_all init find_node set_state new_engine
seeded c site excluded = do
  n ← find_node c site.site_node
  set_state site.site_node (wp n.transfer (not site.obligation))
      (block_all excluded (init c new_engine))

-- `compute_preliminary_backward_states`, over a reversed order of the nodes.
unfoldable pub preliminary_states : AbstractCfg → AssertionSite → List ℕ → List ℕ → Outcome Engine
unfolding seeded pull_all
preliminary_states c site excluded reversed = do g ← seeded c site excluded; pull_all c reversed g

-- The state formulas of the summaries.
unfoldable pub state_map : Map NodeSummary → Map Formula
state_map [] = []
state_map ((k, s) ∷ m) = (k, s.state) ∷ state_map m

-- The result; `sorting_panics` stands for the panics of the topological sort.
pub data Preliminary : Type 0 where
  node_states : Map Formula → Preliminary
  rule_failed : RuleError → Preliminary
  cyclic_cfg_unsupported sorting_panics : Preliminary

unfoldable pub collect_states : Outcome Engine → Preliminary
unfolding state_map
collect_states (done g) = node_states (state_map g.summaries)
collect_states (failed e) = rule_failed e

unfoldable pub over_order : AbstractCfg → AssertionSite → List ℕ → Sorting (List ℕ) → Preliminary
unfolding collect_states preliminary_states
over_order c site excluded cyclic = cyclic_cfg_unsupported
over_order c site excluded panics = sorting_panics
over_order c site excluded (ordered order) =
    collect_states (preliminary_states c site excluded (reverse order))

unfoldable pub compute_preliminary_backward_states :
    AbstractCfg → AssertionSite → List ℕ → Preliminary
unfolding over_order
compute_preliminary_backward_states c site excluded =
    over_order c site excluded (topological_order_excluding excluded c)

module _ (c : AbstractCfg) (z : Solver) (tables : ContextualSummaryTable) where
  unfoldable pub forward_edges : List ℕ → Engine → Outcome Engine
  forward_edges [] g = done g
  forward_edges (k ∷ ks) g = do
    g1 ← forward_may_post c k g
    g2 ← forward_may_usesummary c z tables k g1
    forward_edges ks g2

  unfoldable pub forward_pass : List ℕ → Engine → Outcome Engine
  unfolding forward_edges
  forward_pass [] g = done g
  forward_pass (n ∷ ns) g = forward_edges (outgoing_edges n c) g >>= λ g1. forward_pass ns g1

  unfoldable pub backward_edges : List ℕ → Engine → Outcome Engine
  backward_edges [] g = done g
  backward_edges (k ∷ ks) g = do
    g1 ← notmay_pre c k g
    g2 ← notmay_pre_usesummary c z tables k g1
    g3 ← notmay_pre_pruned c z k g2
    backward_edges ks g3

  unfoldable pub backward_pass : List ℕ → Engine → Outcome Engine
  unfolding backward_edges
  backward_pass [] g = done g
  backward_pass (n ∷ ns) g = backward_edges (incoming_edges n c) g >>= λ g1. backward_pass ns g1

  -- The iterations, at most as many as the first argument says; they end where no edge was blocked.
  unfoldable pub iterate : ℕ → List ℕ → Engine → Outcome Engine
  unfolding forward_pass backward_pass blocked_count
  iterate zero order g = done g
  iterate (suc rounds) order g = forward_pass order g >>= λ g1.
      backward_pass (reverse order) g1 >>= λ g2.
      let again = iterate rounds order g2 in
      if blocked_count g == blocked_count g2 then done g2 else again

  -- `for _ in 0..=max_iterations` with one more than the number of edges.
  unfoldable pub run_to_fixpoint : List ℕ → Engine → Outcome Engine
  unfolding iterate
  run_to_fixpoint order g = iterate (length c.edges + 2) order g

  unfoldable pub verified : ℕ → Engine → Outcome Bool
  verified entry g = do
    s ← summary_of entry g
    r ← ask (feasibility_with_model z (combined s))
    done (is_infeasible r.feasibility)

  -- `Some(model)` where the combined formula is feasible and the graph has no cycle.
  unfoldable pub found : FeasibilityReport → Option (Option SmtModel)
  found r = elim r.feasibility [ feasible ↦ some r.model | _ ↦ none ]

  unfoldable pub bugfound : ℕ → Bool → Engine → Outcome (Option (Option SmtModel))
  unfolding found
  bugfound entry cfg_is_acyclic g =
      if cfg_is_acyclic
      then (summary_of entry g >>= λ s.
          ask (feasibility_with_model z (combined s)) >>= λ r. done (found r))
      else done none
