-- ===== src/Backward/Rules.antt =====
-- src/analysis/backward/rules.rs: the fixpoint engine of one procedure.
use may_must_rs.Base.{
  Bool, List, Option, String, String-discrete, [], bool_not, if◌then◌else◌, length, none, some,
  test, true, ℕ, ◌&&◌, ◌==◌, ◌∷◌,
}
use may_must_rs.Backward.Summary.{
  NodeSummary, combined, entry_summary, join_reach, join_state, unreachable,
}
use may_must_rs.Base.Map.{Map, get, insert, insert_key, keys, member}
use may_must_rs.Base.Names.{entries}
use may_must_rs.Cfg.Effect.{TransferFn, call}
use may_must_rs.Cfg.Graph.{AbstractCfg, AbstractEdge, AbstractNode}
use may_must_rs.Cfg.Transfer.{wp}
use may_must_rs.Formula.Build.{mk_and}
use may_must_rs.Formula.Data.{Formula, falsum, verum}
use may_must_rs.Smt.Oracle.{
  Answer, FormulaError, Solver, answer, feasibility, ill_sorted, is_infeasible, is_valid,
  oracle_implies,
}
use may_must_rs.Summaries.Table.{ContextualSummaryTable, MaySummary, NotMaySummary}

pub data RuleError : Type 0 where
  rule_unknown_edge rule_unknown_node : ℕ → RuleError
  oracle_error : FormulaError → RuleError

pub data Outcome {ℓ} (A : Type ℓ) : Type ℓ where
  done : A → Outcome A
  failed : RuleError → Outcome A

infixl 5 ◌>>=◌
abbrev pub ◌>>=◌ {ℓ κ} : {A : Type ℓ} {B : Type κ} → Outcome A → (A → Outcome B) → Outcome B
done a >>= f = f a
failed e >>= f = failed e

-- The engine's own state; the graph is an argument of the rules.
pub record Engine : Type 0 where
  pub summaries : Map NodeSummary
  pub blocked_edges : List ℕ

unfoldable pub new_engine : Engine
new_engine = record { summaries = []; blocked_edges = [] }

unfoldable pub is_blocked : ℕ → Engine → Bool
is_blocked edge_id g = member edge_id g.blocked_edges

unfoldable pub block_edge : ℕ → Engine → Engine
block_edge edge_id g = record g { blocked_edges = insert_key edge_id g.blocked_edges }

unfoldable pub blocked_count : Engine → ℕ
blocked_count g = length g.blocked_edges

unfoldable pub summary_of : ℕ → Engine → Outcome NodeSummary
summary_of id g = elim (get id g.summaries) [
  | none ↦ failed (rule_unknown_node id)
  | some s ↦ done s
]

-- A write through `summary_mut(id)?`.
unfoldable pub update_summary : ℕ → (NodeSummary → NodeSummary) → Engine → Outcome Engine
update_summary id f g = elim (get id g.summaries) [
  | none ↦ failed (rule_unknown_node id)
  | some s ↦ done (record g { summaries = insert id (f s) g.summaries })
]

unfoldable pub set_state : ℕ → Formula → Engine → Outcome Engine
unfolding update_summary
set_state id formula g = update_summary id (λ s. record s { state = formula }) g

-- The map that `init` builds, over the node ids.
unfoldable pub init_summaries : ℕ → List ℕ → Map NodeSummary
init_summaries entry [] = []
init_summaries entry (id ∷ ids) =
    insert id (if id == entry then entry_summary id else unreachable id) (init_summaries entry ids)

unfoldable pub init : AbstractCfg → Engine → Engine
unfolding init_summaries keys
init c g = record g { summaries = init_summaries c.entry (keys c.nodes) }

-- `cfg.edge(id).map_err(..)?` and `cfg.node(id).map_err(..)?`
unfoldable pub find_edge : AbstractCfg → ℕ → Outcome AbstractEdge
find_edge c id = elim (get id c.edges) [ none ↦ failed (rule_unknown_edge id) | some e ↦ done e ]

unfoldable pub find_node : AbstractCfg → ℕ → Outcome AbstractNode
find_node c id = elim (get id c.nodes) [ none ↦ failed (rule_unknown_node id) | some n ↦ done n ]

unfoldable pub is_may_assert : String → Bool
is_may_assert callee = test (String-discrete callee "may_assert")

-- The search of `callee_of` over the effects.
unfoldable pub first_callee : TransferFn → Option String
unfolding is_may_assert
first_callee [] = none
first_callee (call callee _ ∷ es) = if is_may_assert callee then first_callee es else some callee
first_callee (e ∷ es) = first_callee es

unfoldable pub callee_of : AbstractNode → Option String
unfolding first_callee
callee_of n = first_callee n.transfer

-- `oracle.…?`
unfoldable pub ask {ℓ} : {A : Type ℓ} → Answer A → Outcome A
ask (answer a) = done a
ask (ill_sorted e) = failed (oracle_error e)

module _ (c : AbstractCfg) where
  unfoldable pub forward_may_post : ℕ → Engine → Outcome Engine
  unfolding is_blocked find_edge summary_of update_summary join_reach
  forward_may_post edge_id g = if is_blocked edge_id g then done g else do
    e ← find_edge c edge_id
    source ← summary_of e.source g
    let propagated = mk_and source.reach e.guard
    update_summary e.target (join_reach propagated) g

  -- What one edge carries back: through the target's state, the edge's effects, its guard and the
  -- source's block.
  unfoldable pub pre_at_source : AbstractEdge → AbstractNode → Formula → Formula
  pre_at_source e n target_state = wp n.transfer (mk_and e.guard (wp e.effects target_state))

  unfoldable pub notmay_pre : ℕ → Engine → Outcome Engine
  unfolding is_blocked find_edge find_node summary_of update_summary join_state pre_at_source
  notmay_pre edge_id g = if is_blocked edge_id g then done g else do
    e ← find_edge c edge_id
    target ← summary_of e.target g
    n ← find_node c e.source
    update_summary e.source (join_state (pre_at_source e n target.state)) g

  module _ (z : Solver) where
    unfoldable pub notmay_pre_pruned : ℕ → Engine → Outcome Engine
    unfolding notmay_pre ask block_edge
    notmay_pre_pruned edge_id g = do
      g1 ← notmay_pre edge_id g
      e ← find_edge c edge_id
      source ← summary_of e.source g1
      f ← ask (feasibility z (combined source))
      if is_infeasible f
          then update_summary e.source (λ s. record s { state = falsum }) (block_edge edge_id g1)
          else done g1

    -- The loop over the callee's summaries; a summary that discharges the state ends it.
    unfoldable pub discharge : List NotMaySummary → AbstractEdge → ℕ → Engine → Outcome Engine
    discharge [] e edge_id g = done g
    discharge (s ∷ ss) e edge_id g =
        let rest = discharge ss e edge_id g in
        (summary_of e.source g >>= λ source.
        ask (feasibility z (mk_and source.reach s.precondition)) >>= λ f.
        summary_of e.target g >>= λ target.
        ask (oracle_implies z target.state s.postcondition) >>= λ v.
        if bool_not (is_infeasible f) && is_valid v
        then update_summary e.source (λ s. record s { state = falsum }) (block_edge edge_id g)
        else rest)

    -- `let Some(callee) = … else { return Ok(()) }`, and the loop.
    unfoldable pub discharge_callee :
        Option String → ContextualSummaryTable → AbstractEdge → ℕ → Engine → Outcome Engine
    unfolding discharge
    discharge_callee none tables e edge_id g = done g
    discharge_callee (some callee) tables e edge_id g =
        discharge (entries callee tables.notmay) e edge_id g

    unfoldable pub notmay_pre_usesummary : ContextualSummaryTable → ℕ → Engine → Outcome Engine
    unfolding discharge_callee
    notmay_pre_usesummary tables edge_id g = if is_blocked edge_id g then done g else do
      e ← find_edge c edge_id
      n ← find_node c e.target
      discharge_callee (callee_of n) tables e edge_id g

    unfoldable pub applies : Formula → MaySummary → Outcome Bool
    applies caller_reach s = elim s.precondition [
      | verum ↦ done true
      | _ ↦ ask (oracle_implies z caller_reach s.precondition) >>= λ v. done (is_valid v)
    ]

    -- The loop over the callee's may-summaries.
    unfoldable pub join_summaries : List MaySummary → Formula → ℕ → Engine → Outcome Engine
    unfolding applies
    join_summaries [] caller_reach target g = done g
    join_summaries (s ∷ ss) caller_reach target g = do
      a ← applies caller_reach s
      g1 ← (if a then update_summary target (join_reach s.postcondition) g else done g)
      join_summaries ss caller_reach target g1

    unfoldable pub forward_may_usesummary : ContextualSummaryTable → ℕ → Engine → Outcome Engine
    unfolding join_summaries
    forward_may_usesummary tables edge_id g = if is_blocked edge_id g then done g else do
      e ← find_edge c edge_id
      n ← find_node c e.source
      elim (callee_of n) [
        | none ↦ done g
        | some callee ↦ summary_of e.source g >>= λ source.
            join_summaries (entries callee tables.forward_may) source.reach e.target g
      ]
