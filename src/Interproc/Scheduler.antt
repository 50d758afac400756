-- ===== src/Interproc/Scheduler.antt =====
-- src/analysis/interproc/scheduler.rs: the queue of queries of one module.
use may_must_rs.Base.{
  Bool, List, Option, String, String-discrete, [], false, if◌then◌else◌, none, some, suc, test,
  true, zero, ℕ, ◌++◌, ◌∷◌,
}
use may_must_rs.Backward.Pass.{AssertionSite}
use may_must_rs.Base.Map.{Map, get, insert, remove}
use may_must_rs.Base.Names.{TextMap}
use may_must_rs.Cfg.Graph.{AbstractCfg}
use may_must_rs.Interproc.Smash.{
  AssertionResult, Engines, Judgement, ProcedureInterface, SmashRunResult, judged_bug_found,
  judged_unknown, judged_verified, run_smash,
}
use may_must_rs.Smt.Oracle.{Solver}
use may_must_rs.Summaries.Must.{extend_from, merge_must}
use may_must_rs.Summaries.Table.{
  ContextualMustSummary, ContextualSummaryTable, NotMaySummary, Query, merge_notmay,
}

pub record PendingEntry : Type 0 where
  pub query_id : ℕ
  pub query : Query
  pub provenance : Option AssertionSite

pub data DispatchOutcome : Type 0 where
  completed_run : SmashRunResult → DispatchOutcome
  unprovenanced : DispatchOutcome

pub record ProcedureContext : Type 0 where
  pub context_cfg : AbstractCfg
  pub assertions : List AssertionSite
  pub interface : ProcedureInterface

pub data PlaceholderKind : Type 0 where
  notmay_optimistic must_optimistic : PlaceholderKind

pub record InProgressQuery : Type 0 where
  pub active_id : ℕ
  pub active_query : Query
  pub dependents : List ℕ
  pub placeholder : PlaceholderKind

pub record Scheduler : Type 0 where
  pub pending : List ℕ
  pub in_progress : Map PendingEntry
  pub completed : Map DispatchOutcome
  pub initial_tables : ContextualSummaryTable
  pub table : ContextualSummaryTable
  pub procedures : TextMap ProcedureContext
  pub next_id : ℕ
  pub active : Map InProgressQuery

unfoldable pub empty_table : ContextualSummaryTable
empty_table = record { notmay = []; must = []; forward_may = []; loop_invariants = [] }

unfoldable pub with_initial_tables : ContextualSummaryTable → Scheduler
unfolding empty_table
with_initial_tables tables = record {
  pending = [];
  in_progress = [];
  completed = [];
  initial_tables = tables;
  table = empty_table;
  procedures = [];
  next_id = 0;
  active = [];
}

unfoldable pub legacy_tables_for_dispatch : Scheduler → ContextualSummaryTable
unfolding extend_from
legacy_tables_for_dispatch s = extend_from s.initial_tables s.table

-- `BTreeMap::get` and `BTreeMap::insert` on the procedures.
unfoldable pub context_of : String → TextMap ProcedureContext → Option ProcedureContext
context_of p [] = none
context_of p ((q, c) ∷ m) = if test (String-discrete q p) then some c else context_of p m

unfoldable pub put_context :
    String → ProcedureContext → TextMap ProcedureContext → TextMap ProcedureContext
put_context p c [] = (p, c) ∷ []
put_context p c ((q, d) ∷ m) =
    if test (String-discrete q p) then (p, c) ∷ m else (q, d) ∷ put_context p c m

unfoldable pub register_procedure : ProcedureContext → Scheduler → Scheduler
unfolding put_context
register_procedure c s = record s { procedures = put_context c.interface.procedure c s.procedures }

-- The scheduler with the query, and the query's id.
unfoldable pub enqueue_query : Query → Option AssertionSite → Scheduler → Scheduler × ℕ
unfolding insert
enqueue_query q provenance s = (
  record s {
    next_id = suc s.next_id;
    in_progress =
        insert s.next_id (record { query_id = s.next_id; query = q; provenance = provenance })
          s.in_progress;
    pending = s.pending ++ s.next_id ∷ [];
  },
  s.next_id,
)

unfoldable pub is_empty : Scheduler → Bool
is_empty s = elim s.pending [ [] ↦ true | _ ∷ _ ↦ false ]

module _ (engines : Engines) (z : Solver) where
  -- The table with the summary, if the projection gave one; errors of the oracle are logged only.
  unfoldable pub merge_notmay_summary :
      String → Option NotMaySummary → ContextualSummaryTable → ContextualSummaryTable
  unfolding merge_notmay
  merge_notmay_summary name none table = table
  merge_notmay_summary name (some s) table = (merge_notmay z name s table).0

  unfoldable pub merge_must_summary :
      String → Option ContextualMustSummary → ContextualSummaryTable → ContextualSummaryTable
  unfolding merge_must
  merge_must_summary name none table = table
  merge_must_summary name (some s) table = (merge_must z name s table).0

  unfoldable pub merged_table :
      Query
      → AssertionResult
      → Judgement
      → ProcedureInterface
      → ContextualSummaryTable
      → ContextualSummaryTable
  unfolding merge_notmay_summary merge_must_summary
  merged_table q r judged_verified interface table =
      merge_notmay_summary interface.procedure (engines.notmay_summary q interface) table
  merged_table q r (judged_bug_found model) interface table =
      merge_must_summary interface.procedure
        (engines.must_summary r.entry_summary.state r.assertion_summary.state interface) table
  merged_table q r judged_unknown interface table = table

  unfoldable pub create_and_merge_summary :
      Query → AssertionResult → ProcedureInterface → Scheduler → Scheduler
  unfolding merged_table
  create_and_merge_summary q r interface s = record s {
    table = merged_table q r r.judgement interface s.table;
  }

  -- `self.active.remove(&id); self.completed.insert(id, outcome)`
  unfoldable pub finish : ℕ → DispatchOutcome → Scheduler → Scheduler
  unfolding insert remove
  finish id outcome s = record s {
    active = remove id s.active;
    completed = insert id outcome s.completed;
  }

  unfoldable pub dispatch_in :
      ℕ
      → PendingEntry
      → ProcedureContext
      → Option AssertionSite
      → Scheduler
      → Scheduler × DispatchOutcome
  unfolding run_smash legacy_tables_for_dispatch create_and_merge_summary finish
  dispatch_in id entry ctx none s = (finish id unprovenanced s, unprovenanced)
  dispatch_in id entry ctx (some site) s =
      let smash =
        run_smash engines ctx.context_cfg entry.query.procedure site
          (legacy_tables_for_dispatch s) in
      (
        finish id (completed_run smash)
            (create_and_merge_summary entry.query smash.assertion ctx.interface s),
        completed_run smash,
      )

  -- From what the procedures have for the query's procedure. A query to a procedure that is not
  -- registered returns before its active entry is removed.
  unfoldable pub dispatch_entry :
      ℕ → PendingEntry → Option ProcedureContext → Scheduler → Scheduler × DispatchOutcome
  unfolding dispatch_in insert
  dispatch_entry id entry none s =
      (record s { completed = insert id unprovenanced s.completed }, unprovenanced)
  dispatch_entry id entry (some ctx) s = dispatch_in id entry ctx entry.provenance s

  unfoldable pub mark_active : ℕ → PendingEntry → Scheduler → Scheduler
  unfolding insert
  mark_active id entry s = record s {
    active =
        insert id
          (record {
            active_id = id;
            active_query = entry.query;
            dependents = [];
            placeholder = notmay_optimistic;
          })
          s.active;
  }

  -- `self.in_progress.remove(&id)?`; the id is off the queue by then.
  unfoldable pub dispatch_id :
      ℕ → Option PendingEntry → Scheduler → Scheduler × Option DispatchOutcome
  unfolding dispatch_entry mark_active remove context_of
  dispatch_id id none s = (s, none)
  dispatch_id id (some entry) s =
      let started = mark_active id entry (record s { in_progress = remove id s.in_progress }) in
      let (next, outcome) =
        dispatch_entry id entry (context_of entry.query.procedure s.procedures) started in
      (next, some outcome)

  unfoldable pub dispatch_from : List ℕ → Scheduler → Scheduler × Option DispatchOutcome
  unfolding dispatch_id get
  dispatch_from [] s = (s, none)
  dispatch_from (id ∷ rest) s = dispatch_id id (get id s.in_progress) (record s { pending = rest })

  unfoldable pub dispatch_next : Scheduler → Scheduler × Option DispatchOutcome
  unfolding dispatch_from
  dispatch_next s = dispatch_from s.pending s

  -- One round of the loop of `drain`, with what the later ones give.
  unfoldable pub collect :
      Scheduler × Option DispatchOutcome
      → Scheduler × List DispatchOutcome × Bool
      → Scheduler × List DispatchOutcome × Bool
  collect (s, none) later = (s, [], true)
  collect (s, some o) (last, os, ended) = (last, o ∷ os, ended)

  -- The loop, for so many dispatches; the flag says whether it came to its end.
  unfoldable pub drain_queue : ℕ → Scheduler → Scheduler × List DispatchOutcome × Bool
  unfolding dispatch_next collect
  drain_queue zero s = (s, [], false)
  drain_queue (suc fuel) s =
      let later = drain_queue fuel (dispatch_next s).0 in collect (dispatch_next s) later
