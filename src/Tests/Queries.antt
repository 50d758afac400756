-- ===== src/Tests/Queries.antt =====
-- Runs of the scheduler at concrete inputs.
use may_must_rs.Base.{String, String-discrete, [], arith, none, refl, some, true, ℕ, ◌<◌, ◌∷◌, ◌≡◌}
use may_must_rs.Backward.Pass.{AssertionSite}
use may_must_rs.Base.Map.{get}
use may_must_rs.Formula.Data.{falsum, verum}
use may_must_rs.Interproc.Active.{dispatch_next-active, legacy_tables_for_dispatch-IsPart}
use may_must_rs.Interproc.Dispatch.{WellScheduled}
use may_must_rs.Interproc.Drain.{AreOutcomes, drain_queue_completes}
use may_must_rs.Interproc.Invariant.{
  IsScheduled, IsScheduled-WellScheduled, enqueues, registers, starts,
}
use may_must_rs.Interproc.Scheduler.{
  DispatchOutcome, InProgressQuery, ProcedureContext, Scheduler, completed_run, context_of,
  dispatch_next, drain_queue, enqueue_query, legacy_tables_for_dispatch, register_procedure,
  unprovenanced, with_initial_tables,
}
use may_must_rs.Interproc.Smash.{
  AssertionResult, Engines, analyzed, empty_unknown_result, judged_verified, may_invariant_analysis,
}
use may_must_rs.Summaries.Extend.{IsPart}
use may_must_rs.Summaries.Table.{Query}
use may_must_rs.Tests.Graphs.{branch}
use may_must_rs.Tests.Tables.{f_table, two_clashes}

abbrev one_site : AssertionSite
one_site = record { site_id = 7; site_node = 0; obligation = verum }

abbrev some_result : AssertionResult
some_result = record (empty_unknown_result one_site) { judgement = judged_verified }

-- The backward direction proves everything; no projection succeeds.
abbrev proving : Engines
proving = record {
  analyze = λ c name site tables. analyzed some_result;
  explore = λ c site. none;
  notmay_summary = λ q interface. none;
  must_summary = λ a b interface. none;
}

abbrev f_context : ProcedureContext
f_context = record {
  context_cfg = branch;
  assertions = one_site ∷ [];
  interface = record { procedure = "f"; formals = [] };
}

abbrev query_to : String → Query
query_to name = record { procedure = name; pre = verum; post = falsum }

-- A query to a registered procedure and one to a procedure that is not.
abbrev two_queries : Scheduler
two_queries =
    (enqueue_query (query_to "g") (some one_site)
      (enqueue_query (query_to "f") (some one_site)
        (register_procedure f_context (with_initial_tables f_table))).0).0

two_queries-IsScheduled : IsScheduled proving two_clashes two_queries
two_queries-IsScheduled =
    enqueues (query_to "g") (some one_site)
      (enqueue_query (query_to "f") (some one_site)
        (register_procedure f_context (with_initial_tables f_table))).0
      (enqueues (query_to "f") (some one_site)
        (register_procedure f_context (with_initial_tables f_table))
        (registers f_context (with_initial_tables f_table) (starts f_table)))

drained :
    (drain_queue proving two_clashes 3 two_queries).1
    ≡ completed_run (record { assertion = some_result; engine = may_invariant_analysis })
      ∷ unprovenanced
      ∷ []
unfolding drain_queue enqueue_query register_procedure with_initial_tables String-discrete
drained = refl

IsScheduled-WellScheduled_example : WellScheduled two_queries
IsScheduled-WellScheduled_example =
    IsScheduled-WellScheduled proving two_clashes two_queries two_queries-IsScheduled

drain_queue_completes_example :
    let (last, outcomes, ended) = drain_queue proving two_clashes 3 two_queries in
    (ended ≡ true)
    × (last.pending ≡ [])
    × AreOutcomes two_queries.pending outcomes last.completed
    × ((id : ℕ) → id < 2 → (o : DispatchOutcome) × (get id last.completed ≡ some o))
unfolding enqueue_query register_procedure with_initial_tables
drain_queue_completes_example =
    drain_queue_completes proving two_clashes two_queries 3 two_queries-IsScheduled (omega arith)

-- The query to "g", once the one to "f" is done.
abbrev second_query : Scheduler
second_query = (dispatch_next proving two_clashes two_queries).0

dispatch_next-active_example :
    (context_of "g" second_query.procedures ≡ none
      → ((dispatch_next proving two_clashes second_query).1 ≡ some unprovenanced)
        × ((a : InProgressQuery) × (get 1 (dispatch_next proving two_clashes second_query).0.active
              ≡ some a)))
    × ((ctx : ProcedureContext)
        → context_of "g" second_query.procedures ≡ some ctx
        → get 1 (dispatch_next proving two_clashes second_query).0.active ≡ none)
unfolding dispatch_next String-discrete with_initial_tables register_procedure enqueue_query
dispatch_next-active_example =
    dispatch_next-active proving two_clashes second_query 1 []
      (record { query_id = 1; query = query_to "g"; provenance = some one_site }) refl refl

legacy_tables_for_dispatch-IsPart_example :
    IsPart f_table (legacy_tables_for_dispatch second_query)
    × IsPart second_query.table (legacy_tables_for_dispatch second_query)
unfolding dispatch_next String-discrete with_initial_tables register_procedure enqueue_query
legacy_tables_for_dispatch-IsPart_example = legacy_tables_for_dispatch-IsPart second_query
