-- ===== src/Interproc/Active.antt =====
-- src/analysis/interproc/scheduler.rs: the entries of `active`, and the tables of a dispatch.
use may_must_rs.Base.{==_iff, List, Option, [], ap, none, refl, some, subst, sym, ℕ, ◌∙◌, ◌∷◌, ◌≡◌}
use may_must_rs.Backward.Pass.{AssertionSite}
use may_must_rs.Base.Map.{get, get-insert, get-remove, remove}
use may_must_rs.Formula.Occurs.{left}
use may_must_rs.Interproc.Scheduler.{
  DispatchOutcome, InProgressQuery, PendingEntry, ProcedureContext, Scheduler, context_of,
  create_and_merge_summary, dispatch_entry, dispatch_from, dispatch_id, dispatch_in, dispatch_next,
  finish, legacy_tables_for_dispatch, mark_active, notmay_optimistic, unprovenanced,
}
use may_must_rs.Interproc.Smash.{Engines}
use may_must_rs.Smt.Oracle.{Solver}
use may_must_rs.Summaries.Extend.{IsPart, extend_from-IsPart}

module _ (engines : Engines) (z : Solver) where
  -- Whether the entry of the id stays behind.
  abbrev ActiveAfter : ℕ → Option ProcedureContext → Scheduler × DispatchOutcome → Type 0
  ActiveAfter id none r =
      (r.1 ≡ unprovenanced) × ((a : InProgressQuery) × (get id r.0.active ≡ some a))
  ActiveAfter id (some ctx) r = get id r.0.active ≡ none

  dispatch_in-active :
      (id : ℕ) (e : PendingEntry) (ctx : ProcedureContext) (site : Option AssertionSite)
      (s : Scheduler)
      → get id (dispatch_in engines z id e ctx site s).0.active ≡ none
  unfolding dispatch_in create_and_merge_summary finish
  dispatch_in-active id e ctx none s = get-remove id id s.active ∙ rw ((==_iff id id).1 refl) refl
  dispatch_in-active id e ctx (some site) s =
      get-remove id id s.active ∙ rw ((==_iff id id).1 refl) refl

  dispatch_entry-ActiveAfter :
      (id : ℕ) (e : PendingEntry) (ctx : Option ProcedureContext) (s : Scheduler)
      → ActiveAfter id ctx (dispatch_entry engines z id e ctx (mark_active engines z id e s))
  unfolding dispatch_entry mark_active
  dispatch_entry-ActiveAfter id e none s =
      let entry : InProgressQuery = record {
        active_id = id;
        active_query = e.query;
        dependents = [];
        placeholder = notmay_optimistic;
      } in
      (refl, (entry, get-insert id id entry s.active ∙ rw ((==_iff id id).1 refl) refl))
  dispatch_entry-ActiveAfter id e (some ctx) s =
      dispatch_in-active id e ctx e.provenance (mark_active engines z id e s)

  dispatch_id-active :
      (id : ℕ) (e : PendingEntry) (s : Scheduler) (ctx : Option ProcedureContext)
      → context_of e.query.procedure s.procedures ≡ ctx
      → (o : DispatchOutcome) × ((dispatch_id engines z id (some e) s).1 ≡ some o)
        × ActiveAfter id ctx ((dispatch_id engines z id (some e) s).0, o)
  unfolding dispatch_id
  dispatch_id-active id e s ctx c =
      let unlisted = record s { in_progress = remove id s.in_progress } in
      let r =
        dispatch_entry engines z id e (context_of e.query.procedure s.procedures)
          (mark_active engines z id e unlisted) in
      (
        r.1,
        refl,
        subst (λ (x : Option ProcedureContext). ActiveAfter id x (r.0, r.1)) c
            (dispatch_entry-ActiveAfter id e (context_of e.query.procedure s.procedures) unlisted),
      )

  -- When the first id of the queue is dispatched, its entry in `active` is gone afterwards if the
  -- procedure of its query is registered; if it is not, the outcome is Unprovenanced and the entry
  -- stays.
  pub dispatch_next-active :
      (s : Scheduler) (id : ℕ) (rest : List ℕ) (e : PendingEntry)
      → s.pending ≡ id ∷ rest
      → get id s.in_progress ≡ some e
      → (context_of e.query.procedure s.procedures ≡ none
          → ((dispatch_next engines z s).1 ≡ some unprovenanced)
            × ((a : InProgressQuery) × (get id (dispatch_next engines z s).0.active ≡ some a)))
        × ((ctx : ProcedureContext)
            → context_of e.query.procedure s.procedures ≡ some ctx
            → get id (dispatch_next engines z s).0.active ≡ none)
  unfolding dispatch_next dispatch_from
  dispatch_next-active s id rest e p g =
      let popped = record s { pending = rest } in
      subst (λ (l : List ℕ). Both (dispatch_from engines z l s)) (sym p)
        (subst (λ (x : Option PendingEntry). Both (dispatch_id engines z id x popped)) (sym g)
          (
            (λ c.
                let (o, is, (same, left)) = dispatch_id-active id e popped none c in
                (is ∙ ap (λ x. some x) same, left)),
            (λ ctx c. (dispatch_id-active id e popped (some ctx) c).2),
          ))
    where
      Both : Scheduler × Option DispatchOutcome → Type 0
      Both r =
          (context_of e.query.procedure s.procedures ≡ none
            → (r.1 ≡ some unprovenanced) × ((a : InProgressQuery) × (get id r.0.active ≡ some a)))
          × ((ctx : ProcedureContext)
              → context_of e.query.procedure s.procedures ≡ some ctx
              → get id r.0.active ≡ none)

-- The tables that a dispatch works with have every not-may, must and may summary of the initial
-- tables and every one that the scheduler's own table has at the time.
pub legacy_tables_for_dispatch-IsPart :
    (s : Scheduler)
    → IsPart s.initial_tables (legacy_tables_for_dispatch s)
      × IsPart s.table (legacy_tables_for_dispatch s)
unfolding legacy_tables_for_dispatch
legacy_tables_for_dispatch-IsPart s = extend_from-IsPart s.initial_tables s.table
