-- ===== src/Interproc/Invariant.antt =====
-- src/analysis/interproc/scheduler.rs: what the operations of the scheduler keep.
use may_must_rs.Base.{
  ==_iff, Bool-cases, List, Option, Option-cases, [], arith, false, if◌then◌else◌, inl, inr, none,
  refl, some, subst, suc, sym, true, ℕ, ◌<◌, ◌==◌, ◌∷◌, ◌≡◌, ◌⊎◌,
}
use may_must_rs.Backward.Pass.{AssertionSite}
use may_must_rs.Base.Distinct.{Distinct-append_one, member-append_one}
use may_must_rs.Base.Map.{get, get-insert, insert, member}
use may_must_rs.Interproc.Dispatch.{
  IsDispatched-WellScheduled, WellScheduled, dispatch_next-Dispatches,
}
use may_must_rs.Interproc.Scheduler.{
  DispatchOutcome, PendingEntry, ProcedureContext, Scheduler, dispatch_from, dispatch_next,
  enqueue_query, register_procedure, with_initial_tables,
}
use may_must_rs.Interproc.Smash.{Engines}
use may_must_rs.Smt.Oracle.{Solver}
use may_must_rs.Summaries.Table.{ContextualSummaryTable, Query}

start-WellScheduled : (tables : ContextualSummaryTable) → WellScheduled (with_initial_tables tables)
unfolding with_initial_tables member get
start-WellScheduled tables = record {
  distinct = tt;
  waiting = λ id h. absurd (false_ne h);
  unfinished = λ id h. refl;
  given = λ id h. absurd (false_ne h);
  finished = λ id l h. absurd (omega (arith, l));
  numbered = λ id o h. absurd (none_ne h);
}
  where
    false_ne : false ≡ true → ⊥
    false_ne z = cc

    none_ne : {o : DispatchOutcome} → none ≡ some o → ⊥
    none_ne z = cc

register_procedure-WellScheduled :
    (c : ProcedureContext) (s : Scheduler)
    → WellScheduled s
    → WellScheduled (register_procedure c s)
unfolding register_procedure
register_procedure-WellScheduled c s w = record {
  distinct = w.distinct;
  waiting = w.waiting;
  unfinished = w.unfinished;
  given = w.given;
  finished = w.finished;
  numbered = w.numbered;
}

enqueue_query-WellScheduled :
    (q : Query) (site : Option AssertionSite) (s : Scheduler)
    → WellScheduled s
    → WellScheduled (enqueue_query q site s).0
unfolding enqueue_query
enqueue_query-WellScheduled q site s w = record {
  distinct =
      Distinct-append_one s.next_id s.pending (absent (Bool-cases (member s.next_id s.pending)))
        w.distinct;
  waiting = λ id h.
      waits id (rw (member-append_one id s.next_id s.pending) at h) (Bool-cases (s.next_id == id));
  unfinished = λ id h.
      opens id (rw (member-append_one id s.next_id s.pending) at h) (Bool-cases (id == s.next_id));
  given = λ id h. ground (arith, w.given id, member-append_one id s.next_id s.pending);
  finished = λ id l h.
      ends id l (rw (member-append_one id s.next_id s.pending) at h) (Bool-cases (id == s.next_id));
  numbered = λ id o h. omega (arith, w.numbered id o h);
}
  where
    entry : PendingEntry
    entry = record { query_id = s.next_id; query = q; provenance = site }

    absent :
        (member s.next_id s.pending ≡ true) ⊎ (member s.next_id s.pending ≡ false)
        → member s.next_id s.pending ≡ false
    absent (inl y) = absurd (omega (arith, w.given s.next_id y))
    absent (inr n) = n

    waits :
        (id : ℕ)
        → (if id == s.next_id then true else member id s.pending) ≡ true
        → ((s.next_id == id) ≡ true) ⊎ ((s.next_id == id) ≡ false)
        → (e : PendingEntry) × (get id (insert s.next_id entry s.in_progress) ≡ some e)
          × (e.query_id ≡ id)
    waits id h (inl y) =
        (entry, rw (get-insert s.next_id id entry s.in_progress, y) refl, (==_iff s.next_id id).0 y)
    waits id h (inr n) =
        let (e, there, same) = w.waiting id (ground arith) in
        (e, rw (get-insert s.next_id id entry s.in_progress, n) there, same)

    opens :
        (id : ℕ)
        → (if id == s.next_id then true else member id s.pending) ≡ true
        → ((id == s.next_id) ≡ true) ⊎ ((id == s.next_id) ≡ false)
        → get id s.completed ≡ none
    opens id h (inl y) = elim (Option-cases (get id s.completed)) [
      | inl n ↦ n
      | inr (o, there) ↦ absurd (omega (arith, w.numbered id o there, (==_iff id s.next_id).0 y))
    ]
    opens id h (inr n) = w.unfinished id (rw n at h)

    ends :
        (id : ℕ)
        → id < suc s.next_id
        → (if id == s.next_id then true else member id s.pending) ≡ false
        → ((id == s.next_id) ≡ true) ⊎ ((id == s.next_id) ≡ false)
        → (o : DispatchOutcome) × (get id s.completed ≡ some o)
    ends id l h (inl y) = absurd (true_ne (rw y at h))
      where
        true_ne : true ≡ false → ⊥
        true_ne z = cc
    ends id l h (inr n) = w.finished id (ground (arith, l)) (rw n at h)

-- The schedulers that calls of the operations reach.
pub data IsScheduled (engines : Engines) (z : Solver) : Scheduler → Type 0 where
  starts : (tables : ContextualSummaryTable) → IsScheduled engines z (with_initial_tables tables)
  registers :
      (c : ProcedureContext) (s : Scheduler)
      → IsScheduled engines z s
      → IsScheduled engines z (register_procedure c s)
  enqueues :
      (q : Query) (site : Option AssertionSite) (s : Scheduler)
      → IsScheduled engines z s
      → IsScheduled engines z (enqueue_query q site s).0
  dispatches :
      (s : Scheduler)
      → IsScheduled engines z s
      → IsScheduled engines z (dispatch_next engines z s).0

List-cases : (xs : List ℕ) → (xs ≡ []) ⊎ ((x : ℕ) × (rest : List ℕ) × (xs ≡ x ∷ rest))
List-cases [] = inl refl
List-cases (x ∷ rest) = inr (x, rest, refl)

module _ (engines : Engines) (z : Solver) where
  -- With nothing on the queue a dispatch changes nothing.
  pub dispatch_next-empty : (s : Scheduler) → s.pending ≡ [] → dispatch_next engines z s ≡ (s, none)
  unfolding dispatch_next dispatch_from
  dispatch_next-empty s e =
      subst (λ (l : List ℕ). dispatch_from engines z l s ≡ (s, none)) (sym e) refl

  dispatch_next-WellScheduled :
      (s : Scheduler) → WellScheduled s → WellScheduled (dispatch_next engines z s).0
  dispatch_next-WellScheduled s w = elim (List-cases s.pending) [
    | inl e ↦
        subst (λ (r : Scheduler × Option DispatchOutcome). WellScheduled r.0)
          (sym (dispatch_next-empty s e)) w
    | inr (id, rest, e) ↦
        let (o, _, d) = dispatch_next-Dispatches engines z id rest s w e in
        IsDispatched-WellScheduled id rest s (dispatch_next engines z s).0 o w e d
  ]

  -- In every scheduler that its operations reach, each id that was given is on the queue, once and
  -- with its own entry, or has an outcome, and not both.
  pub IsScheduled-WellScheduled : (s : Scheduler) → IsScheduled engines z s → WellScheduled s
  IsScheduled-WellScheduled _ (starts tables) = start-WellScheduled tables
  IsScheduled-WellScheduled _ (registers c s r) =
      register_procedure-WellScheduled c s (IsScheduled-WellScheduled s r)
  IsScheduled-WellScheduled _ (enqueues q site s r) =
      enqueue_query-WellScheduled q site s (IsScheduled-WellScheduled s r)
  IsScheduled-WellScheduled _ (dispatches s r) =
      dispatch_next-WellScheduled s (IsScheduled-WellScheduled s r)
