-- ===== src/Interproc/Drain.antt =====
-- src/analysis/interproc/scheduler.rs: `drain` empties the queue.
use may_must_rs.Base.{
  ==_iff, Bool, Bool-cases, List, Option, [], arith, false, if◌then◌else◌, inl, inr, length, none,
  refl, some, subst, suc, sym, true, zero, ℕ, ◌<◌, ◌==◌, ◌∙◌, ◌∷◌, ◌≡◌, ◌⊎◌,
}
use may_must_rs.Base.Map.{Map, get, get-insert, member}
use may_must_rs.Interproc.Dispatch.{
  IsDispatched, IsDispatched-WellScheduled, WellScheduled, dispatch_next-Dispatches,
}
use may_must_rs.Interproc.Invariant.{IsScheduled, IsScheduled-WellScheduled, dispatch_next-empty}
use may_must_rs.Interproc.Scheduler.{
  DispatchOutcome, Scheduler, collect, dispatch_next, drain_queue,
}
use may_must_rs.Interproc.Smash.{Engines}
use may_must_rs.Smt.Oracle.{Solver}

-- The outcomes are those of the ids, in their order.
abbrev pub AreOutcomes : List ℕ → List DispatchOutcome → Map DispatchOutcome → Type 0
AreOutcomes [] [] m = Unit
AreOutcomes (id ∷ ids) (o ∷ os) m = (get id m ≡ some o) × AreOutcomes ids os m
AreOutcomes [] (o ∷ os) m = ⊥
AreOutcomes (id ∷ ids) [] m = ⊥

-- What `drain` achieves on a queue, from the scheduler and its result.
pub record IsDrained (ids : List ℕ) (s : Scheduler) (r : Scheduler × List DispatchOutcome × Bool)
    : Type 0 where
  pub at_end : r.2 ≡ true
  pub nothing_left : r.0.pending ≡ []
  pub in_order : AreOutcomes ids r.1 r.0.completed
  pub kept :
      (id : ℕ) (o : DispatchOutcome) → get id s.completed ≡ some o → get id r.0.completed ≡ some o
  pub no_new_ids : r.0.next_id ≡ s.next_id
  pub well : WellScheduled r.0

collect-some :
    (engines : Engines) (z : Solver) (v : Scheduler) (a : Option DispatchOutcome)
    (o : DispatchOutcome) (last : Scheduler) (os : List DispatchOutcome) (ended : Bool)
    → a ≡ some o
    → collect engines z (v, a) (last, os, ended) ≡ (last, o ∷ os, ended)
unfolding collect
collect-some engines z v a o last os ended e = rw (e, collect) refl

-- What one dispatch and the later ones achieve together.
IsDrained-step :
    (id : ℕ) (rest : List ℕ) (s v : Scheduler) (o : DispatchOutcome)
    (r : Scheduler × List DispatchOutcome × Bool)
    → WellScheduled s
    → s.pending ≡ id ∷ rest
    → IsDispatched id (record s { pending = rest }) v o
    → IsDrained rest v r
    → IsDrained (id ∷ rest) s (r.0, o ∷ r.1, r.2)
unfolding member
IsDrained-step id rest s v o r w e d later = record {
  at_end = later.at_end;
  nothing_left = later.nothing_left;
  in_order = (
    later.kept id o
        (rw (d.outcome_stored, get-insert id id o s.completed, (==_iff id id).1 refl) refl),
    later.in_order,
  );
  kept = λ j q h.
      later.kept j q
        (rw (d.outcome_stored, get-insert id j o s.completed) (old j q h (Bool-cases (id == j))));
  no_new_ids = later.no_new_ids ∙ d.same_next_id;
  well = later.well;
}
  where
    old :
        (j : ℕ) (q : DispatchOutcome)
        → get j s.completed ≡ some q
        → ((id == j) ≡ true) ⊎ ((id == j) ≡ false)
        → (if id == j then some o else get j s.completed) ≡ some q
    old j q h (inr n) = rw n h
    old j q h (inl y) = absurd (
        none_ne (
          sym (w.unfinished id (rw e (ground arith)))
          ∙ subst (λ k. get k s.completed ≡ some q) (sym ((==_iff id j).0 y)) h))
      where
        none_ne : none ≡ some q → ⊥
        none_ne x = cc

module _ (engines : Engines) (z : Solver) where
  drain_queue-IsDrained :
      (fuel : ℕ) (ids : List ℕ) (s : Scheduler)
      → WellScheduled s
      → s.pending ≡ ids
      → length ids < fuel
      → IsDrained ids s (drain_queue engines z fuel s)
  unfolding drain_queue collect
  drain_queue-IsDrained zero ids s w e l = absurd (omega (arith, l))
  drain_queue-IsDrained (suc fuel) [] s w e l =
      subst
        (λ (r : Scheduler × Option DispatchOutcome).
          IsDrained [] s (collect engines z r (drain_queue engines z fuel r.0)))
        (sym (dispatch_next-empty engines z s e))
        (record {
          at_end = refl;
          nothing_left = e;
          in_order = tt;
          kept = λ id o h. h;
          no_new_ids = refl;
          well = w;
        })
  drain_queue-IsDrained (suc fuel) (id ∷ rest) s w e l =
      let (o, answer_is, d) = dispatch_next-Dispatches engines z id rest s w e in
      let v = (dispatch_next engines z s).0 in
      let later =
        drain_queue-IsDrained fuel rest v (IsDispatched-WellScheduled id rest s v o w e d)
          d.same_pending (omega (arith, l)) in
      let r = drain_queue engines z fuel v in
      subst (λ (q : Scheduler × List DispatchOutcome × Bool). IsDrained (id ∷ rest) s q)
        (sym (collect-some engines z v (dispatch_next engines z s).1 o r.0 r.1 r.2 answer_is))
        (IsDrained-step id rest s v o r w e d later)

  -- From every scheduler that its operations reach, draining with more rounds than queries on the
  -- queue comes to its end: the queue is empty, the outcomes are those of the queued ids in their
  -- order, and every id that was given has an outcome.
  pub drain_queue_completes :
      (s : Scheduler) (fuel : ℕ)
      → IsScheduled engines z s
      → length s.pending < fuel
      → let (last, outcomes, ended) = drain_queue engines z fuel s in
        (ended ≡ true)
        × (last.pending ≡ [])
        × AreOutcomes s.pending outcomes last.completed
        × ((id : ℕ) → id < s.next_id → (o : DispatchOutcome) × (get id last.completed ≡ some o))
  unfolding member
  drain_queue_completes s fuel r l =
      let d =
        drain_queue-IsDrained fuel s.pending s (IsScheduled-WellScheduled engines z s r) refl l in
      (
        d.at_end,
        d.nothing_left,
        d.in_order,
        (λ id h. d.well.finished id (rw d.no_new_ids h) (rw d.nothing_left refl)),
      )
