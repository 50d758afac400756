-- ===== src/Interproc/Dispatch.antt =====
-- src/analysis/interproc/scheduler.rs: no query is lost between the queue and the outcomes.
use may_must_rs.Base.{
  ==_iff, Bool-cases, List, Option, arith, false, if◌then◌else◌, inl, inr, none, refl, some, subst,
  sym, true, ℕ, ◌<◌, ◌==◌, ◌∙◌, ◌∷◌, ◌≡◌, ◌⊎◌,
}
use may_must_rs.Backward.Pass.{AssertionSite}
use may_must_rs.Base.Distinct.{Distinct}
use may_must_rs.Base.Map.{get, get-insert, get-remove, insert, member, remove}
use may_must_rs.Interproc.Scheduler.{
  DispatchOutcome, PendingEntry, ProcedureContext, Scheduler, context_of, create_and_merge_summary,
  dispatch_entry, dispatch_from, dispatch_id, dispatch_in, dispatch_next, finish, mark_active,
}
use may_must_rs.Interproc.Smash.{Engines}
use may_must_rs.Smt.Oracle.{Solver}

-- Every id that was given is on the queue, with its entry, or has an outcome, and not both.
pub record WellScheduled (s : Scheduler) : Type 0 where
  pub distinct : Distinct s.pending
  pub waiting :
      (id : ℕ)
      → member id s.pending ≡ true
      → (e : PendingEntry) × (get id s.in_progress ≡ some e) × (e.query_id ≡ id)
  pub unfinished : (id : ℕ) → member id s.pending ≡ true → get id s.completed ≡ none
  pub given : (id : ℕ) → member id s.pending ≡ true → id < s.next_id
  pub finished :
      (id : ℕ)
      → id < s.next_id
      → member id s.pending ≡ false
      → (o : DispatchOutcome) × (get id s.completed ≡ some o)
  pub numbered : (id : ℕ) (o : DispatchOutcome) → get id s.completed ≡ some o → id < s.next_id

-- What a dispatch of the id changes.
pub record IsDispatched (id : ℕ) (s v : Scheduler) (o : DispatchOutcome) : Type 0 where
  pub same_pending : v.pending ≡ s.pending
  pub same_next_id : v.next_id ≡ s.next_id
  pub entry_removed : v.in_progress ≡ remove id s.in_progress
  pub outcome_stored : v.completed ≡ insert id o s.completed

module _ (engines : Engines) (z : Solver) where
  dispatch_in-IsDispatched :
      (id : ℕ) (e : PendingEntry) (ctx : ProcedureContext) (site : Option AssertionSite)
      (s : Scheduler)
      → let started =
          mark_active engines z id e (record s { in_progress = remove id s.in_progress }) in
        IsDispatched id s
          (dispatch_in engines z id e ctx site started).0
          (dispatch_in engines z id e ctx site started).1
  unfolding dispatch_in create_and_merge_summary finish mark_active
  dispatch_in-IsDispatched id e ctx none s = record {
    same_pending = refl;
    same_next_id = refl;
    entry_removed = refl;
    outcome_stored = refl;
  }
  dispatch_in-IsDispatched id e ctx (some site) s = record {
    same_pending = refl;
    same_next_id = refl;
    entry_removed = refl;
    outcome_stored = refl;
  }

  dispatch_entry-IsDispatched :
      (id : ℕ) (e : PendingEntry) (ctx : Option ProcedureContext) (s : Scheduler)
      → let started =
          mark_active engines z id e (record s { in_progress = remove id s.in_progress }) in
        IsDispatched id s
          (dispatch_entry engines z id e ctx started).0
          (dispatch_entry engines z id e ctx started).1
  unfolding dispatch_entry mark_active
  dispatch_entry-IsDispatched id e none s = record {
    same_pending = refl;
    same_next_id = refl;
    entry_removed = refl;
    outcome_stored = refl;
  }
  dispatch_entry-IsDispatched id e (some ctx) s = dispatch_in-IsDispatched id e ctx e.provenance s

  -- What a dispatch gives for the id, and which outcome.
  abbrev pub Dispatches : ℕ → Scheduler → Scheduler × Option DispatchOutcome → Type 0
  Dispatches id s r = (o : DispatchOutcome) × (r.1 ≡ some o) × IsDispatched id s r.0 o

  dispatch_id-Dispatches :
      (id : ℕ) (e : PendingEntry) (s : Scheduler)
      → Dispatches id s (dispatch_id engines z id (some e) s)
  unfolding dispatch_id
  dispatch_id-Dispatches id e s =
      let started =
        mark_active engines z id e (record s { in_progress = remove id s.in_progress }) in
      let ctx = context_of e.query.procedure s.procedures in
      ((dispatch_entry engines z id e ctx started).1, refl, dispatch_entry-IsDispatched id e ctx s)

  -- The first id of the queue is dispatched.
  pub dispatch_next-Dispatches :
      (id : ℕ) (rest : List ℕ) (s : Scheduler)
      → WellScheduled s
      → s.pending ≡ id ∷ rest
      → Dispatches id (record s { pending = rest }) (dispatch_next engines z s)
  unfolding dispatch_next dispatch_from member
  dispatch_next-Dispatches id rest s w e =
      let (entry, there, same) = w.waiting id (rw e (ground arith)) in
      let popped = record s { pending = rest } in
      subst (λ (l : List ℕ). Dispatches id popped (dispatch_from engines z l s)) (sym e)
        (subst
          (λ (o : Option PendingEntry). Dispatches id popped (dispatch_id engines z id o popped))
          (sym there) (dispatch_id-Dispatches id entry popped))

-- A dispatch keeps the invariant.
pub IsDispatched-WellScheduled :
    (id : ℕ) (rest : List ℕ) (s v : Scheduler) (o : DispatchOutcome)
    → WellScheduled s
    → s.pending ≡ id ∷ rest
    → IsDispatched id (record s { pending = rest }) v o
    → WellScheduled v
unfolding member
IsDispatched-WellScheduled id rest s v o w e d = record {
  distinct = rw d.same_pending apart.1;
  waiting = λ j h.
      let m = rw d.same_pending at h in
      let (x, there, same) = w.waiting j (before j m) in
      (x, rw (d.entry_removed, get-remove id j s.in_progress, other j m) there, same);
  unfinished = λ j h.
      let m = rw d.same_pending at h in
      rw (d.outcome_stored, get-insert id j o s.completed, other j m) (w.unfinished j (before j m));
  given = λ j h. rw d.same_next_id (w.given j (before j (rw d.same_pending at h)));
  finished =
      λ j l h. ended j (rw d.same_next_id at l) (rw d.same_pending at h) (Bool-cases (id == j));
  numbered = λ j q h.
      below j q (rw (d.outcome_stored, get-insert id j o s.completed) at h) (Bool-cases (id == j));
}
  where
    apart : Distinct (id ∷ rest)
    apart = rw e at w.distinct

    before : (j : ℕ) → member j rest ≡ true → member j s.pending ≡ true
    before j m = rw e (ground arith)

    other : (j : ℕ) → member j rest ≡ true → (id == j) ≡ false
    other j m = elim (Bool-cases (id == j)) [
      | inl y ↦
          absurd (
            true_ne (sym (subst (λ k. member k rest ≡ true) (sym ((==_iff id j).0 y)) m) ∙ apart.0))
      | inr n ↦ n
    ]
      where
        true_ne : true ≡ false → ⊥
        true_ne q = cc

    ended :
        (j : ℕ)
        → j < s.next_id
        → member j rest ≡ false
        → ((id == j) ≡ true) ⊎ ((id == j) ≡ false)
        → (q : DispatchOutcome) × (get j v.completed ≡ some q)
    ended j l m (inl y) = (o, rw (d.outcome_stored, get-insert id j o s.completed, y) refl)
    ended j l m (inr n) =
        let (q, there) = w.finished j l (rw e (rw n m)) in
        (q, rw (d.outcome_stored, get-insert id j o s.completed, n) there)

    below :
        (j : ℕ) (q : DispatchOutcome)
        → (if id == j then some o else get j s.completed) ≡ some q
        → ((id == j) ≡ true) ⊎ ((id == j) ≡ false)
        → j < v.next_id
    below j q h (inl y) =
        rw (d.same_next_id, sym ((==_iff id j).0 y)) (w.given id (rw e (ground arith)))
    below j q h (inr n) = rw d.same_next_id (w.numbered j q (rw n at h))
