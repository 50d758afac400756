-- ===== src/Pointer/Fixpoint.antt =====
-- src/pointer_analysis/andersen.rs: the loop of `solve`.
use may_must_rs.Base.{
  ==_iff, Bool-cases, List, Option-cases, String, [], false, inl, inr, length, refl, some, some-eq,
  subst, suc, sym, true, zero, ℕ, ◌==◌, ◌∙◌, ◌∷◌, ◌≡◌, ◌⊎◌,
}
use may_must_rs.Base.Map.{member}
use may_must_rs.Base.Names.{TextMap, entries}
use may_must_rs.Pointer.Closure.{
  Grows-Satisfies, Grows-Seeded, IsIndexed, Satisfies, Seeded, apply-Grows, apply-Satisfies,
}
use may_must_rs.Pointer.Constraint.{AliasResult, Constraint, load_ptr}
use may_must_rs.Pointer.Derivation.{Evolves-IsImplied, IsImplied, apply-Evolves}
use may_must_rs.Pointer.Growth.{LoadsIndexed}
use may_must_rs.Pointer.Queue.{AllBelow, Evolves-QueueOf, QueueOf, pop-QueueOf}
use may_must_rs.Pointer.Solver.{
  Work, apply, constraint_at, panicked, pop, round, running, set_flag, solved, visit,
}

-- Every constraint is satisfied.
abbrev pub IsSolution : List Constraint → AliasResult → Type 0
IsSolution cs r = (i : ℕ) (c : Constraint) → constraint_at i cs ≡ some c → Satisfies r c

-- Between two rounds: a constraint that is not on the worklist is satisfied, and nothing is in the
-- sets that the constraints do not imply.
pub record Going (cs : List Constraint) (w : Work) : Type 0 where
  pub settled :
      (i : ℕ) (c : Constraint)
      → constraint_at i cs ≡ some c
      → w.queued i ≡ false
      → Satisfies w.result c
  pub seeds : (i : ℕ) (c : Constraint) → constraint_at i cs ≡ some c → Seeded w.result c
  pub implied : IsImplied cs w.result
  pub queue : QueueOf (length cs) w

-- The index has each constraint under its sources, and no other index.
pub record IsIndex (cs : List Constraint) (index : TextMap (List ℕ)) : Type 0 where
  pub complete : IsIndexed cs index
  pub below : (p : String) → AllBelow (length cs) (entries p index)

module _ (cs : List Constraint) (index : TextMap (List ℕ)) (ix : IsIndex cs index) where
  loads : LoadsIndexed cs index
  loads i t s e = ix.complete i (load_ptr t s) e

  -- What one application keeps.
  pub visit-Going :
      (idx : ℕ) (rest : List ℕ) (c : Constraint) (w : Work)
      → w.worklist ≡ idx ∷ rest
      → constraint_at idx cs ≡ some c
      → Going cs w
      → Going cs (apply cs index c (pop idx rest w))
  unfolding pop set_flag
  visit-Going idx rest c w e at g =
      let popped = pop idx rest w in
      let grown = apply-Grows cs index loads c popped in
      let evolves = apply-Evolves cs index idx c popped at g.implied in
      record {
        settled = λ i d k f. settle i d k f (Bool-cases (i == idx));
        seeds =
            λ i d k. Grows-Seeded cs index popped (apply cs index c popped) d grown (g.seeds i d k);
        implied = Evolves-IsImplied cs index popped (apply cs index c popped) evolves g.implied;
        queue =
            Evolves-QueueOf cs index ix.below popped (apply cs index c popped) evolves
              (pop-QueueOf (length cs) idx rest w e g.queue);
      }
    where
      settle :
          (i : ℕ) (d : Constraint)
          → constraint_at i cs ≡ some d
          → (apply cs index c (pop idx rest w)).queued i ≡ false
          → ((i == idx) ≡ true) ⊎ ((i == idx) ≡ false)
          → Satisfies (apply cs index c (pop idx rest w)).result d
      settle i d k f (inl y) =
          let same = (==_iff i idx).0 y in
          let equal = some-eq (sym at ∙ subst (λ j. constraint_at j cs ≡ some d) same k) in
          subst (λ z. Satisfies (apply cs index c (pop idx rest w)).result z) equal
            (apply-Satisfies cs index loads idx c (pop idx rest w) at (ix.complete idx c at)
              (subst (λ j. (apply cs index c (pop idx rest w)).queued j ≡ false) same f)
              (g.seeds idx c at))
      settle i d k f (inr n) =
          let grown = apply-Grows cs index loads c (pop idx rest w) in
          Grows-Satisfies cs index (pop idx rest w) (apply cs index c (pop idx rest w)) i d grown k
            (ix.complete i d k) f (g.settled i d k (rw n at (grown.stay i f)))

  pub round_fixpoint :
      (fuel : ℕ) (w : Work) (list : List ℕ) (r : AliasResult)
      → w.worklist ≡ list
      → Going cs w
      → round fuel cs index w list ≡ solved r
      → IsSolution cs r × IsImplied cs r
  unfolding round visit member
  round_fixpoint fuel w [] r e g h =
      subst (λ (q : AliasResult). IsSolution cs q × IsImplied cs q) (solved_eq h)
        ((λ i c k. g.settled i c k (unflagged i)), g.implied)
    where
      solved_eq : {q : AliasResult} → solved q ≡ solved r → q ≡ r
      solved_eq z = cc

      unflagged : (i : ℕ) → w.queued i ≡ false
      unflagged i = elim (Bool-cases (w.queued i)) [
        | inl y ↦ absurd (empty (g.queue.listed i y))
        | inr n ↦ n
      ]
        where
          empty : member i w.worklist ≡ true → ⊥
          empty m = absurd (false_ne (rw e at m))
            where
              false_ne : member i [] ≡ true → ⊥
              false_ne z = cc
  round_fixpoint zero w (idx ∷ rest) r e g h = absurd (running_ne h)
    where
      running_ne : running ≡ solved r → ⊥
      running_ne z = cc
  round_fixpoint (suc fuel) w (idx ∷ rest) r e g h = elim (Option-cases (constraint_at idx cs)) [
    | inl n ↦ absurd (panicked_ne (rw (n, visit) at h))
    | inr (c, at) ↦
        round_fixpoint fuel (apply cs index c (pop idx rest w))
          (apply cs index c (pop idx rest w)).worklist r refl (visit-Going idx rest c w e at g)
          (rw (at, visit) at h)
  ]
    where
      panicked_ne : panicked ≡ solved r → ⊥
      panicked_ne z = cc
