-- ===== src/Pointer/Rounds.antt =====
-- src/pointer_analysis/andersen.rs: how many rounds the loop of `solve` takes at most.
use may_must_rs.Base.{
  List, Option-cases, String, [], arith, inl, inr, length, none, refl, suc, zero, ℕ, ◌*◌, ◌+◌, ◌<◌,
  ◌∷◌, ◌≡◌, ◌≤◌,
}
use may_must_rs.Base.Map.{member}
use may_must_rs.Base.Names.{TextMap}
use may_must_rs.Pointer.Constraint.{AbstractLoc, AliasResult, Constraint}
use may_must_rs.Pointer.Cost.{Evolves-cost, QueueOf-length, cost}
use may_must_rs.Pointer.Derivation.{PointsTo, StoredIn, apply-Evolves}
use may_must_rs.Pointer.Facts.{Points, Stored}
use may_must_rs.Pointer.Fixpoint.{Going, IsIndex, visit-Going}
use may_must_rs.Pointer.Missing.{Entries, all_entries, missing}
use may_must_rs.Pointer.Queue.{QueueOf, pop-QueueOf}
use may_must_rs.Pointer.Solver.{Work, apply, constraint_at, pop, round, solved, visit}

constraint_within : (i : ℕ) (cs : List Constraint) → i < length cs → constraint_at i cs ≡ none → ⊥
unfolding constraint_at
constraint_within i [] l h = omega (arith, l)
constraint_within zero (c ∷ cs) l h = cc
constraint_within (suc i) (c ∷ cs) l h = constraint_within i cs (omega (arith, l)) h

cost_pop :
    (full : AliasResult) (cs : List Constraint) (r : AliasResult) (n : ℕ)
    → cost full cs r (suc n) ≡ suc (cost full cs r n)
unfolding cost
cost_pop full cs r n = omega arith

cost_waiting :
    (full : AliasResult) (cs : List Constraint) (r : AliasResult) (n : ℕ) → n ≤ cost full cs r n
unfolding cost
cost_waiting full cs r n = omega arith

module _ (full : AliasResult) (cs : List Constraint) (index : TextMap (List ℕ))
    (ix : IsIndex cs index) (f : (p : String) (x : AbstractLoc) → PointsTo cs p x → Points full p x)
    (g : (p x : AbstractLoc) → StoredIn cs p x → Stored full p x) where
  pub round_ends :
      (fuel : ℕ) (w : Work) (list : List ℕ)
      → w.worklist ≡ list
      → Going cs w
      → cost full cs w.result (length list) ≤ fuel
      → (r : AliasResult) × (round fuel cs index w list ≡ solved r)
  unfolding round visit member
  round_ends fuel w [] e go l = (w.result, refl)
  round_ends zero w (idx ∷ rest) e go l =
      absurd (omega (arith, l, cost_waiting full cs w.result (suc (length rest))))
  round_ends (suc fuel) w (idx ∷ rest) e go l = elim (Option-cases (constraint_at idx cs)) [
    | inl n ↦ absurd (constraint_within idx cs (go.queue.within idx (rw e (ground arith))) n)
    | inr (c, at) ↦
        let popped = pop idx rest w in
        let next = apply cs index c popped in
        let less =
          Evolves-cost full cs index ix.below popped next f g
            (apply-Evolves cs index idx c popped at go.implied)
            (pop-QueueOf (length cs) idx rest w e go.queue) in
        rw (at, visit)
          (round_ends fuel next next.worklist refl (visit-Going cs index ix idx rest c w e at go)
            (fewer rest w l less))
  ]
    where
      fewer :
          {a : ℕ} (rest : List ℕ) (w : Work)
          → cost full cs w.result (suc (length rest)) ≤ suc fuel
          → a ≤ cost full cs w.result (length rest)
          → a ≤ fuel
      fewer rest w l h = omega (arith, l, h, cost_pop full cs w.result (length rest))

missing-length : (u : Entries) (m : TextMap (List AbstractLoc)) → missing u m ≤ length u
unfolding missing
missing-length [] m = omega arith
missing-length ((p, x) ∷ u) m = ground (arith, missing-length u m)

-- The rounds that are enough where there is a solution: each of its entries can put back all
-- constraints.
unfoldable pub enough_rounds : AliasResult → List Constraint → ℕ
unfolding all_entries
enough_rounds full cs =
    (length (all_entries full.pts) + length (all_entries full.pts_mem)) * suc (length cs)
    + length cs

cost_bound : (a b c d n m : ℕ) → a ≤ c → b ≤ d → m ≤ n → (a + b) * suc n + m ≤ (c + d) * suc n + n
cost_bound a b c d n m h k l = grind arith

pub cost_rounds :
    (full : AliasResult) (cs : List Constraint) (w : Work)
    → QueueOf (length cs) w
    → cost full cs w.result (length w.worklist) ≤ enough_rounds full cs
unfolding cost enough_rounds
cost_rounds full cs w q =
    cost_bound (missing (all_entries full.pts) w.result.pts)
      (missing (all_entries full.pts_mem) w.result.pts_mem) (length (all_entries full.pts))
      (length (all_entries full.pts_mem)) (length cs) (length w.worklist)
      (missing-length (all_entries full.pts) w.result.pts)
      (missing-length (all_entries full.pts_mem) w.result.pts_mem) (QueueOf-length (length cs) w q)
