-- ===== src/Pointer/Cost.antt =====
-- src/pointer_analysis/andersen.rs: a measure of the work that is left for the loop of `solve`.
use may_must_rs.Base.{
  Bool, Bool-cases, List, String, [], ap, arith, bool_not, false, inl, inr, length, refl, suc, true,
  zero, ℕ, ◌*◌, ◌+◌, ◌<◌, ◌∷◌, ◌≡◌, ◌≤◌, ◌⊎◌,
}
use may_must_rs.Base.Distinct.{Distinct-length}
use may_must_rs.Base.Map.{member}
use may_must_rs.Base.Names.{TextMap, entries}
use may_must_rs.Pointer.Constraint.{
  AbstractLoc, AliasResult, Constraint, has_loc, insert_pts, insert_pts_mem, points_to, stored_into,
}
use may_must_rs.Pointer.Derivation.{Evolves, PointsTo, StoredIn, more_mem, more_pts, unchanged}
use may_must_rs.Pointer.Facts.{InSet-add_entry_new, InSet-add_entry_old, Points, Stored, add_entry}
use may_must_rs.Pointer.Growth.{result-grow_pts}
use may_must_rs.Pointer.MemoryGrowth.{result-grow_mem}
use may_must_rs.Pointer.Missing.{IsWithin, all_entries, missing, missing_le, missing_lt}
use may_must_rs.Pointer.Queue.{AllBelow, QueueOf, grow_mem-QueueOf, grow_pts-QueueOf}
use may_must_rs.Pointer.Solver.{Work, enqueue_if, grow_mem, grow_pts, requeue_if}

-- The numbers below n.
pub upto : ℕ → List ℕ
upto zero = []
upto (suc n) = n ∷ upto n

pub member-upto : (n i : ℕ) → i < n → member i (upto n) ≡ true
unfolding upto member
member-upto zero i l = absurd (omega (arith, l))
member-upto (suc n) i l = ground (arith, member-upto n i)

pub length-upto : (n : ℕ) → length (upto n) ≡ n
unfolding upto
length-upto zero = refl
length-upto (suc n) = ap (λ k. suc k) (length-upto n)

pub QueueOf-length : (n : ℕ) (w : Work) → QueueOf n w → length w.worklist ≤ n
QueueOf-length n w q = omega (
  arith,
  length-upto n,
  Distinct-length w.worklist (upto n) q.distinct (λ i h. member-upto n i (q.within i h)),
)

-- What is missing counts for all constraints, a constraint on the worklist once.
unfoldable pub cost : AliasResult → List Constraint → AliasResult → ℕ → ℕ
unfolding missing all_entries
cost full cs r waiting =
    (missing (all_entries full.pts) r.pts + missing (all_entries full.pts_mem) r.pts_mem)
      * suc (length cs)
    + waiting

pub cost_less : (m k n a b : ℕ) → m < k → a ≤ n → m * suc n + a ≤ k * suc n + b
cost_less m k n a b l h = grind arith

pub cost_same : (m k n a : ℕ) → m ≤ k → m * suc n + a ≤ k * suc n + a
cost_same m k n a l = grind arith

worklist-enqueue_if :
    (b : Bool) (is : List ℕ) (w : Work) → b ≡ false → (enqueue_if b is w).worklist ≡ w.worklist
unfolding enqueue_if
worklist-enqueue_if true is w h = absurd (true_ne h)
  where
    true_ne : true ≡ false → ⊥
    true_ne z = cc
worklist-enqueue_if false is w h = refl

worklist-requeue_if :
    (b : Bool) (place : AbstractLoc) (cs : List Constraint) (w : Work)
    → b ≡ false
    → (requeue_if b place cs w).worklist ≡ w.worklist
unfolding requeue_if
worklist-requeue_if true place cs w h = absurd (true_ne h)
  where
    true_ne : true ≡ false → ⊥
    true_ne z = cc
worklist-requeue_if false place cs w h = refl

module _ (full : AliasResult) (cs : List Constraint) (index : TextMap (List ℕ))
    (below : (p : String) → AllBelow (length cs) (entries p index)) where
  cost-grow_pts :
      (t : String) (x : AbstractLoc) (w : Work)
      → Points full t x
      → QueueOf (length cs) w
      → cost full cs (grow_pts index t x w).result (length (grow_pts index t x w).worklist)
        ≤ cost full cs w.result (length w.worklist)
  unfolding cost grow_pts insert_pts points_to
  cost-grow_pts t x w p q =
      rw (result-grow_pts index t x w) (by_set (Bool-cases (has_loc x (entries t w.result.pts))))
    where
      kept : IsWithin w.result.pts (add_entry t x w.result.pts)
      kept p y h = InSet-add_entry_old t p x y w.result.pts h

      rest : ℕ
      rest = missing (all_entries full.pts_mem) w.result.pts_mem

      by_set :
          (has_loc x (entries t w.result.pts) ≡ true) ⊎ (has_loc x (entries t w.result.pts) ≡ false)
          → (missing (all_entries full.pts) (add_entry t x w.result.pts) + rest) * suc (length cs)
              + length (grow_pts index t x w).worklist
            ≤ (missing (all_entries full.pts) w.result.pts + rest) * suc (length cs)
              + length w.worklist
      by_set (inl y) =
          rw
            (worklist-enqueue_if (bool_not (has_loc x (entries t w.result.pts))) (entries t index)
              (record w { result = record w.result { pts = add_entry t x w.result.pts } })
              (ap (λ b. bool_not b) y))
            (cost_same (missing (all_entries full.pts) (add_entry t x w.result.pts) + rest)
              (missing (all_entries full.pts) w.result.pts + rest) (length cs) (length w.worklist)
              (omega (
                arith,
                missing_le (all_entries full.pts) w.result.pts (add_entry t x w.result.pts) kept,
              )))
      by_set (inr n) =
          cost_less (missing (all_entries full.pts) (add_entry t x w.result.pts) + rest)
            (missing (all_entries full.pts) w.result.pts + rest) (length cs)
            (length (grow_pts index t x w).worklist) (length w.worklist)
            (omega (
              arith,
              missing_lt t x w.result.pts (add_entry t x w.result.pts) full.pts kept p n
                  (InSet-add_entry_new t x w.result.pts),
            ))
            (QueueOf-length (length cs) (grow_pts index t x w)
              (grow_pts-QueueOf cs index below t x w q))

  cost-grow_mem :
      (slot x : AbstractLoc) (w : Work)
      → Stored full slot x
      → QueueOf (length cs) w
      → cost full cs (grow_mem cs slot x w).result (length (grow_mem cs slot x w).worklist)
        ≤ cost full cs w.result (length w.worklist)
  unfolding cost grow_mem insert_pts_mem stored_into
  cost-grow_mem slot x w p q =
      rw (result-grow_mem cs slot x w)
        (by_set (Bool-cases (has_loc x (entries slot w.result.pts_mem))))
    where
      kept : IsWithin w.result.pts_mem (add_entry slot x w.result.pts_mem)
      kept p y h = InSet-add_entry_old slot p x y w.result.pts_mem h

      rest : ℕ
      rest = missing (all_entries full.pts) w.result.pts

      by_set :
          (has_loc x (entries slot w.result.pts_mem) ≡ true)
            ⊎ (has_loc x (entries slot w.result.pts_mem) ≡ false)
          → (rest + missing (all_entries full.pts_mem) (add_entry slot x w.result.pts_mem))
                * suc (length cs)
              + length (grow_mem cs slot x w).worklist
            ≤ (rest + missing (all_entries full.pts_mem) w.result.pts_mem) * suc (length cs)
              + length w.worklist
      by_set (inl y) =
          rw
            (worklist-requeue_if (bool_not (has_loc x (entries slot w.result.pts_mem))) slot cs
              (record w {
                result = record w.result { pts_mem = add_entry slot x w.result.pts_mem };
              })
              (ap (λ b. bool_not b) y))
            (cost_same
              (rest + missing (all_entries full.pts_mem) (add_entry slot x w.result.pts_mem))
              (rest + missing (all_entries full.pts_mem) w.result.pts_mem) (length cs)
              (length w.worklist)
              (omega (
                arith,
                missing_le (all_entries full.pts_mem) w.result.pts_mem
                    (add_entry slot x w.result.pts_mem) kept,
              )))
      by_set (inr n) =
          cost_less (rest + missing (all_entries full.pts_mem) (add_entry slot x w.result.pts_mem))
            (rest + missing (all_entries full.pts_mem) w.result.pts_mem) (length cs)
            (length (grow_mem cs slot x w).worklist) (length w.worklist)
            (omega (
              arith,
              missing_lt slot x w.result.pts_mem (add_entry slot x w.result.pts_mem) full.pts_mem
                  kept p n (InSet-add_entry_new slot x w.result.pts_mem),
            ))
            (QueueOf-length (length cs) (grow_mem cs slot x w)
              (grow_mem-QueueOf cs index below slot x w q))

  -- Insertions of entries that a solution has cost nothing in the end.
  pub Evolves-cost :
      (w v : Work)
      → ((p : String) (x : AbstractLoc) → PointsTo cs p x → Points full p x)
      → ((p x : AbstractLoc) → StoredIn cs p x → Stored full p x)
      → Evolves cs index w v
      → QueueOf (length cs) w
      → cost full cs v.result (length v.worklist) ≤ cost full cs w.result (length w.worklist)
  Evolves-cost w v f g (unchanged _) q = omega arith
  Evolves-cost w v f g (more_pts t x _ _ d e) q = omega (
    arith,
    cost-grow_pts t x w (f t x d) q,
    Evolves-cost (grow_pts index t x w) v f g e (grow_pts-QueueOf cs index below t x w q),
  )
  Evolves-cost w v f g (more_mem s x _ _ d e) q = omega (
    arith,
    cost-grow_mem s x w (g s x d) q,
    Evolves-cost (grow_mem cs s x w) v f g e (grow_mem-QueueOf cs index below s x w q),
  )
