-- ===== src/Pointer/Solve.antt =====
-- src/pointer_analysis/andersen.rs: what `solve` computes, and when it ends.
use may_must_rs.Base.{List, String, [], arith, refl, true, ℕ, ◌↔◌, ◌≡◌, ◌≤◌}
use may_must_rs.Pointer.Constraint.{
  AbstractLoc, AliasResult, Constraint, copy, has_loc, load_ptr, points_to, seed, store_ptr,
  stored_into, struct_field,
}
use may_must_rs.Pointer.Derivation.{
  IsImplied, PointsTo, StoredIn, copied, field_taken, from_seed, loaded, stored,
}
use may_must_rs.Pointer.Facts.{Points, Stored}
use may_must_rs.Pointer.Fixpoint.{IsSolution, round_fixpoint}
use may_must_rs.Pointer.Indexed.{index_from-IsIndex}
use may_must_rs.Pointer.Missing.{IsWithin}
use may_must_rs.Pointer.Rounds.{cost_rounds, enough_rounds, round_ends}
use may_must_rs.Pointer.Solver.{index_from, run_rounds, solve, solved, start}
use may_must_rs.Pointer.Start.{IsOrder, start-Going}

-- Every solution has all that the constraints imply.
mutual
  implied-Points :
      (cs : List Constraint) (r : AliasResult) (p : String) (x : AbstractLoc)
      → IsSolution cs r
      → PointsTo cs p x
      → Points r p x
  implied-Points cs r p x s (from_seed i _ _ e) = s i (seed p x) e
  implied-Points cs r p x s (copied i _ q _ e d) = s i (copy p q) e x (implied-Points cs r q x s d)
  implied-Points cs r p x s (field_taken i _ q n y e d) =
      s i (struct_field p q n) e y (implied-Points cs r q y s d)
  implied-Points cs r p x s (loaded i _ q slot _ e d g) =
      s i (load_ptr p q) e slot x (implied-Points cs r q slot s d) (implied-Stored cs r slot x s g)

  implied-Stored :
      (cs : List Constraint) (r : AliasResult) (slot x : AbstractLoc)
      → IsSolution cs r
      → StoredIn cs slot x
      → Stored r slot x
  implied-Stored cs r slot x s (stored i t v _ _ e d g) =
      s i (store_ptr t v) e slot x (implied-Points cs r t slot s d) (implied-Points cs r v x s g)

pub solve_fixpoint :
    (fuel : ℕ) (order : List String) (cs : List Constraint) (r : AliasResult)
    → IsOrder order cs
    → solve fuel order cs ≡ solved r
    → IsSolution cs r × IsImplied cs r
unfolding solve run_rounds
solve_fixpoint fuel order cs r o h =
    round_fixpoint cs (index_from 0 cs []) (index_from-IsIndex cs) fuel (start order cs)
      (start order cs).worklist r refl (start-Going order cs o) h

-- The sets of the result are exactly what the constraints imply.
abbrev pub Refines : List Constraint → AliasResult → Type 0
Refines cs r =
    ((p : String) (x : AbstractLoc) → (has_loc x (points_to p r) ≡ true) ↔ PointsTo cs p x)
    × ((slot x : AbstractLoc) → (has_loc x (stored_into slot r) ≡ true) ↔ StoredIn cs slot x)

-- Where the loop ends, and the first round met every source, each set of the result has exactly the
-- locations that the constraints imply: what each name points to, and what is stored in each
-- region.
pub solve-Refines :
    (fuel : ℕ) (order : List String) (cs : List Constraint) (r : AliasResult)
    → IsOrder order cs
    → solve fuel order cs ≡ solved r
    → Refines cs r
unfolding points_to stored_into
solve-Refines fuel order cs r o h =
    let fix = solve_fixpoint fuel order cs r o h in
    (
      (λ p x. (fix.1.0 p x, implied-Points cs r p x fix.0)),
      (λ p x. (fix.1.1 p x, implied-Stored cs r p x fix.0)),
    )

-- Where the loop ends, and the first round met every source, the result satisfies every constraint
-- and lies within every other solution.
pub solve_least :
    (fuel : ℕ) (order : List String) (cs : List Constraint) (r full : AliasResult)
    → IsOrder order cs
    → solve fuel order cs ≡ solved r
    → IsSolution cs full
    → IsSolution cs r × IsWithin r.pts full.pts × IsWithin r.pts_mem full.pts_mem
solve_least fuel order cs r full o h s =
    let fix = solve_fixpoint fuel order cs r o h in
    (
      fix.0,
      (λ p x a. implied-Points cs full p x s (fix.1.0 p x a)),
      (λ p x a. implied-Stored cs full p x s (fix.1.1 p x a)),
    )

-- If the constraints have a solution and the first round meets every source, then the loop ends,
-- with no panic, within the rounds that the size of that solution allows.
pub solve_ends :
    (fuel : ℕ) (order : List String) (cs : List Constraint) (full : AliasResult)
    → IsOrder order cs
    → IsSolution cs full
    → enough_rounds full cs ≤ fuel
    → (r : AliasResult) × (solve fuel order cs ≡ solved r)
unfolding solve run_rounds
solve_ends fuel order cs full o s l =
    let go = start-Going order cs o in
    let enough = cost_rounds full cs (start order cs) go.queue in
    round_ends full cs (index_from 0 cs []) (index_from-IsIndex cs)
      (λ p x d. implied-Points cs full p x s d) (λ p x d. implied-Stored cs full p x s d) fuel
      (start order cs) (start order cs).worklist refl go (omega (arith, enough, l))
