-- ===== src/Pointer/FieldCycle.antt =====
-- src/pointer_analysis/andersen.rs: fields of fields along a cycle of constraints.
use text.Mathlib.TextLemmas.{length-append as count-append}
use Prim.Native.String.{◌++◌ as append_text, count}
use may_must_rs.Base.{
  Bool-cases, List, String, String-discrete, [], arith, false, inl, inr, refl, some, suc, test,
  test_iff, true, zero, ℕ, ◌+◌, ◌<◌, ◌∷◌, ◌≡◌, ◌≤◌,
}
use may_must_rs.Pointer.Constraint.{
  AbstractLoc, AliasResult, Constraint, copy, digits, field, has_loc, points_to, struct_field,
}
use may_must_rs.Pointer.Derivation.{PointsTo}
use may_must_rs.Pointer.Facts.{Points}
use may_must_rs.Pointer.Fixpoint.{IsSolution}
use may_must_rs.Pointer.Solve.{solve-Refines, solve_fixpoint, solve_least}
use may_must_rs.Pointer.Solver.{constraint_at, solve, solved}
use may_must_rs.Pointer.Start.{IsOrder}

count-field : (x : AbstractLoc) (n : ℕ) → count x < count (field x n)
unfolding field
count-field x n =
    omega
      (arith, count-append x (append_text "$f" (digits 10 n)), count-append "$f" (digits 10 n), two)
  where
    two : count "$f" ≡ 2
    two = refl

longest : List AbstractLoc → ℕ
longest [] = 0
longest (x ∷ xs) = count x + longest xs

count-longest :
    (x : AbstractLoc) (xs : List AbstractLoc) → has_loc x xs ≡ true → count x ≤ longest xs
unfolding longest has_loc
count-longest x [] h = absurd (false_ne h)
  where
    false_ne : false ≡ true → ⊥
    false_ne z = cc
count-longest x (y ∷ ys) h = elim (Bool-cases (test (String-discrete y x))) [
  | inl e ↦ rw ((test_iff (String-discrete y x)).0 e) (omega arith)
  | inr n ↦ omega (arith, count-longest x ys (rw n at h))
]

-- Where a name that points somewhere is given, through another name, the field of what it points
-- to, no number of rounds is enough for the loop to end.
pub solve_field_cycle :
    (fuel : ℕ) (order : List String) (cs : List Constraint) (r : AliasResult) (i j n : ℕ)
    (p t : String) (x : AbstractLoc)
    → IsOrder order cs
    → constraint_at i cs ≡ some (struct_field t p n)
    → constraint_at j cs ≡ some (copy p t)
    → PointsTo cs p x
    → ¬ (solve fuel order cs ≡ solved r)
unfolding points_to
solve_field_cycle fuel order cs r i j n p t x o a b d h =
    let s = (solve_least fuel order cs r r o h (solve_fixpoint fuel order cs r o h).0).0 in
    let (y, has_y, long) = chain s (suc (longest (points_to p r))) in
    omega (arith, long, count-longest y (points_to p r) has_y)
  where
    chain : IsSolution cs r → (k : ℕ) → (y : AbstractLoc) × Points r p y × (k ≤ count y)
    chain s zero = (x, ((solve-Refines fuel order cs r o h).0 p x).1 d, omega arith)
    chain s (suc k) =
        let (y, has_y, long) = chain s k in
        (
          field y n,
          s j (copy p t) b (field y n) (s i (struct_field t p n) a y has_y),
          omega (arith, long, count-field y n),
        )
