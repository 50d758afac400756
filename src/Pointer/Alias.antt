-- ===== src/Pointer/Alias.antt =====
-- src/pointer_analysis/andersen.rs: `may_alias_regions`.
use may_must_rs.Base.{
  Bool, Bool-cases, List, String, String-discrete, [], false, if◌then◌else◌, inl, inr, refl, test,
  true, ℕ, ◌&&◌, ◌||◌, ◌∷◌, ◌≡◌,
}
use may_must_rs.Base.Names.{TextMap, entries}
use may_must_rs.Pointer.Constraint.{
  AbstractLoc, AliasResult, Constraint, has_loc, may_alias_regions, points_to, some_set_has,
}
use may_must_rs.Pointer.Derivation.{PointsTo}
use may_must_rs.Pointer.Facts.{InSet}
use may_must_rs.Pointer.Solve.{solve-Refines}
use may_must_rs.Pointer.Solver.{solve, solved}
use may_must_rs.Pointer.Start.{IsOrder}

some_set_has_both :
    (a b : AbstractLoc) (p : String) (m : TextMap (List AbstractLoc))
    → InSet m p a
    → InSet m p b
    → some_set_has a b m ≡ true
unfolding some_set_has entries has_loc
some_set_has_both a b p [] h k = cc
some_set_has_both a b p ((q, locs) ∷ m) h k = elim (Bool-cases (test (String-discrete q p))) [
  | inl e ↦ rw (rw e at h, rw e at k) refl
  | inr n ↦
      or_true (has_loc a locs && has_loc b locs) (some_set_has_both a b p m (rw n at h) (rw n at k))
]
  where
    or_true : (c : Bool) {d : Bool} → d ≡ true → (c || d) ≡ true
    or_true true h = refl
    or_true false h = h

-- Where the loop ends, and the first round met every source, two locations that the constraints let
-- one name point to are told to alias.
pub may_alias_regions_sound :
    (fuel : ℕ) (order : List String) (cs : List Constraint) (r : AliasResult) (p : String)
    (a b : AbstractLoc)
    → IsOrder order cs
    → solve fuel order cs ≡ solved r
    → PointsTo cs p a
    → PointsTo cs p b
    → may_alias_regions a b r ≡ true
unfolding may_alias_regions points_to
may_alias_regions_sound fuel order cs r p a b o h d e =
    let points = (solve-Refines fuel order cs r o h).0 p in
    either (test (String-discrete a b))
      (some_set_has_both a b p r.pts ((points a).1 d) ((points b).1 e))
  where
    either : (c : Bool) {x : Bool} → x ≡ true → (if c then true else x) ≡ true
    either true h = refl
    either false h = h
