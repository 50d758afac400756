-- ===== src/Tests/Pointers.antt =====
-- Runs of the alias analysis and of the flat layout at concrete inputs.
use may_must_rs.Base.{
  Bool-cases, List, String, String-discrete, [], arith, false, inl, inr, none, refl, some, some-eq,
  sym, test, true, ℕ, ◌-◌, ◌^◌, ◌∷◌, ◌≡◌,
}
use may_must_rs.Base.Int.{negsuc, pos, ℤ, ◌*ℤ◌, ◌+ℤ◌, ◌-ℤ◌, ◌≤ℤ◌}
use may_must_rs.Base.Map.{member}
use may_must_rs.Base.Names.{TextMap, entries}
use may_must_rs.Formula.Data.{add, int_lit, var}
use may_must_rs.Formula.Theory.{value}
use may_must_rs.Pointer.AddressMeaning.{HasIntegers, NeverOverflows, Resolves, eval_flat_addr_sound}
use may_must_rs.Pointer.Alias.{may_alias_regions_sound}
use may_must_rs.Pointer.Constraint.{
  AliasResult, Constraint, copy, has_loc, load_ptr, may_alias_regions, seed, store_ptr,
  struct_field,
}
use may_must_rs.Pointer.Derivation.{from_seed}
use may_must_rs.Pointer.FieldCycle.{solve_field_cycle}
use may_must_rs.Pointer.Fixpoint.{IsSolution}
use may_must_rs.Pointer.Layout.{
  add_regions, eval_flat_addr, flat_addr, get_base, new_layout, region_at,
}
use may_must_rs.Pointer.LayoutBounds.{flat_addr-below}
use may_must_rs.Pointer.LayoutLaws.{flat_addr-region_at, region_at-flat_addr}
use may_must_rs.Pointer.Rounds.{enough_rounds}
use may_must_rs.Pointer.Solve.{Refines, solve-Refines, solve_ends, solve_fixpoint}
use may_must_rs.Pointer.Solver.{constraint_at, index_from, solve, solved}
use may_must_rs.Pointer.Start.{IsOrder}
use may_must_rs.Tests.Model.{int_var, integers, threes}

-- p = &a; q = &b; *p = q; r = *p; s = &r->f1
abbrev small_program : List Constraint
small_program =
    seed "p" "a" ∷ seed "q" "b" ∷ store_ptr "p" "q" ∷ load_ptr "r" "p" ∷ struct_field "s" "r" 1 ∷ []

abbrev small_result : AliasResult
small_result = record {
  pts = ("p", "a" ∷ []) ∷ ("q", "b" ∷ []) ∷ ("r", "b" ∷ []) ∷ ("s", "b$f1" ∷ []) ∷ [];
  pts_mem = ("a", "b" ∷ []) ∷ [];
}

names : TextMap (List ℕ) → List String
names [] = []
names ((p, is) ∷ m) = p ∷ names m

names-IsOrder :
    (p : String) (i : ℕ) (m : TextMap (List ℕ))
    → member i (entries p m) ≡ true
    → has_loc p (names m) ≡ true
unfolding names entries has_loc member
names-IsOrder p i [] h = absurd (false_ne h)
  where
    false_ne : false ≡ true → ⊥
    false_ne z = cc
names-IsOrder p i ((q, is) ∷ m) h = elim (Bool-cases (test (String-discrete q p))) [
  | inl e ↦ rw e refl
  | inr n ↦ rw n (names-IsOrder p i m (rw n at h))
]

-- The order in which the sources come up.
abbrev order_of : List Constraint → List String
order_of cs = names (index_from 0 cs [])

order_of-IsOrder : (cs : List Constraint) → IsOrder (order_of cs) cs
order_of-IsOrder cs p i h = names-IsOrder p i (index_from 0 cs []) h

small_run : solve 10 (order_of small_program) small_program ≡ solved small_result
unfolding solve names index_from String-discrete
small_run = refl

solve-Refines_example : Refines small_program small_result
solve-Refines_example =
    solve-Refines 10 (order_of small_program) small_program small_result
      (order_of-IsOrder small_program) small_run

small_result-IsSolution : IsSolution small_program small_result
small_result-IsSolution =
    (solve_fixpoint 10 (order_of small_program) small_program small_result
      (order_of-IsOrder small_program) small_run).0

solve_ends_example :
    (r : AliasResult) × (solve 35 (order_of small_program) small_program ≡ solved r)
unfolding enough_rounds
solve_ends_example =
    solve_ends 35 (order_of small_program) small_program small_result
      (order_of-IsOrder small_program) small_result-IsSolution (omega (arith, few))
  where
    few : enough_rounds small_result small_program ≡ 35
    few = refl

-- p = &a; loop { t = &p->f0; p = t }
abbrev cyclic_program : List Constraint
cyclic_program = seed "p" "a" ∷ struct_field "t" "p" 0 ∷ copy "p" "t" ∷ []

solve_field_cycle_example :
    ¬ (solve 1000 (order_of cyclic_program) cyclic_program ≡ solved small_result)
unfolding constraint_at
solve_field_cycle_example =
    solve_field_cycle 1000 (order_of cyclic_program) cyclic_program small_result 1 2 0 "p" "t" "a"
      (order_of-IsOrder cyclic_program) refl refl (from_seed 0 "p" "a" refl)

-- p = &a; p = &b
abbrev two_targets : List Constraint
two_targets = seed "p" "a" ∷ seed "p" "b" ∷ []

may_alias_regions_sound_example :
    may_alias_regions "a" "b" (record { pts = ("p", "b" ∷ "a" ∷ []) ∷ []; pts_mem = [] }) ≡ true
unfolding constraint_at solve names String-discrete
may_alias_regions_sound_example =
    may_alias_regions_sound 0 [] two_targets
      (record { pts = ("p", "b" ∷ "a" ∷ []) ∷ []; pts_mem = [] }) "p" "a" "b"
      (order_of-IsOrder two_targets) refl (from_seed 0 "p" "a" refl) (from_seed 1 "p" "b" refl)

abbrev two_stacks : List String
two_stacks = "stack0" ∷ "stack1" ∷ []

region_at-flat_addr_example :
    region_at (pos 4098) (add_regions two_stacks new_layout) ≡ some ("stack1", pos 2)
unfolding flat_addr add_regions new_layout ◌+ℤ◌ ◌*ℤ◌ String-discrete
region_at-flat_addr_example =
    region_at-flat_addr two_stacks "stack1" 2 (pos 4098) (omega arith) refl

flat_addr-region_at_example :
    (flat_addr "stack1" (pos 4) (add_regions two_stacks new_layout) ≡ some (pos 4100))
    × (pos 0 ≤ℤ pos 4)
    × (pos 4 ≤ℤ pos 4095)
unfolding region_at add_regions new_layout ◌+ℤ◌ ◌*ℤ◌ ◌-ℤ◌ String-discrete
flat_addr-region_at_example = flat_addr-region_at two_stacks "stack1" (pos 4100) (pos 4) refl

flat_addr-below_example : (pos 0 ≤ℤ pos 4098) × (pos 4098 ≤ℤ pos (2 ^ 63 - 1))
unfolding flat_addr add_regions new_layout ◌+ℤ◌ ◌*ℤ◌ String-discrete
flat_addr-below_example =
    flat_addr-below two_stacks "stack1" 2 (pos 4098) (omega arith) (omega arith) refl

abbrev known_x : List (String × ℤ)
known_x = ("x", pos 3) ∷ []

integers-HasIntegers : HasIntegers integers
integers-HasIntegers = record { sum = λ a b. refl; difference = λ a b. refl; product = λ a b. refl }

threes-Resolves : Resolves integers threes known_x
unfolding get_base
threes-Resolves v n h = elim (Bool-cases (test (String-discrete "x" v.name))) [
  | inl y ↦ some-eq (rw y at h)
  | inr f ↦ absurd (none_ne (rw f at h))
]
  where
    none_ne : none ≡ some n → ⊥
    none_ne z = cc

eval_flat_addr_sound_example :
    value integers threes (add (var (int_var "x")) (int_lit (pos 4096))) ≡ pos 4099
unfolding eval_flat_addr ◌+ℤ◌ String-discrete
eval_flat_addr_sound_example =
    eval_flat_addr_sound integers integers-HasIntegers threes known_x threes-Resolves
      (add (var (int_var "x")) (int_lit (pos 4096))) (pos 4099) never refl
  where
    never : NeverOverflows (add (var (int_var "x")) (int_lit (pos 4096))) known_x
    never = (tt, tt, λ a b p q. rw (sym (some-eq p), sym (some-eq q)) (omega arith, omega arith))

-- A sum above the range wraps around.
eval_flat_addr_wraps :
    eval_flat_addr (add (int_lit (pos (2 ^ 63 - 1))) (int_lit (pos 1))) []
    ≡ some (negsuc (2 ^ 63 - 1))
unfolding eval_flat_addr ◌+ℤ◌
eval_flat_addr_wraps = refl
