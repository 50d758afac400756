-- ===== src/Cfg/RegionSorts.antt =====
-- src/cfg/abstract_cfg.rs: the substitution for a region keeps sorts.
use may_must_rs.Base.{
  Bool, String, String-discrete, ap, false, if◌then◌else◌, refl, test, true, ◌≡◌,
}
use may_must_rs.Cfg.Substitute.{
  substitute_region, substitute_region_items, substitute_region_memory, substitute_region_term,
}
use may_must_rs.Cfg.SubstituteSorts.{compared_kept, pair_kept, stored_kept}
use may_must_rs.Formula.Data.{
  Formula, Formulas, Memory, Sort, Term, add, and, bool_to_int, cons, div, eq, falsum, ge, gt,
  implies, int, int_lit, le, lt, memory_eq, mul, neg, nil, not, or, prop, real_lit, region, rem,
  select, store, sub, var, verum,
}
use may_must_rs.Formula.SortLaws.{
  AreValid, IsSorted, IsValid, IsValidMemory, integral-answer, numeric-answer, then_check-answer,
  then_sort-answer,
}
use may_must_rs.Formula.Sorts.{
  integral_pair, numeric_pair, sort_of, sorted, then_sort, validate, validate_items,
  validate_memory,
}
use may_must_rs.Formula.SortsKept.{
  mk_and_many-IsValid, mk_implies-IsValid, mk_or_many-IsValid, then_check-both,
}
use may_must_rs.Smt.Oracle.{answer}

-- The contents that stand for the region are well sorted.
module _ (target : String) (r : Memory) (fits : IsValidMemory r) where
  Kept : Term → Type 0
  Kept t = (s : Sort) → IsSorted t s → IsSorted (substitute_region_term target r t) s

  compared :
      (a b : Term)
      → Kept a
      → Kept b
      → sorted (numeric_pair (sort_of a) (sort_of b)) ≡ answer tt
      → sorted (
          numeric_pair
            (sort_of (substitute_region_term target r a))
            (sort_of (substitute_region_term target r b)))
        ≡ answer tt
  unfolding Kept
  compared a b f g h =
      compared_kept (sort_of a) (sort_of (substitute_region_term target r a)) (sort_of b)
        (sort_of (substitute_region_term target r b)) f g h

  arithmetic :
      (a b : Term) (s : Sort)
      → Kept a
      → Kept b
      → numeric_pair (sort_of a) (sort_of b) ≡ answer s
      → numeric_pair
          (sort_of (substitute_region_term target r a))
          (sort_of (substitute_region_term target r b))
        ≡ answer s
  unfolding Kept
  arithmetic a b s f g h =
      pair_kept (sort_of a) (sort_of (substitute_region_term target r a)) (sort_of b)
        (sort_of (substitute_region_term target r b)) s f g h

  region_kept : (name : String) (c : Bool) → IsValidMemory (if c then r else region name)
  unfolding sort_of
  region_kept name true = fits
  region_kept name false = refl

  mutual
    unfolding substitute_region sort_of Kept

    formula_kept : (f : Formula) → IsValid f → IsValid (substitute_region target r f)
    formula_kept verum h = refl
    formula_kept falsum h = refl
    formula_kept (prop v) h = h
    formula_kept (not f) h = formula_kept f h
    formula_kept (and fs) h =
        mk_and_many-IsValid (substitute_region_items target r fs) (items_kept fs h)
    formula_kept (or fs) h =
        mk_or_many-IsValid (substitute_region_items target r fs) (items_kept fs h)
    formula_kept (implies f g) h =
        let (a, b) = then_check-answer (validate f) (validate g) h in
        mk_implies-IsValid (substitute_region target r f) (substitute_region target r g)
          (formula_kept f a) (formula_kept g b)
    formula_kept (eq a b) h = compared a b (λ t. term_kept a t) (λ t. term_kept b t) h
    formula_kept (lt a b) h = compared a b (λ t. term_kept a t) (λ t. term_kept b t) h
    formula_kept (le a b) h = compared a b (λ t. term_kept a t) (λ t. term_kept b t) h
    formula_kept (gt a b) h = compared a b (λ t. term_kept a t) (λ t. term_kept b t) h
    formula_kept (ge a b) h = compared a b (λ t. term_kept a t) (λ t. term_kept b t) h
    formula_kept (memory_eq m n) h =
        let (a, b) = then_check-answer (validate_memory m) (validate_memory n) h in
        then_check-both (validate_memory (substitute_region_memory target r m))
          (validate_memory (substitute_region_memory target r n)) (memory_kept m a)
          (memory_kept n b)

    items_kept : (fs : Formulas) → AreValid fs → AreValid (substitute_region_items target r fs)
    items_kept nil h = refl
    items_kept (cons f fs) h =
        let (a, b) = then_check-answer (validate f) (validate_items fs) h in
        then_check-both (validate (substitute_region target r f))
          (validate_items (substitute_region_items target r fs)) (formula_kept f a)
          (items_kept fs b)

    term_kept :
        (t : Term) (s : Sort) → IsSorted t s → IsSorted (substitute_region_term target r t) s
    term_kept (var v) s h = h
    term_kept (int_lit n) s h = h
    term_kept (real_lit q) s h = h
    term_kept (bool_to_int f) s h =
        let (a, b) = then_sort-answer (validate f) int s h in
        rw (formula_kept f a, then_sort) (ap (λ x. answer x) b)
    term_kept (select m i) s h =
        let a = integral-answer (sort_of i) s h in rw (term_kept i s a) (rw a at h)
    term_kept (add a b) s h = arithmetic a b s (λ t. term_kept a t) (λ t. term_kept b t) h
    term_kept (sub a b) s h = arithmetic a b s (λ t. term_kept a t) (λ t. term_kept b t) h
    term_kept (mul a b) s h = arithmetic a b s (λ t. term_kept a t) (λ t. term_kept b t) h
    term_kept (div a b) s h = arithmetic a b s (λ t. term_kept a t) (λ t. term_kept b t) h
    term_kept (rem a b) s h = arithmetic a b s (λ t. term_kept a t) (λ t. term_kept b t) h
    term_kept (neg a) s h =
        let b = numeric-answer (sort_of a) s h in rw (term_kept a s b) (rw b at h)

    memory_kept :
        (m : Memory) → IsValidMemory m → IsValidMemory (substitute_region_memory target r m)
    memory_kept (region name) h = region_kept name (test (String-discrete name target))
    memory_kept (store m i v) h =
        let (a, b) =
          then_check-answer (validate_memory m) (integral_pair (sort_of i) (sort_of v)) h in
        then_check-both (validate_memory (substitute_region_memory target r m))
          (integral_pair (sort_of (substitute_region_term target r i))
            (sort_of (substitute_region_term target r v)))
          (memory_kept m a)
          (stored_kept (sort_of i) (sort_of (substitute_region_term target r i)) (sort_of v)
            (sort_of (substitute_region_term target r v)) (λ t. term_kept i t) (λ t. term_kept v t)
            b)

  pub substitute_region-IsValid : (f : Formula) → IsValid f → IsValid (substitute_region target r f)
  substitute_region-IsValid f h = formula_kept f h
