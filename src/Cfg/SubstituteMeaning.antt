-- ===== src/Cfg/SubstituteMeaning.antt =====
-- src/cfg/abstract_cfg.rs: the meaning of the substitutions for a variable and for a region.
use may_must_rs.Base.{
  String, String-discrete, ap, ap₂, arith, bool_not, if◌then◌else◌, refl, test, ◌&&◌, ◌||◌, ◌∙◌,
  ◌≡◌,
}
use may_must_rs.Cfg.Substitute.{
  substitute_region, substitute_region_items, substitute_region_memory, substitute_region_term,
  substitute_var, substitute_var_items, substitute_var_memory, substitute_var_term,
}
use may_must_rs.Formula.Data.{
  Formula, Formulas, Memory, Term, Var, Var-discrete, add, and, bool_to_int, cons, div, eq, falsum,
  ge, gt, implies, int_lit, le, lt, memory_eq, mul, neg, nil, not, or, prop, real_lit, region, rem,
  select, store, sub, var, verum,
}
use may_must_rs.Formula.Meaning.{holds-mk_and_many, holds-mk_implies, holds-mk_or_many}
use may_must_rs.Formula.Theory.{
  State, Theory, all_hold, contents, holds, set_memory, set_number, some_holds, value,
}

module _ (T : Theory) (s : State T) (target : Var) (r : Term) where
  abbrev updated : State T
  updated = set_number s target (value T s r)

  leaf_var :
      (v : Var)
      → value T s (if test (Var-discrete v target) then r else var v) ≡ value T updated (var v)
  unfolding holds set_number
  leaf_var v = ground arith

  mutual
    unfolding substitute_var holds set_number

    number : (g : Formula) → holds T s (substitute_var target r g) ≡ holds T updated g
    number verum = refl
    number falsum = refl
    number (prop v) = refl
    number (not g) = ap bool_not (number g)
    number (and items) =
        holds-mk_and_many T s (substitute_var_items target r items) ∙ number_items_all items
    number (or items) =
        holds-mk_or_many T s (substitute_var_items target r items) ∙ number_items_some items
    number (implies lhs rhs) =
        holds-mk_implies T s (substitute_var target r lhs) (substitute_var target r rhs)
        ∙ ap₂ (λ x y. bool_not x || y) (number lhs) (number rhs)
    number (eq lhs rhs) = ap₂ (λ x y. T.same x y) (number_term lhs) (number_term rhs)
    number (lt lhs rhs) = ap₂ (λ x y. T.below x y) (number_term lhs) (number_term rhs)
    number (le lhs rhs) = ap₂ (λ x y. T.at_most x y) (number_term lhs) (number_term rhs)
    number (gt lhs rhs) = ap₂ (λ x y. T.below y x) (number_term lhs) (number_term rhs)
    number (ge lhs rhs) = ap₂ (λ x y. T.at_most y x) (number_term lhs) (number_term rhs)
    number (memory_eq lhs rhs) = ap₂ T.same_array (number_memory lhs) (number_memory rhs)

    number_items_all :
        (items : Formulas)
        → all_hold T s (substitute_var_items target r items) ≡ all_hold T updated items
    number_items_all nil = refl
    number_items_all (cons item items) = ap₂ ◌&&◌ (number item) (number_items_all items)

    number_items_some :
        (items : Formulas)
        → some_holds T s (substitute_var_items target r items) ≡ some_holds T updated items
    number_items_some nil = refl
    number_items_some (cons item items) = ap₂ ◌||◌ (number item) (number_items_some items)

    number_term : (e : Term) → value T s (substitute_var_term target r e) ≡ value T updated e
    number_term (var v) = leaf_var v
    number_term (int_lit q) = refl
    number_term (real_lit q) = refl
    number_term (bool_to_int g) = ap T.of_bool (number g)
    number_term (select b i) = ap₂ T.read (number_memory b) (number_term i)
    number_term (add lhs rhs) = ap₂ T.plus (number_term lhs) (number_term rhs)
    number_term (sub lhs rhs) = ap₂ T.minus (number_term lhs) (number_term rhs)
    number_term (mul lhs rhs) = ap₂ T.times (number_term lhs) (number_term rhs)
    number_term (div lhs rhs) = ap₂ T.quotient (number_term lhs) (number_term rhs)
    number_term (rem lhs rhs) = ap₂ T.remainder (number_term lhs) (number_term rhs)
    number_term (neg e) = ap T.negate (number_term e)

    number_memory :
        (b : Memory) → contents T s (substitute_var_memory target r b) ≡ contents T updated b
    number_memory (region name) = refl
    number_memory (store b i v) =
        λ j. T.write (number_memory b j) (number_term i j) (number_term v j)

module _ (T : Theory) (s : State T) (target : String) (r : Memory) where
  abbrev rewritten : State T
  rewritten = set_memory s target (contents T s r)

  leaf_region :
      (name : String)
      → contents T s (if test (String-discrete name target) then r else region name)
        ≡ contents T rewritten (region name)
  unfolding holds set_memory
  leaf_region name = ground arith

  mutual
    unfolding substitute_region holds set_memory

    region_lem : (g : Formula) → holds T s (substitute_region target r g) ≡ holds T rewritten g
    region_lem verum = refl
    region_lem falsum = refl
    region_lem (prop v) = refl
    region_lem (not g) = ap bool_not (region_lem g)
    region_lem (and items) =
        holds-mk_and_many T s (substitute_region_items target r items) ∙ region_items_all items
    region_lem (or items) =
        holds-mk_or_many T s (substitute_region_items target r items) ∙ region_items_some items
    region_lem (implies lhs rhs) =
        holds-mk_implies T s (substitute_region target r lhs) (substitute_region target r rhs)
        ∙ ap₂ (λ x y. bool_not x || y) (region_lem lhs) (region_lem rhs)
    region_lem (eq lhs rhs) = ap₂ (λ x y. T.same x y) (region_term lhs) (region_term rhs)
    region_lem (lt lhs rhs) = ap₂ (λ x y. T.below x y) (region_term lhs) (region_term rhs)
    region_lem (le lhs rhs) = ap₂ (λ x y. T.at_most x y) (region_term lhs) (region_term rhs)
    region_lem (gt lhs rhs) = ap₂ (λ x y. T.below y x) (region_term lhs) (region_term rhs)
    region_lem (ge lhs rhs) = ap₂ (λ x y. T.at_most y x) (region_term lhs) (region_term rhs)
    region_lem (memory_eq lhs rhs) = ap₂ T.same_array (region_memory lhs) (region_memory rhs)

    region_items_all :
        (items : Formulas)
        → all_hold T s (substitute_region_items target r items) ≡ all_hold T rewritten items
    region_items_all nil = refl
    region_items_all (cons item items) = ap₂ ◌&&◌ (region_lem item) (region_items_all items)

    region_items_some :
        (items : Formulas)
        → some_holds T s (substitute_region_items target r items) ≡ some_holds T rewritten items
    region_items_some nil = refl
    region_items_some (cons item items) = ap₂ ◌||◌ (region_lem item) (region_items_some items)

    region_term : (e : Term) → value T s (substitute_region_term target r e) ≡ value T rewritten e
    region_term (var v) = refl
    region_term (int_lit q) = refl
    region_term (real_lit q) = refl
    region_term (bool_to_int g) = ap T.of_bool (region_lem g)
    region_term (select b i) = ap₂ T.read (region_memory b) (region_term i)
    region_term (add lhs rhs) = ap₂ T.plus (region_term lhs) (region_term rhs)
    region_term (sub lhs rhs) = ap₂ T.minus (region_term lhs) (region_term rhs)
    region_term (mul lhs rhs) = ap₂ T.times (region_term lhs) (region_term rhs)
    region_term (div lhs rhs) = ap₂ T.quotient (region_term lhs) (region_term rhs)
    region_term (rem lhs rhs) = ap₂ T.remainder (region_term lhs) (region_term rhs)
    region_term (neg e) = ap T.negate (region_term e)

    region_memory :
        (b : Memory) → contents T s (substitute_region_memory target r b) ≡ contents T rewritten b
    region_memory (region name) = leaf_region name
    region_memory (store b i v) =
        λ j. T.write (region_memory b j) (region_term i j) (region_term v j)

-- The formula with a term substituted for a numeric variable holds exactly where the formula holds
-- after the assignment of the term's value.
pub holds-substitute_var :
    (T : Theory) (s : State T) (target : Var) (r : Term) (f : Formula)
    → holds T s (substitute_var target r f) ≡ holds T (set_number s target (value T s r)) f
holds-substitute_var T s target r f = number T s target r f

-- The formula with a memory expression substituted for a region holds exactly where the formula
-- holds after the region took the contents of the expression.
pub holds-substitute_region :
    (T : Theory) (s : State T) (target : String) (r : Memory) (f : Formula)
    → holds T s (substitute_region target r f) ≡ holds T (set_memory s target (contents T s r)) f
holds-substitute_region T s target r f = region_lem T s target r f
