-- ===== src/Formula/RenameMeaning.antt =====
-- src/formula/mod.rs: the meaning of a renamed formula.
use may_must_rs.Base.{List, ap, ap₂, bool_not, refl, ◌&&◌, ◌||◌, ◌∙◌, ◌≡◌}
use may_must_rs.Formula.Data.{
  Formula, Formulas, Memory, Term, Var, add, and, bool_to_int, cons, div, eq, falsum, ge, gt,
  implies, int_lit, le, lt, memory_eq, mul, neg, nil, not, or, prop, real_lit, region, rem, select,
  store, sub, var, verum,
}
use may_must_rs.Formula.Meaning.{holds-mk_and_many, holds-mk_implies, holds-mk_or_many}
use may_must_rs.Formula.Rename.{
  lookup_var, substitute, substitute_formula_vars, substitute_items_vars, substitute_memory_vars,
  substitute_term_vars,
}
use may_must_rs.Formula.Theory.{State, Theory, all_hold, contents, holds, some_holds, value}

module _ (T : Theory) where
  unfoldable pub renamed : (Var → Var) → State T → State T
  renamed m s = record s { number = λ v. s.number (m v); truth = λ v. s.truth (m v) }

module _ (T : Theory) (s : State T) (m : Var → Var) where
  mutual
    unfolding substitute_formula_vars holds renamed

    named : (g : Formula) → holds T s (substitute_formula_vars m g) ≡ holds T (renamed T m s) g
    named verum = refl
    named falsum = refl
    named (prop v) = refl
    named (not g) = ap bool_not (named g)
    named (and items) =
        holds-mk_and_many T s (substitute_items_vars m items) ∙ named_items_all items
    named (or items) = holds-mk_or_many T s (substitute_items_vars m items) ∙ named_items_some items
    named (implies lhs rhs) =
        holds-mk_implies T s (substitute_formula_vars m lhs) (substitute_formula_vars m rhs)
        ∙ ap₂ (λ x y. bool_not x || y) (named lhs) (named rhs)
    named (eq lhs rhs) = ap₂ (λ x y. T.same x y) (named_term lhs) (named_term rhs)
    named (lt lhs rhs) = ap₂ (λ x y. T.below x y) (named_term lhs) (named_term rhs)
    named (le lhs rhs) = ap₂ (λ x y. T.at_most x y) (named_term lhs) (named_term rhs)
    named (gt lhs rhs) = ap₂ (λ x y. T.below y x) (named_term lhs) (named_term rhs)
    named (ge lhs rhs) = ap₂ (λ x y. T.at_most y x) (named_term lhs) (named_term rhs)
    named (memory_eq lhs rhs) = ap₂ T.same_array (named_memory lhs) (named_memory rhs)

    named_items_all :
        (items : Formulas)
        → all_hold T s (substitute_items_vars m items) ≡ all_hold T (renamed T m s) items
    named_items_all nil = refl
    named_items_all (cons item items) = ap₂ ◌&&◌ (named item) (named_items_all items)

    named_items_some :
        (items : Formulas)
        → some_holds T s (substitute_items_vars m items) ≡ some_holds T (renamed T m s) items
    named_items_some nil = refl
    named_items_some (cons item items) = ap₂ ◌||◌ (named item) (named_items_some items)

    named_term : (e : Term) → value T s (substitute_term_vars m e) ≡ value T (renamed T m s) e
    named_term (var v) = refl
    named_term (int_lit q) = refl
    named_term (real_lit q) = refl
    named_term (bool_to_int g) = ap T.of_bool (named g)
    named_term (select b i) = ap₂ T.read (named_memory b) (named_term i)
    named_term (add lhs rhs) = ap₂ T.plus (named_term lhs) (named_term rhs)
    named_term (sub lhs rhs) = ap₂ T.minus (named_term lhs) (named_term rhs)
    named_term (mul lhs rhs) = ap₂ T.times (named_term lhs) (named_term rhs)
    named_term (div lhs rhs) = ap₂ T.quotient (named_term lhs) (named_term rhs)
    named_term (rem lhs rhs) = ap₂ T.remainder (named_term lhs) (named_term rhs)
    named_term (neg e) = ap T.negate (named_term e)

    named_memory :
        (b : Memory) → contents T s (substitute_memory_vars m b) ≡ contents T (renamed T m s) b
    named_memory (region name) = refl
    named_memory (store b i v) = λ j. T.write (named_memory b j) (named_term i j) (named_term v j)

-- In any structure and state, the renamed formula holds exactly where the formula holds once each
-- variable reads the value of its image; variables that the map does not have stay as they are.
pub holds-substitute :
    (T : Theory) (s : State T) (mapping : List (Var × Var)) (f : Formula)
    → holds T s (substitute mapping f) ≡ holds T (renamed T (lookup_var mapping) s) f
unfolding substitute
holds-substitute T s mapping f = named T s (lookup_var mapping) f
