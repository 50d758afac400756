-- ===== src/Formula/AlphaMeaning.antt =====
-- src/formula/alpha_rename.rs: the meaning of a renamed formula.
use may_must_rs.Base.{String, ap, ap₂, bool_not, refl, ◌&&◌, ◌||◌, ◌≡◌}
use may_must_rs.Formula.AlphaRename.{
  rename_formula, rename_items, rename_memory, rename_term, rename_var,
}
use may_must_rs.Formula.Data.{
  Formula, Formulas, Memory, Term, add, and, bool_to_int, cons, div, eq, falsum, ge, gt, implies,
  int_lit, le, lt, memory_eq, mul, neg, nil, not, or, prop, real_lit, region, rem, select, store,
  sub, var, verum,
}
use may_must_rs.Formula.Theory.{State, Theory, all_hold, contents, holds, some_holds, value}

module _ (T : Theory) (vr mr : String → String) where
  -- The state in which each name has what its image has in the given one.
  unfoldable pub pulled_back : State T → State T
  unfolding rename_var
  pulled_back s = record {
    number = λ v. s.number (rename_var vr mr v);
    truth = λ v. s.truth (rename_var vr mr v);
    memory = λ r. s.memory (mr r);
  }

  module _ (s : State T) where
    mutual
      unfolding rename_formula holds pulled_back

      alpha : (g : Formula) → holds T s (rename_formula vr mr g) ≡ holds T (pulled_back s) g
      alpha verum = refl
      alpha falsum = refl
      alpha (prop v) = refl
      alpha (not g) = ap bool_not (alpha g)
      alpha (and items) = alpha_items_all items
      alpha (or items) = alpha_items_some items
      alpha (implies lhs rhs) = ap₂ (λ x y. bool_not x || y) (alpha lhs) (alpha rhs)
      alpha (eq lhs rhs) = ap₂ (λ x y. T.same x y) (alpha_term lhs) (alpha_term rhs)
      alpha (lt lhs rhs) = ap₂ (λ x y. T.below x y) (alpha_term lhs) (alpha_term rhs)
      alpha (le lhs rhs) = ap₂ (λ x y. T.at_most x y) (alpha_term lhs) (alpha_term rhs)
      alpha (gt lhs rhs) = ap₂ (λ x y. T.below y x) (alpha_term lhs) (alpha_term rhs)
      alpha (ge lhs rhs) = ap₂ (λ x y. T.at_most y x) (alpha_term lhs) (alpha_term rhs)
      alpha (memory_eq lhs rhs) = ap₂ T.same_array (alpha_memory lhs) (alpha_memory rhs)

      alpha_items_all :
          (items : Formulas)
          → all_hold T s (rename_items vr mr items) ≡ all_hold T (pulled_back s) items
      alpha_items_all nil = refl
      alpha_items_all (cons item items) = ap₂ ◌&&◌ (alpha item) (alpha_items_all items)

      alpha_items_some :
          (items : Formulas)
          → some_holds T s (rename_items vr mr items) ≡ some_holds T (pulled_back s) items
      alpha_items_some nil = refl
      alpha_items_some (cons item items) = ap₂ ◌||◌ (alpha item) (alpha_items_some items)

      alpha_term : (e : Term) → value T s (rename_term vr mr e) ≡ value T (pulled_back s) e
      alpha_term (var v) = refl
      alpha_term (int_lit q) = refl
      alpha_term (real_lit q) = refl
      alpha_term (bool_to_int g) = ap T.of_bool (alpha g)
      alpha_term (select b i) = ap₂ T.read (alpha_memory b) (alpha_term i)
      alpha_term (add lhs rhs) = ap₂ T.plus (alpha_term lhs) (alpha_term rhs)
      alpha_term (sub lhs rhs) = ap₂ T.minus (alpha_term lhs) (alpha_term rhs)
      alpha_term (mul lhs rhs) = ap₂ T.times (alpha_term lhs) (alpha_term rhs)
      alpha_term (div lhs rhs) = ap₂ T.quotient (alpha_term lhs) (alpha_term rhs)
      alpha_term (rem lhs rhs) = ap₂ T.remainder (alpha_term lhs) (alpha_term rhs)
      alpha_term (neg e) = ap T.negate (alpha_term e)

      alpha_memory :
          (b : Memory) → contents T s (rename_memory vr mr b) ≡ contents T (pulled_back s) b
      alpha_memory (region name) = refl
      alpha_memory (store b i v) = λ j. T.write (alpha_memory b j) (alpha_term i j) (alpha_term v j)

  -- In any structure and state, a renamed formula holds exactly where the formula holds once each
  -- variable and each region has what its image has.
  pub holds-rename_formula :
      (s : State T) (f : Formula) → holds T s (rename_formula vr mr f) ≡ holds T (pulled_back s) f
  holds-rename_formula s f = alpha s f

  pub value-rename_term :
      (s : State T) (e : Term) → value T s (rename_term vr mr e) ≡ value T (pulled_back s) e
  value-rename_term s e = alpha_term s e
