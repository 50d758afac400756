-- ===== src/Cfg/BoolSubstitute.antt =====
-- src/cfg/abstract_cfg.rs: the meaning of the substitution for a Boolean variable, which leaves
-- terms as they are.
use may_must_rs.Base.{
  Bool, ap, ap₂, arith, bool_not, false, if◌then◌else◌, refl, test, ◌&&◌, ◌||◌, ◌∙◌, ◌≡◌,
}
use may_must_rs.Cfg.Substitute.{substitute_bool_var, substitute_bool_var_items}
use may_must_rs.Formula.Data.{
  Formula, Formulas, Memory, Term, Var, Var-discrete, and, cons, eq, falsum, ge, gt, implies, le,
  lt, memory_eq, nil, not, or, prop, verum,
}
use may_must_rs.Formula.Meaning.{holds-mk_and_many, holds-mk_implies, holds-mk_or_many}
use may_must_rs.Formula.Occurs.{
  Agree, contents-Agree, left, nowhere, occurs_memory, occurs_term, right, value-Agree,
}
use may_must_rs.Formula.Theory.{
  State, Theory, all_hold, contents, holds, set_truth, some_holds, value,
}

-- Does a term read the Boolean variable?
abbrev pub reads : Var → Term → Bool
reads target = occurs_term nowhere (λ v. test (Var-discrete v target)) nowhere

abbrev pub reads_memory : Var → Memory → Bool
reads_memory target = occurs_memory nowhere (λ v. test (Var-discrete v target)) nowhere

-- Is the variable read inside a term of the formula?
unfoldable mutual
  pub in_terms : Var → Formula → Bool
  in_terms target verum = false
  in_terms target falsum = false
  in_terms target (prop v) = false
  in_terms target (not g) = in_terms target g
  in_terms target (and items) = in_terms_items target items
  in_terms target (or items) = in_terms_items target items
  in_terms target (implies lhs rhs) = in_terms target lhs || in_terms target rhs
  in_terms target (eq lhs rhs) = reads target lhs || reads target rhs
  in_terms target (lt lhs rhs) = reads target lhs || reads target rhs
  in_terms target (le lhs rhs) = reads target lhs || reads target rhs
  in_terms target (gt lhs rhs) = reads target lhs || reads target rhs
  in_terms target (ge lhs rhs) = reads target lhs || reads target rhs
  in_terms target (memory_eq lhs rhs) = reads_memory target lhs || reads_memory target rhs

  pub in_terms_items : Var → Formulas → Bool
  in_terms_items target nil = false
  in_terms_items target (cons item items) = in_terms target item || in_terms_items target items

module _ (T : Theory) (s : State T) (target : Var) (p : Formula) where
  abbrev updated : State T
  updated = set_truth s target (holds T s p)

  Agree-set_truth : Agree T nowhere (λ v. test (Var-discrete v target)) nowhere s updated
  unfolding set_truth
  Agree-set_truth = record { numbers = λ v h. refl; truths = λ v h. rw h; memories = λ x h. refl }

  same_value : (e : Term) → reads target e ≡ false → value T s e ≡ value T updated e
  same_value e h =
      value-Agree T nowhere (λ v. test (Var-discrete v target)) nowhere s updated Agree-set_truth e
        h

  same_contents :
      (b : Memory) → reads_memory target b ≡ false → contents T s b ≡ contents T updated b
  same_contents b h =
      contents-Agree T nowhere (λ v. test (Var-discrete v target)) nowhere s updated Agree-set_truth
        b h

  leaf :
      (v : Var)
      → holds T s (if test (Var-discrete v target) then p else prop v) ≡ holds T updated (prop v)
  unfolding holds set_truth
  leaf v = ground arith

  mutual
    unfolding substitute_bool_var holds in_terms

    by_truth :
        (f : Formula)
        → in_terms target f ≡ false
        → holds T s (substitute_bool_var target p f) ≡ holds T updated f
    by_truth verum h = refl
    by_truth falsum h = refl
    by_truth (prop v) h = leaf v
    by_truth (not g) h = ap bool_not (by_truth g h)
    by_truth (and items) h =
        holds-mk_and_many T s (substitute_bool_var_items target p items) ∙ by_truth_all items h
    by_truth (or items) h =
        holds-mk_or_many T s (substitute_bool_var_items target p items) ∙ by_truth_some items h
    by_truth (implies lhs rhs) h =
        holds-mk_implies T s (substitute_bool_var target p lhs) (substitute_bool_var target p rhs)
        ∙ ap₂ (λ x y. bool_not x || y) (by_truth lhs (left _ _ h)) (by_truth rhs (right _ _ h))
    by_truth (eq lhs rhs) h =
        ap₂ (λ x y. T.same x y) (same_value lhs (left _ _ h)) (same_value rhs (right _ _ h))
    by_truth (lt lhs rhs) h =
        ap₂ (λ x y. T.below x y) (same_value lhs (left _ _ h)) (same_value rhs (right _ _ h))
    by_truth (le lhs rhs) h =
        ap₂ (λ x y. T.at_most x y) (same_value lhs (left _ _ h)) (same_value rhs (right _ _ h))
    by_truth (gt lhs rhs) h =
        ap₂ (λ x y. T.below y x) (same_value lhs (left _ _ h)) (same_value rhs (right _ _ h))
    by_truth (ge lhs rhs) h =
        ap₂ (λ x y. T.at_most y x) (same_value lhs (left _ _ h)) (same_value rhs (right _ _ h))
    by_truth (memory_eq lhs rhs) h =
        ap₂ T.same_array (same_contents lhs (left _ _ h)) (same_contents rhs (right _ _ h))

    by_truth_all :
        (items : Formulas)
        → in_terms_items target items ≡ false
        → all_hold T s (substitute_bool_var_items target p items) ≡ all_hold T updated items
    by_truth_all nil h = refl
    by_truth_all (cons item items) h =
        ap₂ ◌&&◌ (by_truth item (left _ _ h)) (by_truth_all items (right _ _ h))

    by_truth_some :
        (items : Formulas)
        → in_terms_items target items ≡ false
        → some_holds T s (substitute_bool_var_items target p items) ≡ some_holds T updated items
    by_truth_some nil h = refl
    by_truth_some (cons item items) h =
        ap₂ ◌||◌ (by_truth item (left _ _ h)) (by_truth_some items (right _ _ h))

-- Where no term of `f` reads the variable, `f[target := p]` means what `f` means after the assignment of p's truth value.
pub holds-substitute_bool_var :
    (T : Theory) (s : State T) (target : Var) (p f : Formula)
    → in_terms target f ≡ false
    → holds T s (substitute_bool_var target p f) ≡ holds T (set_truth s target (holds T s p)) f
holds-substitute_bool_var T s target p f h = by_truth T s target p f h
