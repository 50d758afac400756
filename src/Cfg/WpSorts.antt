-- ===== src/Cfg/WpSorts.antt =====
-- src/cfg/abstract_cfg.rs: the weakest precondition of a well-sorted block.
use may_must_rs.Base.{Bool, List, String, [], false, if◌then◌else◌, refl, test, true, ◌∷◌, ◌≡◌}
use may_must_rs.Cfg.Effect.{
  TransferEffect, TransferFn, assign, assume, havoc_regions, memory_store, obligation, predicate,
  term,
}
use may_must_rs.Cfg.Mention.{formula_mentions_region}
use may_must_rs.Cfg.RegionSorts.{substitute_region-IsValid}
use may_must_rs.Cfg.Substitute.{substitute_bool_var, substitute_bool_var_items}
use may_must_rs.Cfg.SubstituteSorts.{substitute_var-IsValid}
use may_must_rs.Cfg.Transfer.{drop_mentions, havoc_all, havoc_mentioned, havoc_region, wp, wp_one}
use may_must_rs.Formula.Data.{
  Formula, Formulas, Var, Var-discrete, and, cons, eq, falsum, ge, gt, implies, le, lt, memory_eq,
  nil, not, or, prop, region, store, verum,
}
use may_must_rs.Formula.SortLaws.{AreValid, IsSorted, IsValid, then_check-answer}
use may_must_rs.Formula.Sorts.{integral_pair, sort_of, validate, validate_items}
use may_must_rs.Formula.SortsKept.{
  mk_and-IsValid, mk_and_many-IsValid, mk_implies-IsValid, mk_or_many-IsValid, then_check-both,
}
use may_must_rs.Smt.Oracle.{answer}

if_kept : (b : Bool) (f g : Formula) → IsValid f → IsValid g → IsValid (if b then f else g)
if_kept true f g h k = h
if_kept false f g h k = k

items_if :
    (b : Bool) (fs gs : Formulas) → AreValid fs → AreValid gs → AreValid (if b then fs else gs)
items_if true fs gs h k = h
items_if false fs gs h k = k

module _ (target : Var) (r : Formula) (fits : IsValid r) where
  mutual
    unfolding substitute_bool_var sort_of

    bool_kept : (f : Formula) → IsValid f → IsValid (substitute_bool_var target r f)
    bool_kept verum h = refl
    bool_kept falsum h = refl
    bool_kept (prop v) h = if_kept (test (Var-discrete v target)) r (prop v) fits h
    bool_kept (not f) h = bool_kept f h
    bool_kept (and fs) h =
        mk_and_many-IsValid (substitute_bool_var_items target r fs) (bool_items_kept fs h)
    bool_kept (or fs) h =
        mk_or_many-IsValid (substitute_bool_var_items target r fs) (bool_items_kept fs h)
    bool_kept (implies f g) h =
        let (a, b) = then_check-answer (validate f) (validate g) h in
        mk_implies-IsValid (substitute_bool_var target r f) (substitute_bool_var target r g)
          (bool_kept f a) (bool_kept g b)
    bool_kept (eq a b) h = h
    bool_kept (memory_eq a b) h = h
    bool_kept (lt a b) h = h
    bool_kept (le a b) h = h
    bool_kept (gt a b) h = h
    bool_kept (ge a b) h = h

    bool_items_kept :
        (fs : Formulas) → AreValid fs → AreValid (substitute_bool_var_items target r fs)
    bool_items_kept nil h = refl
    bool_items_kept (cons f fs) h =
        let (a, b) = then_check-answer (validate f) (validate_items fs) h in
        then_check-both (validate (substitute_bool_var target r f))
          (validate_items (substitute_bool_var_items target r fs)) (bool_kept f a)
          (bool_items_kept fs b)

drop_mentions-AreValid : (r : String) (fs : Formulas) → AreValid fs → AreValid (drop_mentions r fs)
unfolding drop_mentions sort_of
drop_mentions-AreValid r nil h = refl
drop_mentions-AreValid r (cons f fs) h =
    let (a, b) = then_check-answer (validate f) (validate_items fs) h in
    let rest = drop_mentions-AreValid r fs b in
    items_if (formula_mentions_region r f) (drop_mentions r fs) (cons f (drop_mentions r fs)) rest
      (then_check-both (validate f) (validate_items (drop_mentions r fs)) a rest)

havoc_mentioned-IsValid : (r : String) (f : Formula) → IsValid f → IsValid (havoc_mentioned r f)
unfolding havoc_mentioned sort_of
havoc_mentioned-IsValid r (and fs) h =
    mk_and_many-IsValid (drop_mentions r fs) (drop_mentions-AreValid r fs h)
havoc_mentioned-IsValid r _ h = refl

havoc_all-IsValid : (rs : List String) (f : Formula) → IsValid f → IsValid (havoc_all rs f)
unfolding havoc_all havoc_region
havoc_all-IsValid [] f h = h
havoc_all-IsValid (r ∷ rs) f h = havoc_all-IsValid rs (havoc_region r f) (
    if_kept (formula_mentions_region r f) (havoc_mentioned r f) f (havoc_mentioned-IsValid r f h) h)

-- The effect's terms and formulas have the sorts that their places ask for.
abbrev pub IsSortedEffect : TransferEffect → Type 0
IsSortedEffect (assign target (term e)) = IsSorted e target.sort
IsSortedEffect (assign target (predicate p)) = IsValid p
IsSortedEffect (memory_store r offset v) = integral_pair (sort_of offset) (sort_of v) ≡ answer tt
IsSortedEffect (assume c) = IsValid c
IsSortedEffect (obligation c) = IsValid c
IsSortedEffect _ = Unit

abbrev pub AreSortedEffects : TransferFn → Type 0
AreSortedEffects [] = Unit
AreSortedEffects (e ∷ es) = IsSortedEffect e × AreSortedEffects es

wp_one-IsValid :
    (e : TransferEffect) (f : Formula) → IsSortedEffect e → IsValid f → IsValid (wp_one e f)
unfolding wp_one sort_of
wp_one-IsValid (havoc_regions rs) f s h = havoc_all-IsValid rs f h
wp_one-IsValid (assign target (term e)) f s h = substitute_var-IsValid target e s f h
wp_one-IsValid (assign target (predicate p)) f s h = bool_kept target p s f h
wp_one-IsValid (assume c) f s h = mk_and-IsValid c f s h
wp_one-IsValid (obligation c) f s h = mk_and-IsValid c f s h
wp_one-IsValid (memory_store r offset v) f s h =
    substitute_region-IsValid r (store (region r) offset v)
      (then_check-both (answer tt) (integral_pair (sort_of offset) (sort_of v)) refl s) f h
wp_one-IsValid _ f s h = h

-- If the terms and formulas of a block have the sorts that its effects ask for, then the weakest
-- precondition of a formula that passes validation passes it too.
pub wp-IsValid :
    (es : TransferFn) (f : Formula) → AreSortedEffects es → IsValid f → IsValid (wp es f)
unfolding wp
wp-IsValid [] f s h = h
wp-IsValid (e ∷ es) f (s, ss) h = wp_one-IsValid e (wp es f) s (wp-IsValid es f ss h)
