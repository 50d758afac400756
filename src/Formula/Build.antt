-- ===== src/Formula/Build.antt =====
-- src/formula/mod.rs: `Formula::simplify` and the constructors that call it.
use may_must_rs.Base.{Bool, Option, false, if◌then◌else◌, none, some, test, ◌||◌}
use may_must_rs.Formula.Data.{
  Formula, Formula-discrete, Formulas, and, cons, falsum, implies, nil, or, verum,
}

-- `Vec::contains`.
unfoldable pub contains : Formulas → Formula → Bool
contains nil item = false
contains (cons x xs) item = test (Formula-discrete x item) || contains xs item

-- `Vec::push`.
unfoldable pub push : Formulas → Formula → Formulas
push nil item = cons item nil
push (cons x xs) item = cons x (push xs item)

-- `if !flat.contains(&item) { flat.push(item) }`
unfoldable pub push_new : Formulas → Formula → Formulas
push_new flat item = if contains flat item then flat else push flat item

-- The loop over the items of a nested list.
unfoldable pub push_all : Formulas → Formulas → Formulas
push_all flat nil = flat
push_all flat (cons item inner) = push_all (push_new flat item) inner

-- The loop of the `And` arm; `none` is its early return of False.
unfoldable pub flatten_and : Formulas → Formulas → Option Formulas
flatten_and flat nil = some flat
flatten_and flat (cons verum items) = flatten_and flat items
flatten_and flat (cons falsum items) = none
flatten_and flat (cons (and inner) items) = flatten_and (push_all flat inner) items
flatten_and flat (cons item items) = flatten_and (push_new flat item) items

unfoldable pub finish_and : Option Formulas → Formula
finish_and none = falsum
finish_and (some nil) = verum
finish_and (some (cons item nil)) = item
finish_and (some (cons item (cons next rest))) = and (cons item (cons next rest))

-- The loop of the `Or` arm; `none` is its early return of True.
unfoldable pub flatten_or : Formulas → Formulas → Option Formulas
flatten_or flat nil = some flat
flatten_or flat (cons falsum items) = flatten_or flat items
flatten_or flat (cons verum items) = none
flatten_or flat (cons (or inner) items) = flatten_or (push_all flat inner) items
flatten_or flat (cons item items) = flatten_or (push_new flat item) items

unfoldable pub finish_or : Option Formulas → Formula
finish_or none = verum
finish_or (some nil) = falsum
finish_or (some (cons item nil)) = item
finish_or (some (cons item (cons next rest))) = or (cons item (cons next rest))

-- The `Implies` arm: the test `lhs == False || rhs == True` comes first.
unfoldable pub simplify_implies : Formula → Formula → Formula
simplify_implies falsum rhs = verum
simplify_implies lhs verum = verum
simplify_implies verum rhs = rhs
simplify_implies lhs rhs = implies lhs rhs

unfoldable pub simplify : Formula → Formula
unfolding flatten_and finish_and flatten_or finish_or simplify_implies push_all push_new contains
    push
simplify (and items) = finish_and (flatten_and nil items)
simplify (or items) = finish_or (flatten_or nil items)
simplify (implies lhs rhs) = simplify_implies lhs rhs
simplify other = other

unfoldable pub mk_and : Formula → Formula → Formula
mk_and lhs rhs = simplify (and (cons lhs (cons rhs nil)))

unfoldable pub mk_and_many : Formulas → Formula
mk_and_many items = simplify (and items)

unfoldable pub mk_or : Formula → Formula → Formula
mk_or lhs rhs = simplify (or (cons lhs (cons rhs nil)))

unfoldable pub mk_or_many : Formulas → Formula
mk_or_many items = simplify (or items)

unfoldable pub mk_implies : Formula → Formula → Formula
mk_implies lhs rhs = simplify (implies lhs rhs)

unfoldable pub mk_iff : Formula → Formula → Formula
mk_iff lhs rhs = mk_and (mk_implies lhs rhs) (mk_implies rhs lhs)
