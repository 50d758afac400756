-- ===== src/Formula/SortsKept.antt =====
-- src/formula/mod.rs and src/cfg/abstract_cfg.rs: simplification and substitution keep sorts.
use may_must_rs.Base.{Bool, Option, false, if◌then◌else◌, none, refl, some, true, ◌≡◌}
use may_must_rs.Formula.Build.{
  contains, finish_and, finish_or, flatten_and, flatten_or, mk_and, mk_and_many, mk_implies,
  mk_or_many, push, push_all, push_new, simplify, simplify_implies,
}
use may_must_rs.Formula.Data.{Formula, Formulas, and, cons, falsum, implies, nil, or, verum}
use may_must_rs.Formula.SortLaws.{AreValid, IsValid, then_check-answer}
use may_must_rs.Formula.Sorts.{Check, sort_of, then_check, validate, validate_items}
use may_must_rs.Smt.Oracle.{answer}

pub then_check-both : (a b : Check) → a ≡ answer tt → b ≡ answer tt → then_check a b ≡ answer tt
unfolding then_check
then_check-both a b h k = rw (h, then_check) k

push-AreValid : (xs : Formulas) (x : Formula) → AreValid xs → IsValid x → AreValid (push xs x)
unfolding push sort_of
push-AreValid nil x h k = then_check-both (validate x) (answer tt) k refl
push-AreValid (cons y ys) x h k =
    let (a, b) = then_check-answer (validate y) (validate_items ys) h in
    then_check-both (validate y) (validate_items (push ys x)) a (push-AreValid ys x b k)

push_new-AreValid :
    (xs : Formulas) (x : Formula) → AreValid xs → IsValid x → AreValid (push_new xs x)
unfolding push_new
push_new-AreValid xs x h k = either (contains xs x)
  where
    either : (b : Bool) → AreValid (if b then xs else push xs x)
    either true = h
    either false = push-AreValid xs x h k

push_all-AreValid : (xs ys : Formulas) → AreValid xs → AreValid ys → AreValid (push_all xs ys)
unfolding push_all sort_of
push_all-AreValid xs nil h k = h
push_all-AreValid xs (cons y ys) h k =
    let (a, b) = then_check-answer (validate y) (validate_items ys) k in
    push_all-AreValid (push_new xs y) ys (push_new-AreValid xs y h a) b

-- What the loop leaves, if it leaves a list.
abbrev IsValidRest : Option Formulas → Type 0
IsValidRest none = Unit
IsValidRest (some fs) = AreValid fs

flatten_and-IsValidRest :
    (flat items : Formulas) → AreValid flat → AreValid items → IsValidRest (flatten_and flat items)
unfolding flatten_and sort_of
flatten_and-IsValidRest flat nil h k = h
flatten_and-IsValidRest flat (cons verum items) h k = flatten_and-IsValidRest flat items h k
flatten_and-IsValidRest flat (cons falsum items) h k = tt
flatten_and-IsValidRest flat (cons (and inner) items) h k =
    let (a, b) = then_check-answer (validate_items inner) (validate_items items) k in
    flatten_and-IsValidRest (push_all flat inner) items (push_all-AreValid flat inner h a) b
flatten_and-IsValidRest flat (cons item items) h k =
    let (a, b) = then_check-answer (validate item) (validate_items items) k in
    flatten_and-IsValidRest (push_new flat item) items (push_new-AreValid flat item h a) b

flatten_or-IsValidRest :
    (flat items : Formulas) → AreValid flat → AreValid items → IsValidRest (flatten_or flat items)
unfolding flatten_or sort_of
flatten_or-IsValidRest flat nil h k = h
flatten_or-IsValidRest flat (cons falsum items) h k = flatten_or-IsValidRest flat items h k
flatten_or-IsValidRest flat (cons verum items) h k = tt
flatten_or-IsValidRest flat (cons (or inner) items) h k =
    let (a, b) = then_check-answer (validate_items inner) (validate_items items) k in
    flatten_or-IsValidRest (push_all flat inner) items (push_all-AreValid flat inner h a) b
flatten_or-IsValidRest flat (cons item items) h k =
    let (a, b) = then_check-answer (validate item) (validate_items items) k in
    flatten_or-IsValidRest (push_new flat item) items (push_new-AreValid flat item h a) b

finish_and-IsValid : (o : Option Formulas) → IsValidRest o → IsValid (finish_and o)
unfolding finish_and sort_of
finish_and-IsValid none h = refl
finish_and-IsValid (some nil) h = refl
finish_and-IsValid (some (cons item nil)) h = (then_check-answer (validate item) (answer tt) h).0
finish_and-IsValid (some (cons item (cons next rest))) h = h

finish_or-IsValid : (o : Option Formulas) → IsValidRest o → IsValid (finish_or o)
unfolding finish_or sort_of
finish_or-IsValid none h = refl
finish_or-IsValid (some nil) h = refl
finish_or-IsValid (some (cons item nil)) h = (then_check-answer (validate item) (answer tt) h).0
finish_or-IsValid (some (cons item (cons next rest))) h = h

simplify_implies-IsValid : (f g : Formula) → IsValid f → IsValid g → IsValid (simplify_implies f g)
unfolding simplify_implies sort_of
simplify_implies-IsValid falsum g h k = refl
simplify_implies-IsValid f verum h k = refl
simplify_implies-IsValid verum g h k = k
simplify_implies-IsValid f g h k = then_check-both (validate f) (validate g) h k

-- A formula that passes validation still passes it when it is simplified.
pub simplify-IsValid : (f : Formula) → IsValid f → IsValid (simplify f)
unfolding simplify sort_of
simplify-IsValid (and items) h =
    finish_and-IsValid (flatten_and nil items) (flatten_and-IsValidRest nil items refl h)
simplify-IsValid (or items) h =
    finish_or-IsValid (flatten_or nil items) (flatten_or-IsValidRest nil items refl h)
simplify-IsValid (implies f g) h =
    let (a, b) = then_check-answer (validate f) (validate g) h in simplify_implies-IsValid f g a b
simplify-IsValid f h = h

pub mk_and_many-IsValid : (fs : Formulas) → AreValid fs → IsValid (mk_and_many fs)
unfolding mk_and_many sort_of
mk_and_many-IsValid fs h = simplify-IsValid (and fs) h

pub mk_or_many-IsValid : (fs : Formulas) → AreValid fs → IsValid (mk_or_many fs)
unfolding mk_or_many sort_of
mk_or_many-IsValid fs h = simplify-IsValid (or fs) h

pub mk_implies-IsValid : (f g : Formula) → IsValid f → IsValid g → IsValid (mk_implies f g)
unfolding mk_implies simplify
mk_implies-IsValid f g h k = simplify_implies-IsValid f g h k

pub mk_and-IsValid : (f g : Formula) → IsValid f → IsValid g → IsValid (mk_and f g)
unfolding mk_and sort_of
mk_and-IsValid f g h k = simplify-IsValid (and (cons f (cons g nil))) (
    then_check-both (validate f) (then_check (validate g) (answer tt)) h
      (then_check-both (validate g) (answer tt) k refl))
