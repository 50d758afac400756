-- ===== src/Formula/Meaning.antt =====
-- src/formula/mod.rs: the meaning of simplified formulas.
use may_must_rs.Base.{
  Bool, Option, arith, bool_not, false, none, refl, some, test_iff, true, ◌&&◌, ◌||◌, ◌↔◌, ◌∙◌, ◌≡◌,
}
use may_must_rs.Formula.Build.{
  contains, finish_and, finish_or, flatten_and, flatten_or, mk_and, mk_and_many, mk_iff, mk_implies,
  mk_or, mk_or_many, push, push_all, push_new, simplify, simplify_implies,
}
use may_must_rs.Formula.Data.{
  Formula, Formula-discrete, Formulas, and, cons, falsum, implies, nil, or, verum,
}
use may_must_rs.Formula.Theory.{State, Theory, all_hold, holds, some_holds}

module _ (T : Theory) (s : State T) where
  -- An item that the list has adds nothing to the conjunction.
  all_hold-contains :
      (xs : Formulas) (x : Formula)
      → contains xs x ≡ true
      → (all_hold T s xs && holds T s x) ≡ all_hold T s xs
  unfolding contains holds
  all_hold-contains nil x h = ground arith
  all_hold-contains (cons y ys) x h =
      ground (arith, test_iff (Formula-discrete y x), all_hold-contains ys x)

  some_holds-contains :
      (xs : Formulas) (x : Formula)
      → contains xs x ≡ true
      → (some_holds T s xs || holds T s x) ≡ some_holds T s xs
  unfolding contains holds
  some_holds-contains nil x h = ground arith
  some_holds-contains (cons y ys) x h =
      ground (arith, test_iff (Formula-discrete y x), some_holds-contains ys x)

  all_hold-push :
      (xs : Formulas) (x : Formula) → all_hold T s (push xs x) ≡ (all_hold T s xs && holds T s x)
  unfolding push holds
  all_hold-push nil x = ground arith
  all_hold-push (cons y ys) x = ground (arith, all_hold-push ys x)

  some_holds-push :
      (xs : Formulas) (x : Formula)
      → some_holds T s (push xs x) ≡ (some_holds T s xs || holds T s x)
  unfolding push holds
  some_holds-push nil x = ground arith
  some_holds-push (cons y ys) x = ground (arith, some_holds-push ys x)

  all_hold-push_new :
      (xs : Formulas) (x : Formula)
      → all_hold T s (push_new xs x) ≡ (all_hold T s xs && holds T s x)
  unfolding push_new
  all_hold-push_new xs x = ground (arith, all_hold-contains xs x, all_hold-push xs x)

  some_holds-push_new :
      (xs : Formulas) (x : Formula)
      → some_holds T s (push_new xs x) ≡ (some_holds T s xs || holds T s x)
  unfolding push_new
  some_holds-push_new xs x = ground (arith, some_holds-contains xs x, some_holds-push xs x)

  all_hold-push_all :
      (xs ys : Formulas) → all_hold T s (push_all xs ys) ≡ (all_hold T s xs && all_hold T s ys)
  unfolding push_all holds
  all_hold-push_all xs nil = ground arith
  all_hold-push_all xs (cons y ys) =
      ground (arith, all_hold-push_all (push_new xs y) ys, all_hold-push_new xs y)

  some_holds-push_all :
      (xs ys : Formulas)
      → some_holds T s (push_all xs ys) ≡ (some_holds T s xs || some_holds T s ys)
  unfolding push_all holds
  some_holds-push_all xs nil = ground arith
  some_holds-push_all xs (cons y ys) =
      ground (arith, some_holds-push_all (push_new xs y) ys, some_holds-push_new xs y)

  abbrev all_of : Option Formulas → Bool
  all_of none = false
  all_of (some xs) = all_hold T s xs

  abbrev some_of : Option Formulas → Bool
  some_of none = true
  some_of (some xs) = some_holds T s xs

  all_of-flatten_and :
      (flat xs : Formulas) → all_of (flatten_and flat xs) ≡ (all_hold T s flat && all_hold T s xs)
  unfolding flatten_and holds
  all_of-flatten_and flat nil = ground arith
  all_of-flatten_and flat (cons verum xs) = ground (arith, all_of-flatten_and flat xs)
  all_of-flatten_and flat (cons falsum xs) = ground arith
  all_of-flatten_and flat (cons (and ys) xs) =
      ground (arith, all_of-flatten_and (push_all flat ys) xs, all_hold-push_all flat ys)
  all_of-flatten_and flat (cons x xs) =
      ground (arith, all_of-flatten_and (push_new flat x) xs, all_hold-push_new flat x)

  some_of-flatten_or :
      (flat xs : Formulas)
      → some_of (flatten_or flat xs) ≡ (some_holds T s flat || some_holds T s xs)
  unfolding flatten_or holds
  some_of-flatten_or flat nil = ground arith
  some_of-flatten_or flat (cons falsum xs) = ground (arith, some_of-flatten_or flat xs)
  some_of-flatten_or flat (cons verum xs) = ground arith
  some_of-flatten_or flat (cons (or ys) xs) =
      ground (arith, some_of-flatten_or (push_all flat ys) xs, some_holds-push_all flat ys)
  some_of-flatten_or flat (cons x xs) =
      ground (arith, some_of-flatten_or (push_new flat x) xs, some_holds-push_new flat x)

  holds-finish_and : (o : Option Formulas) → holds T s (finish_and o) ≡ all_of o
  unfolding finish_and holds
  holds-finish_and none = refl
  holds-finish_and (some nil) = refl
  holds-finish_and (some (cons x nil)) = ground arith
  holds-finish_and (some (cons x (cons y ys))) = refl

  holds-finish_or : (o : Option Formulas) → holds T s (finish_or o) ≡ some_of o
  unfolding finish_or holds
  holds-finish_or none = refl
  holds-finish_or (some nil) = refl
  holds-finish_or (some (cons x nil)) = ground arith
  holds-finish_or (some (cons x (cons y ys))) = refl

  holds-simplify_implies :
      (f g : Formula) → holds T s (simplify_implies f g) ≡ holds T s (implies f g)
  unfolding simplify_implies holds
  holds-simplify_implies f g = ground arith

  -- `simplify` changes no formula's truth value, in any structure and any state.
  pub holds-simplify : (f : Formula) → holds T s (simplify f) ≡ holds T s f
  unfolding simplify holds
  holds-simplify (and xs) = holds-finish_and (flatten_and nil xs) ∙ all_of-flatten_and nil xs
  holds-simplify (or xs) = holds-finish_or (flatten_or nil xs) ∙ some_of-flatten_or nil xs
  holds-simplify (implies f g) = holds-simplify_implies f g
  holds-simplify _ = refl

  pub holds-mk_and_many : (xs : Formulas) → holds T s (mk_and_many xs) ≡ all_hold T s xs
  unfolding mk_and_many holds
  holds-mk_and_many xs = holds-simplify (and xs)

  pub holds-mk_or_many : (xs : Formulas) → holds T s (mk_or_many xs) ≡ some_holds T s xs
  unfolding mk_or_many holds
  holds-mk_or_many xs = holds-simplify (or xs)

  pub holds-mk_and : (f g : Formula) → holds T s (mk_and f g) ≡ (holds T s f && holds T s g)
  unfolding mk_and holds
  holds-mk_and f g = ground (arith, holds-simplify (and (cons f (cons g nil))))

  pub holds-mk_or : (f g : Formula) → holds T s (mk_or f g) ≡ (holds T s f || holds T s g)
  unfolding mk_or holds
  holds-mk_or f g = ground (arith, holds-simplify (or (cons f (cons g nil))))

  pub holds-mk_implies :
      (f g : Formula) → holds T s (mk_implies f g) ≡ (bool_not (holds T s f) || holds T s g)
  unfolding mk_implies holds
  holds-mk_implies f g = holds-simplify (implies f g)

  -- In every structure and state, `mk_iff f g` holds exactly where `f` and `g` have one truth value.
  pub holds-mk_iff : (f g : Formula) → (holds T s (mk_iff f g) ≡ true) ↔ (holds T s f ≡ holds T s g)
  unfolding mk_iff
  holds-mk_iff f g = ground (
    arith,
    holds-mk_and (mk_implies f g) (mk_implies g f),
    holds-mk_implies f g,
    holds-mk_implies g f,
  )
