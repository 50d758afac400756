-- ===== src/Formula/Occurs.antt =====
-- Where a variable or a region occurs, as the statements about assignments need it, and the
-- fact that a formula does not depend on what does not occur in it.
use may_must_rs.Base.{Bool, String, ap, ap₂, arith, bool_not, false, refl, ◌&&◌, ◌||◌, ◌≡◌}
use may_must_rs.Formula.Data.{
  Formula, Formulas, Memory, Term, Var, add, and, bool_to_int, cons, div, eq, falsum, ge, gt,
  implies, int_lit, le, lt, memory_eq, mul, neg, nil, not, or, prop, real_lit, region, rem, select,
  store, sub, var, verum,
}
use may_must_rs.Formula.Theory.{State, Theory, all_hold, contents, holds, some_holds, value}

unfoldable mutual
  pub occurs : (Var → Bool) → (Var → Bool) → (String → Bool) → Formula → Bool
  occurs n p r verum = false
  occurs n p r falsum = false
  occurs n p r (prop v) = p v
  occurs n p r (not g) = occurs n p r g
  occurs n p r (and items) = occurs_items n p r items
  occurs n p r (or items) = occurs_items n p r items
  occurs n p r (implies lhs rhs) = occurs n p r lhs || occurs n p r rhs
  occurs n p r (eq lhs rhs) = occurs_term n p r lhs || occurs_term n p r rhs
  occurs n p r (lt lhs rhs) = occurs_term n p r lhs || occurs_term n p r rhs
  occurs n p r (le lhs rhs) = occurs_term n p r lhs || occurs_term n p r rhs
  occurs n p r (gt lhs rhs) = occurs_term n p r lhs || occurs_term n p r rhs
  occurs n p r (ge lhs rhs) = occurs_term n p r lhs || occurs_term n p r rhs
  occurs n p r (memory_eq lhs rhs) = occurs_memory n p r lhs || occurs_memory n p r rhs

  pub occurs_items : (Var → Bool) → (Var → Bool) → (String → Bool) → Formulas → Bool
  occurs_items n p r nil = false
  occurs_items n p r (cons item items) = occurs n p r item || occurs_items n p r items

  pub occurs_term : (Var → Bool) → (Var → Bool) → (String → Bool) → Term → Bool
  occurs_term n p r (var v) = n v
  occurs_term n p r (int_lit k) = false
  occurs_term n p r (real_lit q) = false
  occurs_term n p r (bool_to_int g) = occurs n p r g
  occurs_term n p r (select b i) = occurs_memory n p r b || occurs_term n p r i
  occurs_term n p r (add lhs rhs) = occurs_term n p r lhs || occurs_term n p r rhs
  occurs_term n p r (sub lhs rhs) = occurs_term n p r lhs || occurs_term n p r rhs
  occurs_term n p r (mul lhs rhs) = occurs_term n p r lhs || occurs_term n p r rhs
  occurs_term n p r (div lhs rhs) = occurs_term n p r lhs || occurs_term n p r rhs
  occurs_term n p r (rem lhs rhs) = occurs_term n p r lhs || occurs_term n p r rhs
  occurs_term n p r (neg e) = occurs_term n p r e

  pub occurs_memory : (Var → Bool) → (Var → Bool) → (String → Bool) → Memory → Bool
  occurs_memory n p r (region name) = r name
  occurs_memory n p r (store b i v) =
      occurs_memory n p r b || occurs_term n p r i || occurs_term n p r v

pub left : (a b : Bool) → (a || b) ≡ false → a ≡ false
left a b h = ground arith

pub right : (a b : Bool) → (a || b) ≡ false → b ≡ false
right a b h = ground arith

-- Two states agree outside three sets of names.
pub record Agree (T : Theory) (n p : Var → Bool) (r : String → Bool) (s t : State T) : Type 0 where
  pub numbers : (v : Var) → n v ≡ false → s.number v ≡ t.number v
  pub truths : (v : Var) → p v ≡ false → s.truth v ≡ t.truth v
  pub memories : (x : String) → r x ≡ false → s.memory x ≡ t.memory x

module _ (T : Theory) (n p : Var → Bool) (r : String → Bool) (s s2 : State T)
    (h0 : Agree T n p r s s2) where
  mutual
    unfolding occurs holds

    ag : (g : Formula) → occurs n p r g ≡ false → holds T s g ≡ holds T s2 g
    ag verum h = refl
    ag falsum h = refl
    ag (prop v) h = h0.truths v h
    ag (not g) h = ap bool_not (ag g h)
    ag (and items) h = ag_all items h
    ag (or items) h = ag_some items h
    ag (implies lhs rhs) h =
        ap₂ (λ x y. bool_not x || y) (ag lhs (left _ _ h)) (ag rhs (right _ _ h))
    ag (eq lhs rhs) h =
        ap₂ (λ x y. T.same x y) (ag_term lhs (left _ _ h)) (ag_term rhs (right _ _ h))
    ag (lt lhs rhs) h =
        ap₂ (λ x y. T.below x y) (ag_term lhs (left _ _ h)) (ag_term rhs (right _ _ h))
    ag (le lhs rhs) h =
        ap₂ (λ x y. T.at_most x y) (ag_term lhs (left _ _ h)) (ag_term rhs (right _ _ h))
    ag (gt lhs rhs) h =
        ap₂ (λ x y. T.below y x) (ag_term lhs (left _ _ h)) (ag_term rhs (right _ _ h))
    ag (ge lhs rhs) h =
        ap₂ (λ x y. T.at_most y x) (ag_term lhs (left _ _ h)) (ag_term rhs (right _ _ h))
    ag (memory_eq lhs rhs) h =
        ap₂ T.same_array (ag_memory lhs (left _ _ h)) (ag_memory rhs (right _ _ h))

    ag_all :
        (items : Formulas)
        → occurs_items n p r items ≡ false
        → all_hold T s items ≡ all_hold T s2 items
    ag_all nil h = refl
    ag_all (cons item items) h = ap₂ ◌&&◌ (ag item (left _ _ h)) (ag_all items (right _ _ h))

    ag_some :
        (items : Formulas)
        → occurs_items n p r items ≡ false
        → some_holds T s items ≡ some_holds T s2 items
    ag_some nil h = refl
    ag_some (cons item items) h = ap₂ ◌||◌ (ag item (left _ _ h)) (ag_some items (right _ _ h))

    ag_term : (e : Term) → occurs_term n p r e ≡ false → value T s e ≡ value T s2 e
    ag_term (var v) h = h0.numbers v h
    ag_term (int_lit q) h = refl
    ag_term (real_lit q) h = refl
    ag_term (bool_to_int g) h = ap T.of_bool (ag g h)
    ag_term (select b i) h = ap₂ T.read (ag_memory b (left _ _ h)) (ag_term i (right _ _ h))
    ag_term (add lhs rhs) h = ap₂ T.plus (ag_term lhs (left _ _ h)) (ag_term rhs (right _ _ h))
    ag_term (sub lhs rhs) h = ap₂ T.minus (ag_term lhs (left _ _ h)) (ag_term rhs (right _ _ h))
    ag_term (mul lhs rhs) h = ap₂ T.times (ag_term lhs (left _ _ h)) (ag_term rhs (right _ _ h))
    ag_term (div lhs rhs) h = ap₂ T.quotient (ag_term lhs (left _ _ h)) (ag_term rhs (right _ _ h))
    ag_term (rem lhs rhs) h = ap₂ T.remainder (ag_term lhs (left _ _ h)) (ag_term rhs (right _ _ h))
    ag_term (neg e) h = ap T.negate (ag_term e h)

    ag_memory : (b : Memory) → occurs_memory n p r b ≡ false → contents T s b ≡ contents T s2 b
    ag_memory (region name) h = h0.memories name h
    ag_memory (store b i v) h = λ j.
        T.write (ag_memory b (left _ _ (left _ _ h)) j) (ag_term i (right _ _ (left _ _ h)) j)
          (ag_term v (right _ _ h) j)

-- States that agree on all that occurs in a formula give it the same truth value.
pub holds-Agree :
    (T : Theory) (n p : Var → Bool) (r : String → Bool) (s t : State T)
    → Agree T n p r s t
    → (f : Formula) → occurs n p r f ≡ false
    → holds T s f ≡ holds T t f
holds-Agree T n p r s t a f h = ag T n p r s t a f h

pub value-Agree :
    (T : Theory) (n p : Var → Bool) (r : String → Bool) (s t : State T)
    → Agree T n p r s t
    → (e : Term) → occurs_term n p r e ≡ false
    → value T s e ≡ value T t e
value-Agree T n p r s t a e h = ag_term T n p r s t a e h

pub contents-Agree :
    (T : Theory) (n p : Var → Bool) (r : String → Bool) (s t : State T)
    → Agree T n p r s t
    → (b : Memory) → occurs_memory n p r b ≡ false
    → contents T s b ≡ contents T t b
contents-Agree T n p r s t a b h = ag_memory T n p r s t a b h

-- Nothing.
abbrev pub nowhere {ℓ} : {A : Type ℓ} → A → Bool
nowhere _ = false
