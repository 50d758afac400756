-- ===== src/Cfg/MentionLaws.antt =====
-- src/cfg/abstract_cfg.rs: the meaning of the test for a region's occurrence.
use may_must_rs.Base.{Bool, String, String-discrete, ap₂, false, refl, sym, test, ◌||◌, ◌∙◌, ◌≡◌}
use may_must_rs.Cfg.Mention.{
  formula_mentions_region, items_mention_region, memory_mentions_region, term_mentions_region,
}
use may_must_rs.Formula.Data.{
  Formula, Formulas, Memory, Term, add, and, bool_to_int, cons, div, eq, falsum, ge, gt, implies,
  int_lit, le, lt, memory_eq, mul, neg, nil, not, or, prop, real_lit, region, rem, select, store,
  sub, var, verum,
}
use may_must_rs.Formula.Occurs.{
  Agree, holds-Agree, nowhere, occurs, occurs_items, occurs_memory, occurs_term,
}
use may_must_rs.Formula.Theory.{State, Theory, holds, set_memory}

module _ (target : String) where
  abbrev here : String → Bool
  here name = test (String-discrete name target)

  mutual
    unfolding formula_mentions_region occurs

    mention : (f : Formula) → formula_mentions_region target f ≡ occurs nowhere nowhere here f
    mention verum = refl
    mention falsum = refl
    mention (prop v) = refl
    mention (not g) = mention g
    mention (and items) = mention_items items
    mention (or items) = mention_items items
    mention (implies lhs rhs) = ap₂ ◌||◌ (mention lhs) (mention rhs)
    mention (eq lhs rhs) = ap₂ ◌||◌ (mention_term lhs) (mention_term rhs)
    mention (lt lhs rhs) = ap₂ ◌||◌ (mention_term lhs) (mention_term rhs)
    mention (le lhs rhs) = ap₂ ◌||◌ (mention_term lhs) (mention_term rhs)
    mention (gt lhs rhs) = ap₂ ◌||◌ (mention_term lhs) (mention_term rhs)
    mention (ge lhs rhs) = ap₂ ◌||◌ (mention_term lhs) (mention_term rhs)
    mention (memory_eq lhs rhs) = ap₂ ◌||◌ (mention_memory lhs) (mention_memory rhs)

    mention_items :
        (fs : Formulas) → items_mention_region target fs ≡ occurs_items nowhere nowhere here fs
    mention_items nil = refl
    mention_items (cons item items) = ap₂ ◌||◌ (mention item) (mention_items items)

    mention_term : (e : Term) → term_mentions_region target e ≡ occurs_term nowhere nowhere here e
    mention_term (var v) = refl
    mention_term (int_lit k) = refl
    mention_term (real_lit q) = refl
    mention_term (bool_to_int g) = mention g
    mention_term (select b i) = ap₂ ◌||◌ (mention_memory b) (mention_term i)
    mention_term (add lhs rhs) = ap₂ ◌||◌ (mention_term lhs) (mention_term rhs)
    mention_term (sub lhs rhs) = ap₂ ◌||◌ (mention_term lhs) (mention_term rhs)
    mention_term (mul lhs rhs) = ap₂ ◌||◌ (mention_term lhs) (mention_term rhs)
    mention_term (div lhs rhs) = ap₂ ◌||◌ (mention_term lhs) (mention_term rhs)
    mention_term (rem lhs rhs) = ap₂ ◌||◌ (mention_term lhs) (mention_term rhs)
    mention_term (neg e) = mention_term e

    mention_memory :
        (b : Memory) → memory_mentions_region target b ≡ occurs_memory nowhere nowhere here b
    mention_memory (region name) = refl
    mention_memory (store b i v) =
        ap₂ ◌||◌ (ap₂ ◌||◌ (mention_memory b) (mention_term i)) (mention_term v)

module _ {T : Theory} (s : State T) (target : String) (a : T.Array) where
  Agree-set_memory : Agree T nowhere nowhere (here target) s (set_memory s target a)
  unfolding set_memory
  Agree-set_memory = record { numbers = λ v h. refl; truths = λ v h. refl; memories = λ x h. rw h }

  -- Whatever a region that a formula does not mention is changed to, the formula keeps its truth.
  pub holds-not_mentioned :
      (f : Formula)
      → formula_mentions_region target f ≡ false
      → holds T (set_memory s target a) f ≡ holds T s f
  holds-not_mentioned f h = sym (
      holds-Agree T nowhere nowhere (here target) s (set_memory s target a) Agree-set_memory f
        (sym (mention target f) ∙ h))
