-- ===== src/Cfg/Mention.antt =====
-- src/cfg/abstract_cfg.rs: which regions a formula reads.
use may_must_rs.Base.{Bool, String, String-discrete, false, test, ◌||◌}
use may_must_rs.Formula.Data.{
  Formula, Formulas, Memory, Term, add, and, bool_to_int, cons, div, eq, falsum, ge, gt, implies,
  int_lit, le, lt, memory_eq, mul, neg, nil, not, or, prop, real_lit, region, rem, select, store,
  sub, var, verum,
}

-- formula_mentions_region, term_mentions_region and memory_mentions_region.
unfoldable mutual
  pub formula_mentions_region : String → Formula → Bool
  formula_mentions_region target verum = false
  formula_mentions_region target falsum = false
  formula_mentions_region target (prop v) = false
  formula_mentions_region target (not g) = formula_mentions_region target g
  formula_mentions_region target (and items) = items_mention_region target items
  formula_mentions_region target (or items) = items_mention_region target items
  formula_mentions_region target (implies lhs rhs) =
      formula_mentions_region target lhs || formula_mentions_region target rhs
  formula_mentions_region target (eq lhs rhs) =
      term_mentions_region target lhs || term_mentions_region target rhs
  formula_mentions_region target (lt lhs rhs) =
      term_mentions_region target lhs || term_mentions_region target rhs
  formula_mentions_region target (le lhs rhs) =
      term_mentions_region target lhs || term_mentions_region target rhs
  formula_mentions_region target (gt lhs rhs) =
      term_mentions_region target lhs || term_mentions_region target rhs
  formula_mentions_region target (ge lhs rhs) =
      term_mentions_region target lhs || term_mentions_region target rhs
  formula_mentions_region target (memory_eq lhs rhs) =
      memory_mentions_region target lhs || memory_mentions_region target rhs

  pub items_mention_region : String → Formulas → Bool
  items_mention_region target nil = false
  items_mention_region target (cons item items) =
      formula_mentions_region target item || items_mention_region target items

  pub term_mentions_region : String → Term → Bool
  term_mentions_region target (var v) = false
  term_mentions_region target (int_lit k) = false
  term_mentions_region target (real_lit q) = false
  term_mentions_region target (bool_to_int g) = formula_mentions_region target g
  term_mentions_region target (select b i) =
      memory_mentions_region target b || term_mentions_region target i
  term_mentions_region target (add lhs rhs) =
      term_mentions_region target lhs || term_mentions_region target rhs
  term_mentions_region target (sub lhs rhs) =
      term_mentions_region target lhs || term_mentions_region target rhs
  term_mentions_region target (mul lhs rhs) =
      term_mentions_region target lhs || term_mentions_region target rhs
  term_mentions_region target (div lhs rhs) =
      term_mentions_region target lhs || term_mentions_region target rhs
  term_mentions_region target (rem lhs rhs) =
      term_mentions_region target lhs || term_mentions_region target rhs
  term_mentions_region target (neg e) = term_mentions_region target e

  pub memory_mentions_region : String → Memory → Bool
  memory_mentions_region target (region name) = test (String-discrete name target)
  memory_mentions_region target (store b i v) =
      memory_mentions_region target b
      || term_mentions_region target i
      || term_mentions_region target v
