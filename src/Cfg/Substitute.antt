-- ===== src/Cfg/Substitute.antt =====
-- src/cfg/abstract_cfg.rs: the substitutions on which the weakest precondition stands.
use may_must_rs.Base.{String, String-discrete, if◌then◌else◌, test}
use may_must_rs.Formula.Build.{mk_and_many, mk_implies, mk_or_many}
use may_must_rs.Formula.Data.{
  Formula, Formulas, Memory, Term, Var, Var-discrete, add, and, bool_to_int, cons, div, eq, falsum,
  ge, gt, implies, int_lit, le, lt, memory_eq, mul, neg, nil, not, or, prop, real_lit, region, rem,
  select, store, sub, var, verum,
}

-- substitute_var_in_formula, _term and _memory: `r` for the numeric variable `target`.
unfoldable mutual
  pub substitute_var : Var → Term → Formula → Formula
  substitute_var target r verum = verum
  substitute_var target r falsum = falsum
  substitute_var target r (prop v) = prop v
  substitute_var target r (not g) = not (substitute_var target r g)
  substitute_var target r (and items) = mk_and_many (substitute_var_items target r items)
  substitute_var target r (or items) = mk_or_many (substitute_var_items target r items)
  substitute_var target r (implies lhs rhs) =
      mk_implies (substitute_var target r lhs) (substitute_var target r rhs)
  substitute_var target r (eq lhs rhs) =
      eq (substitute_var_term target r lhs) (substitute_var_term target r rhs)
  substitute_var target r (lt lhs rhs) =
      lt (substitute_var_term target r lhs) (substitute_var_term target r rhs)
  substitute_var target r (le lhs rhs) =
      le (substitute_var_term target r lhs) (substitute_var_term target r rhs)
  substitute_var target r (gt lhs rhs) =
      gt (substitute_var_term target r lhs) (substitute_var_term target r rhs)
  substitute_var target r (ge lhs rhs) =
      ge (substitute_var_term target r lhs) (substitute_var_term target r rhs)
  substitute_var target r (memory_eq lhs rhs) =
      memory_eq (substitute_var_memory target r lhs) (substitute_var_memory target r rhs)

  pub substitute_var_items : Var → Term → Formulas → Formulas
  substitute_var_items target r nil = nil
  substitute_var_items target r (cons item items) =
      cons (substitute_var target r item) (substitute_var_items target r items)

  pub substitute_var_term : Var → Term → Term → Term
  substitute_var_term target r (var v) = if test (Var-discrete v target) then r else var v
  substitute_var_term target r (int_lit n) = int_lit n
  substitute_var_term target r (real_lit q) = real_lit q
  substitute_var_term target r (bool_to_int g) = bool_to_int (substitute_var target r g)
  substitute_var_term target r (select m i) =
      select (substitute_var_memory target r m) (substitute_var_term target r i)
  substitute_var_term target r (add lhs rhs) =
      add (substitute_var_term target r lhs) (substitute_var_term target r rhs)
  substitute_var_term target r (sub lhs rhs) =
      sub (substitute_var_term target r lhs) (substitute_var_term target r rhs)
  substitute_var_term target r (mul lhs rhs) =
      mul (substitute_var_term target r lhs) (substitute_var_term target r rhs)
  substitute_var_term target r (div lhs rhs) =
      div (substitute_var_term target r lhs) (substitute_var_term target r rhs)
  substitute_var_term target r (rem lhs rhs) =
      rem (substitute_var_term target r lhs) (substitute_var_term target r rhs)
  substitute_var_term target r (neg inner) = neg (substitute_var_term target r inner)

  pub substitute_var_memory : Var → Term → Memory → Memory
  substitute_var_memory target r (region name) = region name
  substitute_var_memory target r (store inner i v) =
      store (substitute_var_memory target r inner) (substitute_var_term target r i)
        (substitute_var_term target r v)

-- substitute_bool_var_in_formula: terms and memories are left as they are.
unfoldable mutual
  pub substitute_bool_var : Var → Formula → Formula → Formula
  substitute_bool_var target r verum = verum
  substitute_bool_var target r falsum = falsum
  substitute_bool_var target r (prop v) = if test (Var-discrete v target) then r else prop v
  substitute_bool_var target r (not g) = not (substitute_bool_var target r g)
  substitute_bool_var target r (and items) = mk_and_many (substitute_bool_var_items target r items)
  substitute_bool_var target r (or items) = mk_or_many (substitute_bool_var_items target r items)
  substitute_bool_var target r (implies lhs rhs) =
      mk_implies (substitute_bool_var target r lhs) (substitute_bool_var target r rhs)
  substitute_bool_var target r (eq lhs rhs) = eq lhs rhs
  substitute_bool_var target r (lt lhs rhs) = lt lhs rhs
  substitute_bool_var target r (le lhs rhs) = le lhs rhs
  substitute_bool_var target r (gt lhs rhs) = gt lhs rhs
  substitute_bool_var target r (ge lhs rhs) = ge lhs rhs
  substitute_bool_var target r (memory_eq lhs rhs) = memory_eq lhs rhs

  pub substitute_bool_var_items : Var → Formula → Formulas → Formulas
  substitute_bool_var_items target r nil = nil
  substitute_bool_var_items target r (cons item items) =
      cons (substitute_bool_var target r item) (substitute_bool_var_items target r items)

-- substitute_memory_var_in_formula, _term and _memory: `r` for the region `target`.
unfoldable mutual
  pub substitute_region : String → Memory → Formula → Formula
  substitute_region target r verum = verum
  substitute_region target r falsum = falsum
  substitute_region target r (prop v) = prop v
  substitute_region target r (not g) = not (substitute_region target r g)
  substitute_region target r (and items) = mk_and_many (substitute_region_items target r items)
  substitute_region target r (or items) = mk_or_many (substitute_region_items target r items)
  substitute_region target r (implies lhs rhs) =
      mk_implies (substitute_region target r lhs) (substitute_region target r rhs)
  substitute_region target r (eq lhs rhs) =
      eq (substitute_region_term target r lhs) (substitute_region_term target r rhs)
  substitute_region target r (lt lhs rhs) =
      lt (substitute_region_term target r lhs) (substitute_region_term target r rhs)
  substitute_region target r (le lhs rhs) =
      le (substitute_region_term target r lhs) (substitute_region_term target r rhs)
  substitute_region target r (gt lhs rhs) =
      gt (substitute_region_term target r lhs) (substitute_region_term target r rhs)
  substitute_region target r (ge lhs rhs) =
      ge (substitute_region_term target r lhs) (substitute_region_term target r rhs)
  substitute_region target r (memory_eq lhs rhs) =
      memory_eq (substitute_region_memory target r lhs) (substitute_region_memory target r rhs)

  pub substitute_region_items : String → Memory → Formulas → Formulas
  substitute_region_items target r nil = nil
  substitute_region_items target r (cons item items) =
      cons (substitute_region target r item) (substitute_region_items target r items)

  pub substitute_region_term : String → Memory → Term → Term
  substitute_region_term target r (var v) = var v
  substitute_region_term target r (int_lit n) = int_lit n
  substitute_region_term target r (real_lit q) = real_lit q
  substitute_region_term target r (bool_to_int g) = bool_to_int (substitute_region target r g)
  substitute_region_term target r (select m i) =
      select (substitute_region_memory target r m) (substitute_region_term target r i)
  substitute_region_term target r (add lhs rhs) =
      add (substitute_region_term target r lhs) (substitute_region_term target r rhs)
  substitute_region_term target r (sub lhs rhs) =
      sub (substitute_region_term target r lhs) (substitute_region_term target r rhs)
  substitute_region_term target r (mul lhs rhs) =
      mul (substitute_region_term target r lhs) (substitute_region_term target r rhs)
  substitute_region_term target r (div lhs rhs) =
      div (substitute_region_term target r lhs) (substitute_region_term target r rhs)
  substitute_region_term target r (rem lhs rhs) =
      rem (substitute_region_term target r lhs) (substitute_region_term target r rhs)
  substitute_region_term target r (neg inner) = neg (substitute_region_term target r inner)

  pub substitute_region_memory : String → Memory → Memory → Memory
  substitute_region_memory target r (region name) =
      if test (String-discrete name target) then r else region name
  substitute_region_memory target r (store inner i v) =
      store (substitute_region_memory target r inner) (substitute_region_term target r i)
        (substitute_region_term target r v)
