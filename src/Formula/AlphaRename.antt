-- ===== src/Formula/AlphaRename.antt =====
-- src/formula/alpha_rename.rs: renaming of scalars and regions; the closures are arguments.
use may_must_rs.Base.{String}
use may_must_rs.Formula.Data.{
  Formula, Formulas, Memory, Term, Var, add, and, bool_to_int, cons, div, eq, falsum, ge, gt,
  implies, int_lit, le, lt, memory_eq, mul, neg, nil, not, or, prop, real_lit, region, rem, select,
  store, sub, var, verum,
}

module _ (var_rename region_rename : String → String) where
  -- `Var::new(var_rename(v.name()), v.sort())`
  unfoldable pub rename_var : Var → Var
  rename_var v = record { name = var_rename v.name; sort = v.sort }

  unfoldable mutual
    unfolding rename_var

    pub rename_formula : Formula → Formula
    rename_formula verum = verum
    rename_formula falsum = falsum
    rename_formula (prop v) = prop (rename_var v)
    rename_formula (not g) = not (rename_formula g)
    rename_formula (and items) = and (rename_items items)
    rename_formula (or items) = or (rename_items items)
    rename_formula (implies lhs rhs) = implies (rename_formula lhs) (rename_formula rhs)
    rename_formula (memory_eq lhs rhs) = memory_eq (rename_memory lhs) (rename_memory rhs)
    rename_formula (eq lhs rhs) = eq (rename_term lhs) (rename_term rhs)
    rename_formula (lt lhs rhs) = lt (rename_term lhs) (rename_term rhs)
    rename_formula (le lhs rhs) = le (rename_term lhs) (rename_term rhs)
    rename_formula (gt lhs rhs) = gt (rename_term lhs) (rename_term rhs)
    rename_formula (ge lhs rhs) = ge (rename_term lhs) (rename_term rhs)

    pub rename_items : Formulas → Formulas
    rename_items nil = nil
    rename_items (cons item items) = cons (rename_formula item) (rename_items items)

    pub rename_term : Term → Term
    rename_term (var v) = var (rename_var v)
    rename_term (int_lit n) = int_lit n
    rename_term (real_lit q) = real_lit q
    rename_term (bool_to_int g) = bool_to_int (rename_formula g)
    rename_term (select m i) = select (rename_memory m) (rename_term i)
    rename_term (add lhs rhs) = add (rename_term lhs) (rename_term rhs)
    rename_term (sub lhs rhs) = sub (rename_term lhs) (rename_term rhs)
    rename_term (mul lhs rhs) = mul (rename_term lhs) (rename_term rhs)
    rename_term (div lhs rhs) = div (rename_term lhs) (rename_term rhs)
    rename_term (rem lhs rhs) = rem (rename_term lhs) (rename_term rhs)
    rename_term (neg inner) = neg (rename_term inner)

    pub rename_memory : Memory → Memory
    rename_memory (region name) = region (region_rename name)
    rename_memory (store base i v) = store (rename_memory base) (rename_term i) (rename_term v)

unfoldable pub rename_formula_uniform : (String → String) → Formula → Formula
unfolding rename_formula
rename_formula_uniform rename f = rename_formula rename rename f
