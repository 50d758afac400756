-- ===== src/Formula/Rename.antt =====
-- src/formula/mod.rs: `Formula::substitute`, a renaming of variables. The map is the total function
-- `mapping.get(var).cloned().unwrap_or_else(|| var.clone())`.
use may_must_rs.Base.{List, [], if◌then◌else◌, test, ◌∷◌}
use may_must_rs.Formula.Build.{mk_and_many, mk_implies, mk_or_many}
use may_must_rs.Formula.Data.{
  Formula, Formulas, Memory, Term, Var, Var-discrete, add, and, bool_to_int, cons, div, eq, falsum,
  ge, gt, implies, int_lit, le, lt, memory_eq, mul, neg, nil, not, or, prop, real_lit, region, rem,
  select, store, sub, var, verum,
}

-- A missing key stands for itself.
unfoldable pub lookup_var : List (Var × Var) → Var → Var
lookup_var [] v = v
lookup_var ((k, image) ∷ rest) v = if test (Var-discrete k v) then image else lookup_var rest v

unfoldable mutual
  pub substitute_formula_vars : (Var → Var) → Formula → Formula
  substitute_formula_vars m verum = verum
  substitute_formula_vars m falsum = falsum
  substitute_formula_vars m (prop v) = prop (m v)
  substitute_formula_vars m (not g) = not (substitute_formula_vars m g)
  substitute_formula_vars m (and items) = mk_and_many (substitute_items_vars m items)
  substitute_formula_vars m (or items) = mk_or_many (substitute_items_vars m items)
  substitute_formula_vars m (implies lhs rhs) =
      mk_implies (substitute_formula_vars m lhs) (substitute_formula_vars m rhs)
  substitute_formula_vars m (eq lhs rhs) =
      eq (substitute_term_vars m lhs) (substitute_term_vars m rhs)
  substitute_formula_vars m (lt lhs rhs) =
      lt (substitute_term_vars m lhs) (substitute_term_vars m rhs)
  substitute_formula_vars m (le lhs rhs) =
      le (substitute_term_vars m lhs) (substitute_term_vars m rhs)
  substitute_formula_vars m (gt lhs rhs) =
      gt (substitute_term_vars m lhs) (substitute_term_vars m rhs)
  substitute_formula_vars m (ge lhs rhs) =
      ge (substitute_term_vars m lhs) (substitute_term_vars m rhs)
  substitute_formula_vars m (memory_eq lhs rhs) =
      memory_eq (substitute_memory_vars m lhs) (substitute_memory_vars m rhs)

  pub substitute_items_vars : (Var → Var) → Formulas → Formulas
  substitute_items_vars m nil = nil
  substitute_items_vars m (cons item items) =
      cons (substitute_formula_vars m item) (substitute_items_vars m items)

  pub substitute_term_vars : (Var → Var) → Term → Term
  substitute_term_vars m (var v) = var (m v)
  substitute_term_vars m (int_lit n) = int_lit n
  substitute_term_vars m (real_lit q) = real_lit q
  substitute_term_vars m (bool_to_int g) = bool_to_int (substitute_formula_vars m g)
  substitute_term_vars m (select base i) =
      select (substitute_memory_vars m base) (substitute_term_vars m i)
  substitute_term_vars m (add lhs rhs) =
      add (substitute_term_vars m lhs) (substitute_term_vars m rhs)
  substitute_term_vars m (sub lhs rhs) =
      sub (substitute_term_vars m lhs) (substitute_term_vars m rhs)
  substitute_term_vars m (mul lhs rhs) =
      mul (substitute_term_vars m lhs) (substitute_term_vars m rhs)
  substitute_term_vars m (div lhs rhs) =
      div (substitute_term_vars m lhs) (substitute_term_vars m rhs)
  substitute_term_vars m (rem lhs rhs) =
      rem (substitute_term_vars m lhs) (substitute_term_vars m rhs)
  substitute_term_vars m (neg inner) = neg (substitute_term_vars m inner)

  pub substitute_memory_vars : (Var → Var) → Memory → Memory
  substitute_memory_vars m (region name) = region name
  substitute_memory_vars m (store inner i v) =
      store (substitute_memory_vars m inner) (substitute_term_vars m i) (substitute_term_vars m v)

unfoldable pub substitute : List (Var × Var) → Formula → Formula
unfolding lookup_var substitute_formula_vars
substitute mapping f = substitute_formula_vars (lookup_var mapping) f
