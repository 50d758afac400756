-- ===== src/Formula/Sorts.antt =====
-- src/formula/mod.rs: the sort of a term and the validation of formulas. `Result<T, FormulaError>` is
-- `Answer T`.
use may_must_rs.Base.{if◌then◌else◌, test}
use may_must_rs.Formula.Data.{
  Formula, Formulas, Memory, Sort, Sort-discrete, Term, add, and, bool, bool_to_int, cons, div, eq,
  falsum, ge, gt, implies, int, int_lit, le, lt, memory_eq, mul, neg, nil, not, or, prop, real,
  real_lit, region, rem, select, store, sub, var, verum,
}
use may_must_rs.Formula.Theory.{value}
use may_must_rs.Smt.Oracle.{
  Answer, answer, expected_boolean_sort, expected_integer_sort, expected_numeric_sort, ill_sorted,
  mixed_sorts,
}

-- `Result<(), FormulaError>`
abbrev pub Check : Type 0
Check = Answer (Unit {0})

-- The sorts of two operands: they agree and are not Bool.
unfoldable pub numeric_pair : Answer Sort → Answer Sort → Answer Sort
numeric_pair (ill_sorted e) rhs = ill_sorted e
numeric_pair (answer s) (ill_sorted e) = ill_sorted e
numeric_pair (answer s) (answer t) =
    if test (Sort-discrete s t)
    then (if test (Sort-discrete s bool) then ill_sorted (expected_numeric_sort bool) else answer s)
    else ill_sorted (mixed_sorts s t)

-- The operand of a negation.
unfoldable pub numeric : Answer Sort → Answer Sort
numeric (ill_sorted e) = ill_sorted e
numeric (answer bool) = ill_sorted (expected_numeric_sort bool)
numeric (answer s) = answer s

-- An index or a stored value.
unfoldable pub integral : Answer Sort → Answer Sort
integral (ill_sorted e) = ill_sorted e
integral (answer int) = answer int
integral (answer s) = ill_sorted (expected_integer_sort s)

-- `check?; Ok(sort)`
unfoldable pub then_sort : Check → Sort → Answer Sort
then_sort (ill_sorted e) s = ill_sorted e
then_sort (answer u) s = answer s

-- `check?;` before what follows.
unfoldable pub then_check : Check → Check → Check
then_check (ill_sorted e) later = ill_sorted e
then_check (answer u) later = later

unfoldable pub sorted : Answer Sort → Check
sorted (ill_sorted e) = ill_sorted e
sorted (answer s) = answer tt

-- Both sorts are computed before either is compared with Int.
unfoldable pub integral_pair : Answer Sort → Answer Sort → Check
unfolding integral sorted then_check
integral_pair (ill_sorted e) value = ill_sorted e
integral_pair (answer s) (ill_sorted e) = ill_sorted e
integral_pair (answer s) (answer t) =
    then_check (sorted (integral (answer s))) (sorted (integral (answer t)))

unfoldable pub boolean : Sort → Check
boolean bool = answer tt
boolean s = ill_sorted (expected_boolean_sort s)

unfoldable mutual
  unfolding numeric_pair numeric integral then_sort then_check sorted integral_pair boolean

  pub sort_of : Term → Answer Sort
  sort_of (var v) = answer v.sort
  sort_of (int_lit n) = answer int
  sort_of (real_lit q) = answer real
  sort_of (bool_to_int f) = then_sort (validate f) int
  sort_of (select m i) = integral (sort_of i)
  sort_of (add lhs rhs) = numeric_pair (sort_of lhs) (sort_of rhs)
  sort_of (sub lhs rhs) = numeric_pair (sort_of lhs) (sort_of rhs)
  sort_of (mul lhs rhs) = numeric_pair (sort_of lhs) (sort_of rhs)
  sort_of (div lhs rhs) = numeric_pair (sort_of lhs) (sort_of rhs)
  sort_of (rem lhs rhs) = numeric_pair (sort_of lhs) (sort_of rhs)
  sort_of (neg inner) = numeric (sort_of inner)

  pub validate : Formula → Check
  validate verum = answer tt
  validate falsum = answer tt
  validate (prop v) = boolean v.sort
  validate (not f) = validate f
  validate (and items) = validate_items items
  validate (or items) = validate_items items
  validate (implies lhs rhs) = then_check (validate lhs) (validate rhs)
  validate (eq lhs rhs) = sorted (numeric_pair (sort_of lhs) (sort_of rhs))
  validate (memory_eq lhs rhs) = then_check (validate_memory lhs) (validate_memory rhs)
  validate (lt lhs rhs) = sorted (numeric_pair (sort_of lhs) (sort_of rhs))
  validate (le lhs rhs) = sorted (numeric_pair (sort_of lhs) (sort_of rhs))
  validate (gt lhs rhs) = sorted (numeric_pair (sort_of lhs) (sort_of rhs))
  validate (ge lhs rhs) = sorted (numeric_pair (sort_of lhs) (sort_of rhs))

  pub validate_items : Formulas → Check
  validate_items nil = answer tt
  validate_items (cons item items) = then_check (validate item) (validate_items items)

  pub validate_memory : Memory → Check
  validate_memory (region name) = answer tt
  validate_memory (store inner i v) =
      then_check (validate_memory inner) (integral_pair (sort_of i) (sort_of v))
