-- ===== src/Formula/Theory.antt =====
-- The meaning of formulas, against which the analysis is judged. src/smt/solver.rs hands a formula
-- to Z3; what Z3's numbers and arrays are is a parameter, a `Theory`.
use may_must_rs.Base.{
  Bool, String, String-discrete, bool_not, false, if◌then◌else◌, test, true, ◌&&◌, ◌||◌,
}
use may_must_rs.Base.Int.{ℤ}
use may_must_rs.Formula.Data.{
  Formula, Formulas, Memory, Rational, Term, Var, Var-discrete, add, and, bool_to_int, cons, div,
  eq, falsum, ge, gt, implies, int_lit, le, lt, memory_eq, mul, neg, nil, not, or, prop, real_lit,
  region, rem, select, store, sub, var, verum,
}

-- A structure for the symbols of the formula language.
pub record Theory : Type 1 where
  pub Value : Type 0
  pub Array : Type 0
  pub of_int : ℤ → Value
  pub of_real : Rational → Value
  pub of_bool : Bool → Value
  pub plus : Value → Value → Value
  pub minus : Value → Value → Value
  pub times : Value → Value → Value
  pub quotient : Value → Value → Value
  pub remainder : Value → Value → Value
  pub negate : Value → Value
  pub read : Array → Value → Value
  pub write : Array → Value → Value → Array
  pub same : Value → Value → Bool
  pub below : Value → Value → Bool
  pub at_most : Value → Value → Bool
  pub same_array : Array → Array → Bool

-- The values of the numeric variables, of the Boolean ones and of the memory regions.
pub record State (T : Theory) : Type 0 where
  pub number : Var → T.Value
  pub truth : Var → Bool
  pub memory : String → T.Array

module _ (T : Theory) (s : State T) where
  unfoldable mutual
    pub holds : Formula → Bool
    holds verum = true
    holds falsum = false
    holds (prop v) = s.truth v
    holds (not f) = bool_not (holds f)
    holds (and fs) = all_hold fs
    holds (or fs) = some_holds fs
    holds (implies f g) = bool_not (holds f) || holds g
    holds (eq a b) = T.same (value a) (value b)
    holds (memory_eq m n) = T.same_array (contents m) (contents n)
    holds (lt a b) = T.below (value a) (value b)
    holds (le a b) = T.at_most (value a) (value b)
    holds (gt a b) = T.below (value b) (value a)
    holds (ge a b) = T.at_most (value b) (value a)

    pub all_hold : Formulas → Bool
    all_hold nil = true
    all_hold (cons f fs) = holds f && all_hold fs

    pub some_holds : Formulas → Bool
    some_holds nil = false
    some_holds (cons f fs) = holds f || some_holds fs

    pub value : Term → T.Value
    value (var v) = s.number v
    value (int_lit n) = T.of_int n
    value (real_lit q) = T.of_real q
    value (bool_to_int f) = T.of_bool (holds f)
    value (select m i) = T.read (contents m) (value i)
    value (add a b) = T.plus (value a) (value b)
    value (sub a b) = T.minus (value a) (value b)
    value (mul a b) = T.times (value a) (value b)
    value (div a b) = T.quotient (value a) (value b)
    value (rem a b) = T.remainder (value a) (value b)
    value (neg a) = T.negate (value a)

    pub contents : Memory → T.Array
    contents (region name) = s.memory name
    contents (store m i v) = T.write (contents m) (value i) (value v)

-- The state after an assignment.
module _ {T : Theory} where
  unfoldable pub set_number : State T → Var → T.Value → State T
  set_number s v x = record s { number = λ u. if test (Var-discrete u v) then x else s.number u }

  unfoldable pub set_truth : State T → Var → Bool → State T
  set_truth s v x = record s { truth = λ u. if test (Var-discrete u v) then x else s.truth u }

  unfoldable pub set_memory : State T → String → T.Array → State T
  set_memory s r x = record s { memory = λ u. if test (String-discrete u r) then x else s.memory u }
