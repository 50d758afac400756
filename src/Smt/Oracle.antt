-- ===== src/Smt/Oracle.antt =====
-- src/smt/oracle.rs: the queries, over a solver that is a parameter.
use may_must_rs.Base.{Bool, List, Option, String, arith, false, none, true, ◌≡◌}
use may_must_rs.Base.Int.{ℤ}
use may_must_rs.Formula.Build.{mk_and}
use may_must_rs.Formula.Data.{Formula, Rational, Sort, Var, not}
use may_must_rs.Formula.Meaning.{holds-mk_and}
use may_must_rs.Formula.Theory.{State, Theory, holds}

-- src/formula/mod.rs: values of a model, and the errors of sort checking.
pub data ModelValue : Type 0 where
  int_value : ℤ → ModelValue
  bool_value : Bool → ModelValue
  real_value : Rational → ModelValue
  array_default : ModelValue → ModelValue

pub record SmtModel : Type 0 where
  pub scalar : List (Var × ModelValue)
  pub memory : List (String × ModelValue)

pub data FormulaError : Type 0 where
  expected_boolean_sort expected_numeric_sort expected_integer_sort : Sort → FormulaError
  mixed_sorts : Sort → Sort → FormulaError

-- The result of a query; the only error is one of sorts.
pub data Answer {ℓ} (A : Type ℓ) : Type ℓ where
  answer : A → Answer A
  ill_sorted : FormulaError → Answer A

pub data SatResult : Type 0 where
  sat unsat undecided : SatResult

pub data Feasibility : Type 0 where
  feasible infeasible unknown_feasibility : Feasibility

pub data Validity : Type 0 where
  valid invalid unknown_validity : Validity

pub record FeasibilityReport : Type 0 where
  pub feasibility : Feasibility
  pub model : Option SmtModel

-- What Z3 answers for a formula in a fresh scope, and the model that is read from the scope.
pub record Solver : Type 0 where
  pub check : Formula → Answer SatResult
  pub model_bindings : Formula → Option SmtModel

unfoldable pub validity_of : Feasibility → Validity
validity_of infeasible = valid
validity_of feasible = invalid
validity_of unknown_feasibility = unknown_validity

unfoldable pub is_valid : Validity → Bool
is_valid valid = true
is_valid _ = false

unfoldable pub is_infeasible : Feasibility → Bool
is_infeasible infeasible = true
is_infeasible _ = false

module _ (z : Solver) where
  unfoldable pub report : Formula → SatResult → FeasibilityReport
  report f sat = record { feasibility = feasible; model = z.model_bindings f }
  report f unsat = record { feasibility = infeasible; model = none }
  report f undecided = record { feasibility = unknown_feasibility; model = z.model_bindings f }

  unfoldable pub feasibility_with_model : Formula → Answer FeasibilityReport
  unfolding report
  feasibility_with_model f = elim (z.check f) [
    | ill_sorted e ↦ ill_sorted e
    | answer r ↦ answer (report f r)
  ]

  unfoldable pub feasibility : Formula → Answer Feasibility
  unfolding feasibility_with_model
  feasibility f = elim (feasibility_with_model f) [
    | ill_sorted e ↦ ill_sorted e
    | answer r ↦ answer r.feasibility
  ]

  unfoldable pub implies_with_model : Formula → Formula → Answer (Validity × Option SmtModel)
  unfolding feasibility_with_model validity_of
  implies_with_model assumptions conclusion =
      elim (feasibility_with_model (mk_and assumptions (not conclusion))) [
        | ill_sorted e ↦ ill_sorted e
        | answer r ↦ answer (validity_of r.feasibility, r.model)
      ]

  unfoldable pub oracle_implies : Formula → Formula → Answer Validity
  unfolding implies_with_model
  oracle_implies assumptions conclusion = elim (implies_with_model assumptions conclusion) [
    | ill_sorted e ↦ ill_sorted e
    | answer r ↦ answer r.0
  ]

  unfoldable pub is_contradiction : Formula → Answer Bool
  unfolding feasibility is_infeasible
  is_contradiction f = elim (feasibility f) [
    | ill_sorted e ↦ ill_sorted e
    | answer r ↦ answer (is_infeasible r)
  ]

-- Z3 is right when it answers `unsat`, in the structure `T`.
abbrev pub IsSoundFor : Theory → Solver → Type 0
IsSoundFor T z = (f : Formula) (s : State T) → z.check f ≡ answer unsat → holds T s f ≡ false

-- For a sound solver: an implication that the oracle calls valid holds in every state.
pub oracle_implies_sound :
    (T : Theory) (z : Solver) (f g : Formula) (s : State T)
    → IsSoundFor T z
    → oracle_implies z f g ≡ answer valid
    → holds T s f ≡ true
    → holds T s g ≡ true
unfolding oracle_implies implies_with_model feasibility_with_model validity_of report holds
oracle_implies_sound T z f g s sound h hf =
    ground (arith, sound (mk_and f (not g)) s, holds-mk_and T s f (not g))
