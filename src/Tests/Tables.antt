-- ===== src/Tests/Tables.antt =====
-- Summaries and queries at concrete inputs, with a solver that knows two contradictions only:
-- False, and a formula beside its negation.
use may_must_rs.Base.{
  Bool, Bool-cases, String-discrete, [], arith, false, if◌then◌else◌, inl, inr, none, refl, some,
  test, test_iff, true, ℕ_discrete, ◌&&◌, ◌∷◌, ◌≡◌,
}
use may_must_rs.Backward.Summary.{NodeSummary, combined, holds-combined, unreachable}
use may_must_rs.Base.Int.{pos, ℤ-discrete}
use may_must_rs.Base.Names.{entries}
use may_must_rs.Formula.Build.{mk_and, simplify}
use may_must_rs.Formula.Data.{
  Formula, Formula-discrete, Sort-discrete, Var-discrete, and, cons, falsum, int_lit, le, nil, not,
  var, verum,
}
use may_must_rs.Formula.Theory.{State, holds}
use may_must_rs.Smt.Oracle.{
  IsSoundFor, Solver, answer, implies_with_model, oracle_implies, oracle_implies_sound, undecided,
  unsat,
}
use may_must_rs.Summaries.Answers.{Answers, SomeAnswers}
use may_must_rs.Summaries.Keeps.{merge_notmay_keeps_Answers}
use may_must_rs.Summaries.Merge.{IsLookup, lookup_notmay_covering_sound}
use may_must_rs.Summaries.Table.{
  ContextualSummaryTable, NotMaySummary, Query, lookup_notmay_covering, merge_entries, merge_notmay,
}
use may_must_rs.Tests.Model.{int_var, integers, threes}

abbrev pub clashes : Formula → Bool
clashes falsum = true
clashes (and (cons f (cons (not g) nil))) = test (Formula-discrete f g)
clashes _ = false

abbrev pub two_clashes : Solver
two_clashes = record {
  check = λ f. answer (if clashes f then unsat else undecided);
  model_bindings = λ f. none;
}

clashes-false : (f : Formula) (s : State integers) → clashes f ≡ true → holds integers s f ≡ false
unfolding holds
clashes-false falsum s h = refl
clashes-false (and (cons f (cons (not g) nil))) s h =
    ground (arith, (test_iff (Formula-discrete f g)).0 h)
clashes-false _ s h = cc

two_clashes-IsSound : IsSoundFor integers two_clashes
two_clashes-IsSound f s h = elim (Bool-cases (clashes f)) [
  | inl y ↦ clashes-false f s y
  | inr n ↦ absurd (undecided_ne (rw n at h))
]
  where
    undecided_ne : answer undecided ≡ answer unsat → ⊥
    undecided_ne p = cc

abbrev pub x_positive : Formula
x_positive = le (int_lit (pos 1)) (var (int_var "x"))

-- `x >= 1` is safe after `x >= 1`, and anything after False is.
abbrev pub kept_summary : NotMaySummary
kept_summary = record { precondition = x_positive; postcondition = x_positive }

abbrev weaker_summary : NotMaySummary
weaker_summary = record { precondition = verum; postcondition = x_positive }

abbrev asked : Query
asked = record { procedure = "f"; pre = x_positive; post = falsum }

abbrev pub f_table : ContextualSummaryTable
f_table = record {
  notmay = ("f", kept_summary ∷ []) ∷ [];
  must = [];
  forward_may = [];
  loop_invariants = [];
}

merged :
    merge_entries two_clashes (kept_summary ∷ []) weaker_summary
    ≡ (weaker_summary ∷ [], answer true)
unfolding merge_entries mk_and oracle_implies simplify Formula-discrete Var-discrete String-discrete
    Sort-discrete ℤ-discrete ℕ_discrete
merged = refl

asked-Answers : Answers integers kept_summary asked
unfolding holds
asked-Answers s = (λ h. h, λ h. cc)

oracle_implies_sound_example : holds integers threes x_positive ≡ true
unfolding oracle_implies implies_with_model mk_and simplify Formula-discrete Var-discrete
    String-discrete Sort-discrete ℤ-discrete ℕ_discrete holds
oracle_implies_sound_example =
    oracle_implies_sound integers two_clashes x_positive x_positive threes two_clashes-IsSound refl
      refl

merged_table : (merge_notmay two_clashes "f" weaker_summary f_table).1 ≡ answer true
unfolding merge_notmay entries merge_entries mk_and oracle_implies simplify Formula-discrete
    Var-discrete String-discrete Sort-discrete ℤ-discrete ℕ_discrete
merged_table = refl

merge_notmay_keeps_Answers_example :
    SomeAnswers integers
      (entries "f" (merge_notmay two_clashes "f" weaker_summary f_table).0.notmay)
      asked
unfolding entries String-discrete
merge_notmay_keeps_Answers_example =
    merge_notmay_keeps_Answers integers two_clashes "f" weaker_summary f_table true asked
      two_clashes-IsSound merged_table (inl (inl asked-Answers))

-- f has two summaries; the first says nothing of where x is not positive.
abbrev f_and_g : ContextualSummaryTable
f_and_g = record f_table {
  notmay = ("g", weaker_summary ∷ []) ∷ ("f", kept_summary ∷ weaker_summary ∷ []) ∷ [];
}

abbrev asked_anywhere : Query
asked_anywhere = record { procedure = "f"; pre = verum; post = falsum }

lookup_notmay_covering_sound_example :
    IsLookup integers two_clashes (entries "f" f_and_g.notmay) asked_anywhere (some weaker_summary)
unfolding lookup_notmay_covering implies_with_model oracle_implies mk_and simplify Formula-discrete
    Var-discrete String-discrete Sort-discrete ℤ-discrete ℕ_discrete
lookup_notmay_covering_sound_example =
    lookup_notmay_covering_sound integers two_clashes f_and_g asked_anywhere (some weaker_summary)
      two_clashes-IsSound refl

abbrev half_known : NodeSummary
half_known = record (unreachable 0) { reach = x_positive }

holds-combined_example :
    holds integers threes (combined half_known)
    ≡ (holds integers threes half_known.reach && holds integers threes half_known.state)
holds-combined_example = holds-combined integers threes half_known
