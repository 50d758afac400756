-- ===== src/Summaries/Table.antt =====
-- src/analysis/interproc/summaries.rs and query.rs: queries, summaries and the table of them.
-- A `BTreeMap<ProcedureName, V>` is an association list by name; no operation here reads its order.
use may_must_rs.Base.{
  Bool, List, Option, String, [], false, if◌then◌else◌, none, some, test, true, ℕ, ◌++◌, ◌∷◌,
}
use may_must_rs.Base.Names.{TextMap, entries, set_entries}
use may_must_rs.Formula.Data.{Formula, Formula-discrete, falsum, verum}
use may_must_rs.Smt.Oracle.{
  Answer, Solver, Validity, answer, ill_sorted, invalid, oracle_implies, unknown_validity, valid,
}

pub record NotMaySummary : Type 0 where
  pub precondition : Formula
  pub postcondition : Formula

pub record MaySummary : Type 0 where
  pub precondition : Formula
  pub postcondition : Formula

pub record ContextualMustSummary : Type 0 where
  pub precondition : Formula
  pub postcondition : Formula

pub record Query : Type 0 where
  pub procedure : String
  pub pre : Formula
  pub post : Formula

pub data Subsumption : Type 0 where
  covers does_not_cover oracle_unknown : Subsumption

unfoldable pub is_covering : Subsumption → Bool
is_covering covers = true
is_covering _ = false

pub record ContextualSummaryTable : Type 0 where
  pub notmay : TextMap (List NotMaySummary)
  pub must : TextMap (List ContextualMustSummary)
  pub forward_may : TextMap (List MaySummary)
  pub loop_invariants : TextMap (List (ℕ × Formula))

unfoldable pub validity_covers : Validity → Subsumption
validity_covers valid = covers
validity_covers invalid = does_not_cover
validity_covers unknown_validity = oracle_unknown

-- Steps that may fail in the oracle.
infixl 5 ◌>>=◌
abbrev pub ◌>>=◌ {ℓ κ} : {A : Type ℓ} {B : Type κ} → Answer A → (A → Answer B) → Answer B
answer a >>= f = f a
ill_sorted e >>= f = ill_sorted e

-- `matches!(lhs, Formula::False)` and `matches!(rhs, Formula::True)`, which come before the oracle.
unfoldable pub is_trivial : Formula → Formula → Bool
is_trivial falsum rhs = true
is_trivial lhs verum = true
is_trivial lhs rhs = false

-- A summary read as the query that it answers; the procedure's name is not used.
unfoldable pub as_query : NotMaySummary → Query
as_query s = record { procedure = ""; pre = s.precondition; post = s.postcondition }

-- What `merge_notmay` leaves in the list of a procedure, and its result, from the outcome of its
-- two loops. An error of the oracle in the first loop leaves the list as it is; in the second the
-- list is already drained.
unfoldable pub merge_outcome :
    Answer Bool
    → Answer (List NotMaySummary)
    → List NotMaySummary
    → NotMaySummary
    → List NotMaySummary × Answer Bool
merge_outcome (ill_sorted e) kept old new = (old, ill_sorted e)
merge_outcome (answer true) kept old new = (old, answer false)
merge_outcome (answer false) (ill_sorted e) old new = ([], ill_sorted e)
merge_outcome (answer false) (answer kept) old new = (kept ++ new ∷ [], answer true)

module _ (z : Solver) where
  unfoldable pub implies_with_shortcuts : Formula → Formula → Answer Subsumption
  unfolding is_trivial validity_covers
  implies_with_shortcuts lhs rhs =
      if test (Formula-discrete lhs rhs)
      then answer covers
      else if is_trivial lhs rhs
      then answer covers
      else do v ← oracle_implies z lhs rhs; answer (validity_covers v)

  unfoldable pub notmay_covers : NotMaySummary → Query → Answer Subsumption
  unfolding implies_with_shortcuts is_covering
  notmay_covers summary query = do
    pre_ok ← implies_with_shortcuts query.pre summary.precondition
    if is_covering pre_ok
        then implies_with_shortcuts query.post summary.postcondition
        else answer pre_ok

  unfoldable pub must_covers : ContextualMustSummary → Query → Answer Subsumption
  unfolding implies_with_shortcuts is_covering
  must_covers summary query = do
    pre_ok ← implies_with_shortcuts summary.precondition query.pre
    if is_covering pre_ok
        then implies_with_shortcuts summary.postcondition query.post
        else answer pre_ok

  -- The loop of `lookup_notmay_covering`: the first summary that covers the query.
  unfoldable pub first_notmay : List NotMaySummary → Query → Answer (Option NotMaySummary)
  unfolding notmay_covers
  first_notmay [] query = answer none
  first_notmay (s ∷ ss) query =
      let rest = first_notmay ss query in
      (notmay_covers s query >>= λ c. if is_covering c then answer (some s) else rest)

  unfoldable pub lookup_notmay_covering :
      ContextualSummaryTable → Query → Answer (Option NotMaySummary)
  unfolding first_notmay entries
  lookup_notmay_covering table query = first_notmay (entries query.procedure table.notmay) query

  unfoldable pub first_must :
      List ContextualMustSummary → Query → Answer (Option ContextualMustSummary)
  unfolding must_covers
  first_must [] query = answer none
  first_must (s ∷ ss) query =
      let rest = first_must ss query in
      (must_covers s query >>= λ c. if is_covering c then answer (some s) else rest)

  unfoldable pub lookup_must_covering :
      ContextualSummaryTable → Query → Answer (Option ContextualMustSummary)
  unfolding first_must entries
  lookup_must_covering table query = first_must (entries query.procedure table.must) query

  -- The first loop of `merge_notmay`.
  unfoldable pub is_covered : List NotMaySummary → NotMaySummary → Answer Bool
  unfolding notmay_covers as_query
  is_covered [] new = answer false
  is_covered (s ∷ ss) new =
      let rest = is_covered ss new in
      (notmay_covers s (as_query new) >>= λ c. if is_covering c then answer true else rest)

  -- The second loop: the entries that the new summary does not cover.
  unfoldable pub not_covered_by : NotMaySummary → List NotMaySummary → Answer (List NotMaySummary)
  unfolding notmay_covers as_query
  not_covered_by new [] = answer []
  not_covered_by new (s ∷ ss) = do
    c ← notmay_covers new (as_query s)
    rest ← not_covered_by new ss
    answer (if is_covering c then rest else s ∷ rest)

  unfoldable pub merge_entries :
      List NotMaySummary → NotMaySummary → List NotMaySummary × Answer Bool
  unfolding is_covered not_covered_by merge_outcome
  merge_entries old new = merge_outcome (is_covered old new) (not_covered_by new old) old new

  unfoldable pub merge_notmay :
      String → NotMaySummary → ContextualSummaryTable → ContextualSummaryTable × Answer Bool
  unfolding merge_entries entries set_entries
  merge_notmay procedure new table =
      let (kept, result) = merge_entries (entries procedure table.notmay) new in
      (record table { notmay = set_entries procedure kept table.notmay }, result)
