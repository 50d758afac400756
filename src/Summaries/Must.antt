-- ===== src/Summaries/Must.antt =====
-- src/analysis/interproc/query.rs: `merge_must`, and the tables that `extend_from` joins.
use may_must_rs.Base.{
  Bool, List, String, String-discrete, [], bool_not, false, if◌then◌else◌, test, true, ◌++◌, ◌∷◌,
}
use may_must_rs.Base.Names.{TextMap, entries, set_entries}
use may_must_rs.Formula.Data.{Formula-discrete}
use may_must_rs.Smt.Oracle.{Answer, Solver, answer, ill_sorted}
use may_must_rs.Summaries.Table.{
  ContextualMustSummary, ContextualSummaryTable, MaySummary, NotMaySummary, Query, is_covering,
  must_covers, ◌>>=◌,
}

unfoldable pub as_must_query : ContextualMustSummary → Query
as_must_query s = record { procedure = ""; pre = s.precondition; post = s.postcondition }

-- As `merge_outcome` for the not-may summaries.
unfoldable pub must_outcome :
    Answer Bool
    → Answer (List ContextualMustSummary)
    → List ContextualMustSummary
    → ContextualMustSummary
    → List ContextualMustSummary × Answer Bool
must_outcome (ill_sorted e) kept old new = (old, ill_sorted e)
must_outcome (answer true) kept old new = (old, answer false)
must_outcome (answer false) (ill_sorted e) old new = ([], ill_sorted e)
must_outcome (answer false) (answer kept) old new = (kept ++ new ∷ [], answer true)

module _ (z : Solver) where
  unfoldable pub is_must_covered : List ContextualMustSummary → ContextualMustSummary → Answer Bool
  unfolding must_covers as_must_query
  is_must_covered [] new = answer false
  is_must_covered (s ∷ ss) new =
      let rest = is_must_covered ss new in
      (must_covers z s (as_must_query new) >>= λ c. if is_covering c then answer true else rest)

  unfoldable pub not_must_covered_by :
      ContextualMustSummary → List ContextualMustSummary → Answer (List ContextualMustSummary)
  unfolding must_covers as_must_query
  not_must_covered_by new [] = answer []
  not_must_covered_by new (s ∷ ss) = do
    c ← must_covers z new (as_must_query s)
    rest ← not_must_covered_by new ss
    answer (if is_covering c then rest else s ∷ rest)

  unfoldable pub merge_must :
      String → ContextualMustSummary → ContextualSummaryTable → ContextualSummaryTable × Answer Bool
  unfolding is_must_covered not_must_covered_by must_outcome entries set_entries
  merge_must procedure new table =
      let old = entries procedure table.must in
      let (kept, result) =
        must_outcome (is_must_covered old new) (not_must_covered_by new old) old new in
      (record table { must = set_entries procedure kept table.must }, result)

-- Insertion of a summary that the list does not have.
module _ {ℓ} {A : Type ℓ} (same : Discrete A) where
  unfoldable pub contains_summary : A → List A → Bool
  contains_summary s [] = false
  contains_summary s (x ∷ xs) = if test (same x s) then true else contains_summary s xs

  unfoldable pub push_summary : A → List A → List A
  unfolding contains_summary
  push_summary s xs = if contains_summary s xs then xs else xs ++ s ∷ []

  unfoldable pub push_summaries : List A → List A → List A
  unfolding push_summary
  push_summaries [] xs = xs
  push_summaries (s ∷ ss) xs = push_summaries ss (push_summary s xs)

  -- `entry(procedure).or_default()`, then the summaries it does not have.
  unfoldable pub push_to : String → List A → TextMap (List A) → TextMap (List A)
  unfolding push_summaries entries set_entries
  push_to p ss m = set_entries p (push_summaries ss (entries p m)) m

  -- `add_notmay` and `add_forward_may`, less the answer whether the summary is new.
  unfoldable pub add_summary : String → A → TextMap (List A) → TextMap (List A)
  unfolding push_summary entries set_entries
  add_summary p s m = set_entries p (push_summary s (entries p m)) m

  unfoldable pub add_summaries : String → List A → TextMap (List A) → TextMap (List A)
  unfolding add_summary
  add_summaries p [] m = m
  add_summaries p (s ∷ ss) m = add_summaries p ss (add_summary p s m)

-- The loop over another table's map.
unfoldable pub extend_map {ℓ} :
    {A : Type ℓ}
    → (String → List A → TextMap (List A) → TextMap (List A))
    → TextMap (List A)
    → TextMap (List A)
    → TextMap (List A)
extend_map step [] m = m
extend_map step ((p, ss) ∷ other) m = extend_map step other (step p ss m)

unfoldable pub has_procedure {ℓ} : {A : Type ℓ} → String → TextMap A → Bool
has_procedure p [] = false
has_procedure p ((q, v) ∷ m) = if test (String-discrete q p) then true else has_procedure p m

-- `entry(proc).or_insert_with(...)`, for each entry of the other table.
unfoldable pub fill_missing {ℓ} : {A : Type ℓ} → TextMap A → TextMap A → TextMap A
unfolding has_procedure
fill_missing [] m = m
fill_missing ((p, v) ∷ other) m =
    fill_missing other (if has_procedure p m then m else m ++ (p, v) ∷ [])

unfoldable pub NotMaySummary-discrete : Discrete NotMaySummary
NotMaySummary-discrete = hlevel Formula-discrete

unfoldable pub MaySummary-discrete : Discrete MaySummary
MaySummary-discrete = hlevel Formula-discrete

unfoldable pub ContextualMustSummary-discrete : Discrete ContextualMustSummary
ContextualMustSummary-discrete = hlevel Formula-discrete

unfoldable pub add_notmay :
    String → NotMaySummary → ContextualSummaryTable → ContextualSummaryTable × Bool
unfolding contains_summary add_summary NotMaySummary-discrete entries
add_notmay p s table = (
  record table { notmay = add_summary NotMaySummary-discrete p s table.notmay },
  bool_not (contains_summary NotMaySummary-discrete s (entries p table.notmay)),
)

unfoldable pub extend_from :
    ContextualSummaryTable → ContextualSummaryTable → ContextualSummaryTable
unfolding extend_map add_summaries push_to fill_missing NotMaySummary-discrete MaySummary-discrete
    ContextualMustSummary-discrete
extend_from table other = record {
  notmay = extend_map (add_summaries NotMaySummary-discrete) other.notmay table.notmay;
  must = extend_map (push_to ContextualMustSummary-discrete) other.must table.must;
  forward_may = extend_map (add_summaries MaySummary-discrete) other.forward_may table.forward_may;
  loop_invariants = fill_missing other.loop_invariants table.loop_invariants;
}
