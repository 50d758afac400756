-- ===== src/Summaries/Keeps.antt =====
-- src/analysis/interproc/query.rs: `merge_notmay` on the whole table.
use may_must_rs.Base.{
  Bool, Bool-cases, String, String-discrete, false, if◌then◌else◌, inl, inr, subst, sym, test,
  test_iff, true, ◌∙◌, ◌≡◌, ◌⊎◌,
}
use may_must_rs.Base.Names.{entries, entries-set_entries}
use may_must_rs.Formula.Theory.{Theory}
use may_must_rs.Smt.Oracle.{IsSoundFor, Solver, answer}
use may_must_rs.Summaries.Answers.{Answers, SomeAnswers}
use may_must_rs.Summaries.Merge.{merge_entries_keeps_Answers}
use may_must_rs.Summaries.Table.{
  ContextualSummaryTable, NotMaySummary, Query, merge_entries, merge_notmay,
}

entries-merge_notmay :
    (z : Solver) (p j : String) (new : NotMaySummary) (table : ContextualSummaryTable)
    → entries j (merge_notmay z p new table).0.notmay ≡ (
        if test (String-discrete p j)
        then (merge_entries z (entries p table.notmay) new).0
        else entries j table.notmay)
unfolding merge_notmay
entries-merge_notmay z p j new table =
    entries-set_entries p j (merge_entries z (entries p table.notmay) new).0 table.notmay

-- For a sound solver: if `merge_notmay` succeeds, then every query that a summary of its procedure
-- answered is still answered by one, and so is every query to the merged procedure that the new
-- summary answers; no procedure loses an answer.
pub merge_notmay_keeps_Answers :
    (T : Theory) (z : Solver) (p : String) (new : NotMaySummary) (table : ContextualSummaryTable)
    (b : Bool) (q : Query)
    → IsSoundFor T z
    → (merge_notmay z p new table).1 ≡ answer b
    → SomeAnswers T (entries q.procedure table.notmay) q ⊎ ((p ≡ q.procedure) × Answers T new q)
    → SomeAnswers T (entries q.procedure (merge_notmay z p new table).0.notmay) q
unfolding merge_notmay
merge_notmay_keeps_Answers T z p new table b q sound h a =
    subst (λ l. SomeAnswers T l q) (sym (entries-merge_notmay z p q.procedure new table))
      (by_name (Bool-cases (test (String-discrete p q.procedure))))
  where
    old_or_new : p ≡ q.procedure → SomeAnswers T (entries p table.notmay) q ⊎ Answers T new q
    old_or_new e = elim a [
      | inl y ↦ inl (subst (λ n. SomeAnswers T (entries n table.notmay) q) (sym e) y)
      | inr (_, y) ↦ inr y
    ]

    apart : test (String-discrete p q.procedure) ≡ false → p ≡ q.procedure → ⊥
    apart f e = absurd (false_ne (sym f ∙ (test_iff (String-discrete p q.procedure)).1 e))
      where
        false_ne : false ≡ true → ⊥
        false_ne x = cc

    by_name :
        (test (String-discrete p q.procedure) ≡ true)
          ⊎ (test (String-discrete p q.procedure) ≡ false)
        → SomeAnswers T
            (if test (String-discrete p q.procedure)
              then (merge_entries z (entries p table.notmay) new).0
              else entries q.procedure table.notmay)
            q
    by_name (inl y) = rw y (
        merge_entries_keeps_Answers T z (entries p table.notmay)
          (merge_entries z (entries p table.notmay) new).0 new b q sound
          (λ i. ((merge_entries z (entries p table.notmay) new).0, h i))
          (old_or_new ((test_iff (String-discrete p q.procedure)).0 y)))
    by_name (inr f) = rw f (elim a [ inl y ↦ y | inr (e, _) ↦ absurd (apart f e) ])
