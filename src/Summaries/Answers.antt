-- ===== src/Summaries/Answers.antt =====
-- src/analysis/interproc/query.rs: what a summary answers, and what the covering test shows.
use may_must_rs.Base.{List, [], arith, false, inl, inr, refl, test_iff, true, ◌∷◌, ◌≡◌, ◌⊎◌}
use may_must_rs.Formula.Data.{Formula, Formula-discrete}
use may_must_rs.Formula.Theory.{State, Theory, holds}
use may_must_rs.Smt.Oracle.{
  Answer, FormulaError, IsSoundFor, Solver, answer, ill_sorted, oracle_implies_sound,
}
use may_must_rs.Summaries.Table.{
  NotMaySummary, Query, Subsumption, as_query, covers, does_not_cover, implies_with_shortcuts,
  is_covering, is_trivial, notmay_covers, oracle_unknown, validity_covers,
}

-- The summary answers the query in every state: the query's formulas imply the summary's.
abbrev pub Answers : Theory → NotMaySummary → Query → Type 0
Answers T s q =
    (x : State T)
    → (holds T x q.pre ≡ true → holds T x s.precondition ≡ true)
      × (holds T x q.post ≡ true → holds T x s.postcondition ≡ true)

abbrev pub SomeAnswers : Theory → List NotMaySummary → Query → Type 0
SomeAnswers T [] q = ⊥
SomeAnswers T (s ∷ ss) q = Answers T s q ⊎ SomeAnswers T ss q

module _ (T : Theory) (z : Solver) (sound : IsSoundFor T z) where
  implies_with_shortcuts_sound :
      (f g : Formula) (x : State T)
      → implies_with_shortcuts z f g ≡ answer covers
      → holds T x f ≡ true
      → holds T x g ≡ true
  unfolding implies_with_shortcuts is_trivial validity_covers holds
  implies_with_shortcuts_sound f g x h hf =
      ground (arith, test_iff (Formula-discrete f g), oracle_implies_sound T z f g x sound)

  pub notmay_covers_sound :
      (s : NotMaySummary) (q : Query) → notmay_covers z s q ≡ answer covers → Answers T s q
  unfolding notmay_covers is_covering
  notmay_covers_sound s q h x = (
    λ hp. ground (arith, implies_with_shortcuts_sound q.pre s.precondition x),
    λ hp. ground (arith, implies_with_shortcuts_sound q.post s.postcondition x),
  )

  pub Answers-trans :
      (s new : NotMaySummary) (q : Query)
      → Answers T s (as_query new)
      → Answers T new q
      → Answers T s q
  unfolding as_query
  Answers-trans s new q a b x = (λ h. (a x).0 ((b x).0 h), λ h. (a x).1 ((b x).1 h))

-- A case split on what one comparison answers.
pub split :
    (o : Answer Subsumption)
    → (o ≡ answer covers)
      ⊎ ((c : Subsumption) × (o ≡ answer c) × (is_covering c ≡ false))
      ⊎ ((e : FormulaError) × (o ≡ ill_sorted e))
unfolding is_covering
split (answer covers) = inl refl
split (answer does_not_cover) = inr (inl (does_not_cover, refl, refl))
split (answer oracle_unknown) = inr (inl (oracle_unknown, refl, refl))
split (ill_sorted e) = inr (inr (e, refl))
