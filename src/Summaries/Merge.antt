-- ===== src/Summaries/Merge.antt =====
-- src/analysis/interproc/query.rs: what summaries answer, and the merge of a procedure's list.
use may_must_rs.Base.{
  Bool, List, Option, [], ap, arith, false, if◌then◌else◌, inl, inr, none, refl, some, subst, sym,
  true, ◌++◌, ◌∷◌, ◌≡◌, ◌⊎◌,
}
use may_must_rs.Base.Names.{entries}
use may_must_rs.Formula.Theory.{Theory}
use may_must_rs.Smt.Oracle.{Answer, FormulaError, IsSoundFor, Solver, answer, ill_sorted}
use may_must_rs.Summaries.Answers.{Answers, Answers-trans, SomeAnswers, notmay_covers_sound, split}
use may_must_rs.Summaries.Table.{
  ContextualSummaryTable, NotMaySummary, Query, Subsumption, as_query, covers, does_not_cover,
  first_notmay, is_covered, is_covering, lookup_notmay_covering, merge_entries, merge_outcome,
  not_covered_by, notmay_covers, oracle_unknown, ◌>>=◌,
}

-- No summary of the list is found to cover the query.
abbrev pub NoneCovers : Solver → List NotMaySummary → Query → Type 0
NoneCovers z [] q = Unit
NoneCovers z (s ∷ ss) q =
    ((c : Subsumption) × (notmay_covers z s q ≡ answer c) × (is_covering c ≡ false))
    × NoneCovers z ss q

-- What a lookup may answer for a list. A summary stands in the list, behind none that is found to
-- cover the query, and the query's formulas imply its formulas in every state.
abbrev pub IsLookup : Theory → Solver → List NotMaySummary → Query → Option NotMaySummary → Type 0
IsLookup T z ss q none = NoneCovers z ss q
IsLookup T z ss q (some s) =
    (earlier : List NotMaySummary) × (later : List NotMaySummary) × (ss ≡ earlier ++ s ∷ later)
    × NoneCovers z earlier q
    × Answers T s q

module _ (T : Theory) (z : Solver) (sound : IsSoundFor T z) where
  kept_or_dropped :
      (s : NotMaySummary) (c : Answer Subsumption) (r : Answer (List NotMaySummary))
      (kept : List NotMaySummary)
      → (c >>= λ c. r >>= λ rest. answer (if is_covering c then rest else s ∷ rest)) ≡ answer kept
      → (c ≡ answer covers) × (r ≡ answer kept)
        ⊎ ((rest : List NotMaySummary) × (r ≡ answer rest) × (kept ≡ s ∷ rest))
  unfolding is_covering
  kept_or_dropped s (answer covers) (answer rest) kept h = inl (refl, h)
  kept_or_dropped s (answer does_not_cover) (answer rest) kept h = inr (rest, refl, cc)
  kept_or_dropped s (answer oracle_unknown) (answer rest) kept h = inr (rest, refl, cc)
  kept_or_dropped s _ _ kept h = cc

  is_covered_sound :
      (ss : List NotMaySummary) (new : NotMaySummary)
      → is_covered z ss new ≡ answer true
      → SomeAnswers T ss (as_query new)
  unfolding is_covered is_covering
  is_covered_sound [] new h = ground arith
  is_covered_sound (s ∷ ss) new h = elim (split (notmay_covers z s (as_query new))) [
    | inl y ↦ inl (notmay_covers_sound T z sound s (as_query new) y)
    | inr (inl (c, e, n)) ↦ inr (is_covered_sound ss new (rw (e, n, is_covered) at h))
    | inr (inr (x, e)) ↦ absurd (ill_ne (rw (e, is_covered) at h))
  ]
    where
      ill_ne : {x : FormulaError} → ill_sorted x ≡ answer true → ⊥
      ill_ne p = cc

  not_covered_by-keeps :
      (new : NotMaySummary) (ss kept : List NotMaySummary) (q : Query)
      → not_covered_by z new ss ≡ answer kept
      → SomeAnswers T ss q
      → Answers T new q ⊎ SomeAnswers T kept q
  unfolding not_covered_by is_covering as_query
  not_covered_by-keeps new [] kept q h a = absurd a
  not_covered_by-keeps new (s ∷ ss) kept q h a =
      elim (kept_or_dropped s (notmay_covers z new (as_query s)) (not_covered_by z new ss) kept h) [
        | inl (c, r) ↦ elim a [
          | inl y ↦
              inl (
                Answers-trans T z sound new s q (notmay_covers_sound T z sound new (as_query s) c)
                  y)
          | inr y ↦ not_covered_by-keeps new ss kept q r y
        ]
        | inr (rest, r, k) ↦ elim a [
          | inl y ↦ inr (subst (λ l. SomeAnswers T l q) (sym k) (inl y))
          | inr y ↦ elim (not_covered_by-keeps new ss rest q r y) [
            | inl n ↦ inl n
            | inr m ↦ inr (subst (λ l. SomeAnswers T l q) (sym k) (inr m))
          ]
        ]
      ]

  SomeAnswers-append :
      (kept : List NotMaySummary) (new : NotMaySummary) (q : Query)
      → Answers T new q ⊎ SomeAnswers T kept q
      → SomeAnswers T (kept ++ new ∷ []) q
  SomeAnswers-append [] new q (inl y) = inl y
  SomeAnswers-append [] new q (inr y) = absurd y
  SomeAnswers-append (s ∷ ss) new q (inl y) = inr (SomeAnswers-append ss new q (inl y))
  SomeAnswers-append (s ∷ ss) new q (inr (inl y)) = inl y
  SomeAnswers-append (s ∷ ss) new q (inr (inr y)) = inr (SomeAnswers-append ss new q (inr y))

  SomeAnswers-trans :
      (ss : List NotMaySummary) (new : NotMaySummary) (q : Query)
      → SomeAnswers T ss (as_query new)
      → Answers T new q
      → SomeAnswers T ss q
  SomeAnswers-trans [] new q a b = absurd a
  SomeAnswers-trans (s ∷ ss) new q (inl a) b = inl (Answers-trans T z sound s new q a b)
  SomeAnswers-trans (s ∷ ss) new q (inr a) b = inr (SomeAnswers-trans ss new q a b)

  merged :
      (o : Answer Bool) (r : Answer (List NotMaySummary)) (old kept : List NotMaySummary)
      (new : NotMaySummary) (b : Bool)
      → merge_outcome o r old new ≡ (kept, answer b)
      → (o ≡ answer true) × (kept ≡ old)
        ⊎ ((l : List NotMaySummary) × (r ≡ answer l) × (kept ≡ l ++ new ∷ []))
  unfolding merge_outcome
  merged (answer true) r old kept new b h = inl (refl, sym (ap (λ p. p.0) h))
  merged (answer false) (answer l) old kept new b h = inr (l, refl, cc)
  merged _ _ old kept new b h = cc

  found_here :
      (t : NotMaySummary) (ss : List NotMaySummary) (q : Query) (r : Option NotMaySummary)
      → notmay_covers z t q ≡ answer covers
      → answer (some t) ≡ answer r
      → IsLookup T z (t ∷ ss) q r
  found_here t ss q none y h = cc
  found_here t ss q (some s) y h = (
    [],
    ss,
    ap (λ u. u ∷ ss) same,
    tt,
    subst (λ u. Answers T u q) same (notmay_covers_sound T z sound t q y),
  )
    where
      same : t ≡ s
      same = cc

  found_later :
      (t : NotMaySummary) (ss : List NotMaySummary) (q : Query) (r : Option NotMaySummary)
      → ((c : Subsumption) × (notmay_covers z t q ≡ answer c) × (is_covering c ≡ false))
      → IsLookup T z ss q r
      → IsLookup T z (t ∷ ss) q r
  found_later t ss q none n l = (n, l)
  found_later t ss q (some s) n (earlier, later, here, free, a) =
      (t ∷ earlier, later, ap (λ l. t ∷ l) here, (n, free), a)

  first_notmay-IsLookup :
      (ss : List NotMaySummary) (q : Query) (r : Option NotMaySummary)
      → first_notmay z ss q ≡ answer r
      → IsLookup T z ss q r
  unfolding first_notmay
  first_notmay-IsLookup [] q none h = tt
  first_notmay-IsLookup [] q (some s) h = cc
  first_notmay-IsLookup (t ∷ ss) q r h = elim (split (notmay_covers z t q)) [
    | inl y ↦ found_here t ss q r y (rw (y, first_notmay, is_covering) at h)
    | inr (inl (c, e, n)) ↦
        found_later t ss q r (c, e, n) (first_notmay-IsLookup ss q r (rw (e, n, first_notmay) at h))
    | inr (inr (x, e)) ↦ absurd (ill_ne (rw (e, first_notmay) at h))
  ]
    where
      ill_ne : {x : FormulaError} → ill_sorted x ≡ answer r → ⊥
      ill_ne p = cc

  merge_entries-keeps :
      (old kept : List NotMaySummary) (new : NotMaySummary) (b : Bool) (q : Query)
      → merge_entries z old new ≡ (kept, answer b)
      → SomeAnswers T old q ⊎ Answers T new q
      → SomeAnswers T kept q
  unfolding merge_entries
  merge_entries-keeps old kept new b q h a =
      elim (merged (is_covered z old new) (not_covered_by z new old) old kept new b h) [
        | inl (o, k) ↦
            subst (λ l. SomeAnswers T l q) (sym k)
              (elim a [
                | inl y ↦ y
                | inr y ↦ SomeAnswers-trans old new q (is_covered_sound old new o) y
              ])
        | inr (l, r, k) ↦
            subst (λ m. SomeAnswers T m q) (sym k)
              (SomeAnswers-append l new q
                (elim a [ inl y ↦ not_covered_by-keeps new old l q r y | inr y ↦ inl y ]))
      ]

-- For a sound solver: if merging a new summary into a procedure's list succeeds, then every query
-- that an old summary or the new one answers is answered by a summary of the resulting list.
pub merge_entries_keeps_Answers :
    (T : Theory) (z : Solver) (old kept : List NotMaySummary) (new : NotMaySummary) (b : Bool)
    (q : Query)
    → IsSoundFor T z
    → merge_entries z old new ≡ (kept, answer b)
    → SomeAnswers T old q ⊎ Answers T new q
    → SomeAnswers T kept q
merge_entries_keeps_Answers T z old kept new b q sound h a =
    merge_entries-keeps T z sound old kept new b q h a

-- For a sound solver: where `lookup_notmay_covering` returns a summary, this is a summary of the
-- query's procedure, the first in its list that is found to cover the query, and in every state the
-- query's formulas imply the summary's; where it returns none, no summary of the query's procedure
-- is found to cover the query.
pub lookup_notmay_covering_sound :
    (T : Theory) (z : Solver) (table : ContextualSummaryTable) (q : Query)
    (r : Option NotMaySummary)
    → IsSoundFor T z
    → lookup_notmay_covering z table q ≡ answer r
    → IsLookup T z (entries q.procedure table.notmay) q r
unfolding lookup_notmay_covering
lookup_notmay_covering_sound T z table q r sound h =
    first_notmay-IsLookup T z sound (entries q.procedure table.notmay) q r h
