-- ===== src/Summaries/Extend.antt =====
-- src/analysis/interproc/query.rs: `extend_from` loses no summary.
use may_must_rs.Base.{
  Bool-cases, List, String, String-discrete, [], ap, arith, false, if◌then◌else◌, inl, inr, refl,
  subst, sym, test, test_iff, true, ◌++◌, ◌∷◌, ◌≡◌, ◌⊎◌,
}
use may_must_rs.Base.Names.{TextMap, entries, entries-set_entries, set_entries}
use may_must_rs.Summaries.Must.{
  ContextualMustSummary-discrete, MaySummary-discrete, NotMaySummary-discrete, add_summaries,
  add_summary, contains_summary, extend_from, extend_map, push_summaries, push_summary, push_to,
}
use may_must_rs.Summaries.Table.{
  ContextualMustSummary, ContextualSummaryTable, MaySummary, NotMaySummary,
}

module _ {ℓ} {A : Type ℓ} (same : Discrete A) where
  -- The procedure has the summary.
  abbrev pub Lists : TextMap (List A) → String → A → Type 0
  Lists m p x = contains_summary same x (entries p m) ≡ true

  contains-append :
      (x y : A) (xs : List A)
      → contains_summary same x (xs ++ y ∷ [])
        ≡ (if test (same y x) then true else contains_summary same x xs)
  unfolding contains_summary
  contains-append x y [] = refl
  contains-append x y (w ∷ ws) = ground (arith, contains-append x y ws)

  push_summary_keeps :
      (x y : A) (xs : List A)
      → contains_summary same x xs ≡ true
      → contains_summary same x (push_summary same y xs) ≡ true
  unfolding push_summary
  push_summary_keeps x y xs h = elim (Bool-cases (contains_summary same y xs)) [
    | inl t ↦ rw t h
    | inr f ↦ rw (f, contains-append x y xs) (ground arith)
  ]

  push_summary_adds :
      (x : A) (xs : List A) → contains_summary same x (push_summary same x xs) ≡ true
  unfolding push_summary
  push_summary_adds x xs = elim (Bool-cases (contains_summary same x xs)) [
    | inl t ↦ rw (t, t) refl
    | inr f ↦ rw (f, contains-append x x xs, (test_iff (same x x)).1 refl) refl
  ]

  push_summaries_keeps :
      (x : A) (ss xs : List A)
      → contains_summary same x xs ≡ true
      → contains_summary same x (push_summaries same ss xs) ≡ true
  unfolding push_summaries
  push_summaries_keeps x [] xs h = h
  push_summaries_keeps x (s ∷ ss) xs h =
      push_summaries_keeps x ss (push_summary same s xs) (push_summary_keeps x s xs h)

  push_summaries_adds :
      (x : A) (ss xs : List A)
      → contains_summary same x ss ≡ true
      → contains_summary same x (push_summaries same ss xs) ≡ true
  unfolding push_summaries contains_summary
  push_summaries_adds x [] xs h = absurd (false_ne h)
    where
      false_ne : false ≡ true → ⊥
      false_ne q = cc
  push_summaries_adds x (s ∷ ss) xs h = elim (Bool-cases (test (same s x))) [
    | inl e ↦ push_summaries_keeps x ss (push_summary same s xs) (
        subst (λ y. contains_summary same x (push_summary same y xs) ≡ true)
          (sym ((test_iff (same s x)).0 e)) (push_summary_adds x xs))
    | inr n ↦ push_summaries_adds x ss (push_summary same s xs) (rw n at h)
  ]

  entries-add_summaries :
      (q p : String) (ss : List A) (m : TextMap (List A))
      → entries p (add_summaries same q ss m)
        ≡ (if test (String-discrete q p) then push_summaries same ss (entries q m) else entries p m)
  unfolding add_summaries add_summary push_summaries
  entries-add_summaries q p [] m = elim (Bool-cases (test (String-discrete q p))) [
    | inl e ↦ rw e (ap (λ n. entries n m) (sym ((test_iff (String-discrete q p)).0 e)))
    | inr n ↦ rw n refl
  ]
  entries-add_summaries q p (s ∷ ss) m =
      rw
        (
          entries-add_summaries q p ss (set_entries q (push_summary same s (entries q m)) m),
          entries-set_entries q q (push_summary same s (entries q m)) m,
          (test_iff (String-discrete q q)).1 refl,
          entries-set_entries q p (push_summary same s (entries q m)) m,
        )
        (ground arith)

  entries-push_to :
      (q p : String) (ss : List A) (m : TextMap (List A))
      → entries p (push_to same q ss m)
        ≡ (if test (String-discrete q p) then push_summaries same ss (entries q m) else entries p m)
  unfolding push_to
  entries-push_to q p ss m = entries-set_entries q p (push_summaries same ss (entries q m)) m

-- A step that joins a procedure's summaries to the map's, and leaves the other procedures alone.
abbrev JoinsOne {ℓ} :
    {A : Type ℓ} → Discrete A → (String → List A → TextMap (List A) → TextMap (List A)) → Type ℓ
JoinsOne {A = A} same step =
    (q p : String) (ss : List A) (m : TextMap (List A))
    → entries p (step q ss m)
      ≡ (if test (String-discrete q p) then push_summaries same ss (entries q m) else entries p m)

module _ {ℓ} {A : Type ℓ} (same : Discrete A)
    (step : String → List A → TextMap (List A) → TextMap (List A)) (law : JoinsOne same step) where
  extend_map_keeps :
      (other m : TextMap (List A)) (p : String) (x : A)
      → Lists same m p x
      → Lists same (extend_map step other m) p x
  unfolding extend_map
  extend_map_keeps [] m p x h = h
  extend_map_keeps ((q, ss) ∷ other) m p x h =
      extend_map_keeps other (step q ss m) p x
        (rw (law q p ss m) (by_name (Bool-cases (test (String-discrete q p)))))
    where
      by_name :
          (test (String-discrete q p) ≡ true) ⊎ (test (String-discrete q p) ≡ false)
          → contains_summary same x (
              if test (String-discrete q p)
              then push_summaries same ss (entries q m)
              else entries p m)
            ≡ true
      by_name (inl e) = rw e (
          push_summaries_keeps same x ss (entries q m) (
            subst (λ n. contains_summary same x (entries n m) ≡ true)
              (sym ((test_iff (String-discrete q p)).0 e)) h))
      by_name (inr n) = rw n h

  extend_map_adds :
      (other m : TextMap (List A)) (p : String) (x : A)
      → Lists same other p x
      → Lists same (extend_map step other m) p x
  unfolding extend_map entries contains_summary
  extend_map_adds [] m p x h = absurd (false_ne h)
    where
      false_ne : false ≡ true → ⊥
      false_ne q = cc
  extend_map_adds ((q, ss) ∷ other) m p x h =
      let next = step q ss m in
      elim (Bool-cases (test (String-discrete q p))) [
        | inl e ↦
            extend_map_keeps other next p x
              (rw (law q p ss m, e) (push_summaries_adds same x ss (entries q m) (rw e at h)))
        | inr n ↦ extend_map_adds other next p x (rw n at h)
      ]

  pub extend_map_joins :
      (other m : TextMap (List A)) (p : String) (x : A)
      → Lists same m p x ⊎ Lists same other p x
      → Lists same (extend_map step other m) p x
  extend_map_joins other m p x (inl h) = extend_map_keeps other m p x h
  extend_map_joins other m p x (inr h) = extend_map_adds other m p x h

-- Every summary of the first table is in the second one, whatever its kind.
abbrev pub IsPart : ContextualSummaryTable → ContextualSummaryTable → Type 0
IsPart a b =
    ((p : String) (x : NotMaySummary)
      → Lists NotMaySummary-discrete a.notmay p x
      → Lists NotMaySummary-discrete b.notmay p x)
    × ((p : String) (x : ContextualMustSummary)
        → Lists ContextualMustSummary-discrete a.must p x
        → Lists ContextualMustSummary-discrete b.must p x)
    × ((p : String) (x : MaySummary)
        → Lists MaySummary-discrete a.forward_may p x
        → Lists MaySummary-discrete b.forward_may p x)

pub extend_from-IsPart :
    (table other : ContextualSummaryTable)
    → IsPart table (extend_from table other) × IsPart other (extend_from table other)
unfolding extend_from
extend_from-IsPart table other = (
  (
    (λ p x h.
        extend_map_joins NotMaySummary-discrete (add_summaries NotMaySummary-discrete)
          (entries-add_summaries NotMaySummary-discrete) other.notmay table.notmay p x (inl h)),
    (λ p x h.
        extend_map_joins ContextualMustSummary-discrete (push_to ContextualMustSummary-discrete)
          (entries-push_to ContextualMustSummary-discrete) other.must table.must p x (inl h)),
    (λ p x h.
        extend_map_joins MaySummary-discrete (add_summaries MaySummary-discrete)
          (entries-add_summaries MaySummary-discrete) other.forward_may table.forward_may p x
          (inl h)),
  ),
  (
    (λ p x h.
        extend_map_joins NotMaySummary-discrete (add_summaries NotMaySummary-discrete)
          (entries-add_summaries NotMaySummary-discrete) other.notmay table.notmay p x (inr h)),
    (λ p x h.
        extend_map_joins ContextualMustSummary-discrete (push_to ContextualMustSummary-discrete)
          (entries-push_to ContextualMustSummary-discrete) other.must table.must p x (inr h)),
    (λ p x h.
        extend_map_joins MaySummary-discrete (add_summaries MaySummary-discrete)
          (entries-add_summaries MaySummary-discrete) other.forward_may table.forward_may p x
          (inr h)),
  ),
)
