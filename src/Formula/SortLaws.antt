-- ===== src/Formula/SortLaws.antt =====
-- src/formula/mod.rs: what a successful check says of its parts.
use may_must_rs.Base.{
  Bool-cases, ap, false, inl, inr, refl, sym, test, test_iff, true, ◌∙◌, ◌≡◌, ◌⊎◌,
}
use may_must_rs.Formula.Data.{Formula, Formulas, Memory, Sort, Sort-discrete, Term, bool, int, real}
use may_must_rs.Formula.Sorts.{
  Check, integral, integral_pair, numeric, numeric_pair, sort_of, sorted, then_check, then_sort,
  validate, validate_items, validate_memory,
}
use may_must_rs.Smt.Oracle.{Answer, FormulaError, answer, ill_sorted}

abbrev pub IsSorted : Term → Sort → Type 0
IsSorted t s = sort_of t ≡ answer s

abbrev pub IsValid : Formula → Type 0
IsValid f = validate f ≡ answer tt

abbrev pub AreValid : Formulas → Type 0
AreValid fs = validate_items fs ≡ answer tt

abbrev pub IsValidMemory : Memory → Type 0
IsValidMemory m = validate_memory m ≡ answer tt

wrong {ℓ} : {A : Type ℓ} {e : FormulaError} {a : A} → ill_sorted e ≡ answer a → ⊥
wrong h = cc

pub then_check-answer :
    (a b : Check) → then_check a b ≡ answer tt → (a ≡ answer tt) × (b ≡ answer tt)
unfolding then_check
then_check-answer (ill_sorted e) b h = absurd (wrong h)
then_check-answer (answer tt) b h = (refl, h)

pub then_sort-answer :
    (a : Check) (s t : Sort) → then_sort a s ≡ answer t → (a ≡ answer tt) × (s ≡ t)
unfolding then_sort
then_sort-answer (ill_sorted e) s t h = absurd (wrong h)
then_sort-answer (answer tt) s t h = (refl, answer_eq h)
  where
    answer_eq : {x y : Sort} → answer x ≡ answer y → x ≡ y
    answer_eq q = cc

pub sorted-answer : (a : Answer Sort) → sorted a ≡ answer tt → (s : Sort) × (a ≡ answer s)
unfolding sorted
sorted-answer (ill_sorted e) h = absurd (wrong h)
sorted-answer (answer s) h = (s, refl)

pub numeric-answer : (a : Answer Sort) (s : Sort) → numeric a ≡ answer s → a ≡ answer s
unfolding numeric
numeric-answer (ill_sorted e) s h = absurd (wrong h)
numeric-answer (answer bool) s h = absurd (wrong h)
numeric-answer (answer int) s h = h
numeric-answer (answer real) s h = h

pub integral-answer : (a : Answer Sort) (s : Sort) → integral a ≡ answer s → a ≡ answer s
unfolding integral
integral-answer (ill_sorted e) s h = absurd (wrong h)
integral-answer (answer bool) s h = absurd (wrong h)
integral-answer (answer int) s h = h
integral-answer (answer real) s h = absurd (wrong h)

pub numeric_pair-answer :
    (a b : Answer Sort) (s : Sort) → numeric_pair a b ≡ answer s → (a ≡ answer s) × (b ≡ answer s)
unfolding numeric_pair
numeric_pair-answer (ill_sorted e) b s h = absurd (wrong h)
numeric_pair-answer (answer x) (ill_sorted e) s h = absurd (wrong h)
numeric_pair-answer (answer x) (answer y) s h =
    by_sorts (Bool-cases (test (Sort-discrete x y))) (Bool-cases (test (Sort-discrete x bool)))
  where
    by_sorts :
        (test (Sort-discrete x y) ≡ true) ⊎ (test (Sort-discrete x y) ≡ false)
        → (test (Sort-discrete x bool) ≡ true) ⊎ (test (Sort-discrete x bool) ≡ false)
        → (answer x ≡ answer s) × (answer y ≡ answer s)
    by_sorts (inr f) c = absurd (wrong (rw f at h))
    by_sorts (inl e) (inl f) = absurd (wrong (rw (e, f) at h))
    by_sorts (inl e) (inr f) =
        let same = rw (e, f) at h in
        (same, ap (λ z. answer z) (sym ((test_iff (Sort-discrete x y)).0 e)) ∙ same)

pub integral_pair-answer :
    (a b : Answer Sort)
    → integral_pair a b ≡ answer tt
    → ((s : Sort) × (a ≡ answer s)) × ((t : Sort) × (b ≡ answer t))
unfolding integral_pair
integral_pair-answer (ill_sorted e) b h = absurd (wrong h)
integral_pair-answer (answer s) (ill_sorted e) h = absurd (wrong h)
integral_pair-answer (answer s) (answer t) h = ((s, refl), (t, refl))
