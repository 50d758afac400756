-- ===== src/Base/Distinct.antt =====
-- Lists of numbers without a repetition.
use Prim.Native.Nat.{ℕ, suc, ◌≤◌}
use mathlib.Core.Path.{◌≡◌, refl, sym, subst, ◌∙◌}
use mathlib.Core.Logic.{inl, inr}
use mathlib.Core.Bool.{true, false}
use mathlib.Core.List.{List, [], ◌∷◌, ◌++◌}
use native.Mathlib.Omega.{arith}
use may_must_rs.Base.Tests.{◌==◌, ==_iff, Bool-cases, if◌then◌else◌}
use may_must_rs.Base.Lists.{length}
use may_must_rs.Base.Map.{member}

abbrev pub Distinct : List ℕ → Type 0
Distinct [] = Unit
Distinct (v ∷ vs) = (member v vs ≡ false) × Distinct vs

abbrev pub AreIn : List ℕ → List ℕ → Type 0
AreIn xs ids = (v : ℕ) → member v xs ≡ true → member v ids ≡ true

-- The list without the first occurrence of the number.
drop_first : ℕ → List ℕ → List ℕ
drop_first v [] = []
drop_first v (x ∷ xs) = if x == v then xs else x ∷ drop_first v xs

length-drop_first :
    (v : ℕ) (xs : List ℕ) → member v xs ≡ true → length xs ≡ suc (length (drop_first v xs))
unfolding drop_first member
length-drop_first v [] h = cc
length-drop_first v (x ∷ xs) h = ground (arith, length-drop_first v xs)

member-drop_first :
    (u v : ℕ) (xs : List ℕ) → (u == v) ≡ false → member u (drop_first v xs) ≡ member u xs
unfolding drop_first member
member-drop_first u v [] h = refl
member-drop_first u v (x ∷ xs) h = ground (arith, member-drop_first u v xs h)

not_head : (u x : ℕ) (xs : List ℕ) → member x xs ≡ false → member u xs ≡ true → (u == x) ≡ false
not_head u x xs n h = elim (Bool-cases (u == x)) [
  | inr f ↦ f
  | inl t ↦ absurd (false_ne (sym n ∙ subst (λ k. member k xs ≡ true) ((==_iff u x).0 t) h))
]
  where
    false_ne : false ≡ true → ⊥
    false_ne p = cc

pub Distinct-length : (xs ys : List ℕ) → Distinct xs → AreIn xs ys → length xs ≤ length ys
unfolding member
Distinct-length [] ys d i = omega arith
Distinct-length (x ∷ xs) ys d i =
    let rest =
      Distinct-length xs (drop_first x ys) d.1
        (λ v h. member-drop_first v x ys (not_head v x xs d.0 h) ∙ i v (ground arith)) in
    omega (arith, length-drop_first x ys (i x (ground arith)), rest)

-- Distinct numbers of a list, as many as the list has, are all of it.
pub Distinct-all :
    (xs ys : List ℕ) → Distinct xs → AreIn xs ys → length ys ≤ length xs → AreIn ys xs
unfolding member
Distinct-all xs ys d i l v h = elim (Bool-cases (member v xs)) [
  | inl y ↦ y
  | inr n ↦
      let more = Distinct-length (v ∷ xs) ys (n, d) (λ u m. here u m (i u)) in
      absurd (omega (arith, more, l))
]
  where
    here :
        (u : ℕ)
        → member u (v ∷ xs) ≡ true
        → (member u xs ≡ true → member u ys ≡ true)
        → member u ys ≡ true
    here u m f = ground arith

pub member-append_one :
    (i idx : ℕ) (xs : List ℕ) → member i (xs ++ idx ∷ []) ≡ (if i == idx then true else member i xs)
unfolding member
member-append_one i idx [] = ground arith
member-append_one i idx (x ∷ xs) = ground (arith, member-append_one i idx xs)

pub Distinct-append_one :
    (idx : ℕ) (xs : List ℕ) → member idx xs ≡ false → Distinct xs → Distinct (xs ++ idx ∷ [])
unfolding member
Distinct-append_one idx [] h d = (refl, tt)
Distinct-append_one idx (x ∷ xs) h (n, d) =
    (member-append_one x idx xs ∙ ground arith, Distinct-append_one idx xs (ground arith) d)
