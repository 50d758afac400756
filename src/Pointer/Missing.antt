-- ===== src/Pointer/Missing.antt =====
-- src/pointer_analysis/andersen.rs: how many entries of a finite solution the sets do not have yet.
use may_must_rs.Base.{
  Bool, Bool-cases, List, String, String-discrete, [], arith, false, if◌then◌else◌, inl, inr, refl,
  subst, suc, sym, test, test_iff, true, ℕ, ◌<◌, ◌∷◌, ◌≡◌, ◌≤◌, ◌⊎◌,
}
use may_must_rs.Base.Names.{TextMap, entries}
use may_must_rs.Pointer.Constraint.{AbstractLoc, has_loc}
use may_must_rs.Pointer.Facts.{InSet}

-- The entries of a map of sets.
abbrev pub Entries : Type 0
Entries = List (String × AbstractLoc)

pair_all : String → List AbstractLoc → Entries → Entries
pair_all p [] rest = rest
pair_all p (x ∷ xs) rest = (p, x) ∷ pair_all p xs rest

unfoldable pub all_entries : TextMap (List AbstractLoc) → Entries
unfolding pair_all
all_entries [] = []
all_entries ((p, xs) ∷ m) = pair_all p xs (all_entries m)

abbrev IsEntry : String → AbstractLoc → Entries → Type 0
IsEntry p x [] = ⊥
IsEntry p x ((q, y) ∷ u) = ((q ≡ p) × (y ≡ x)) ⊎ IsEntry p x u

-- The entries that a map does not have.
unfoldable pub missing : Entries → TextMap (List AbstractLoc) → ℕ
unfolding has_loc entries
missing [] m = 0
missing ((p, x) ∷ u) m = if has_loc x (entries p m) then missing u m else suc (missing u m)

IsEntry-later :
    (p q : String) (x : AbstractLoc) (ys : List AbstractLoc) (u : Entries)
    → IsEntry p x u
    → IsEntry p x (pair_all q ys u)
unfolding pair_all
IsEntry-later p q x [] u h = h
IsEntry-later p q x (y ∷ ys) u h = inr (IsEntry-later p q x ys u h)

IsEntry-here :
    (p : String) (x : AbstractLoc) (ys : List AbstractLoc) (u : Entries)
    → has_loc x ys ≡ true
    → IsEntry p x (pair_all p ys u)
unfolding pair_all has_loc
IsEntry-here p x [] u h = absurd (false_ne h)
  where
    false_ne : false ≡ true → ⊥
    false_ne z = cc
IsEntry-here p x (y ∷ ys) u h = elim (Bool-cases (test (String-discrete y x))) [
  | inl e ↦ inl (refl, (test_iff (String-discrete y x)).0 e)
  | inr n ↦ inr (IsEntry-here p x ys u (rw n at h))
]

InSet-IsEntry :
    (p : String) (x : AbstractLoc) (m : TextMap (List AbstractLoc))
    → InSet m p x
    → IsEntry p x (all_entries m)
unfolding all_entries entries has_loc
InSet-IsEntry p x [] h = absurd (false_ne h)
  where
    false_ne : false ≡ true → ⊥
    false_ne z = cc
InSet-IsEntry p x ((q, xs) ∷ m) h = elim (Bool-cases (test (String-discrete q p))) [
  | inl e ↦
      subst (λ z. IsEntry p x (pair_all z xs (all_entries m)))
        (sym ((test_iff (String-discrete q p)).0 e))
        (IsEntry-here p x xs (all_entries m) (rw e at h))
  | inr n ↦ IsEntry-later p q x xs (all_entries m) (InSet-IsEntry p x m (rw n at h))
]

abbrev pub IsWithin : TextMap (List AbstractLoc) → TextMap (List AbstractLoc) → Type 0
IsWithin m k = (p : String) (x : AbstractLoc) → InSet m p x → InSet k p x

pub missing_le :
    (u : Entries) (m k : TextMap (List AbstractLoc)) → IsWithin m k → missing u k ≤ missing u m
unfolding missing
missing_le [] m k h = omega arith
missing_le ((p, x) ∷ u) m k h =
    let rest = missing_le u m k h in
    elim (Bool-cases (has_loc x (entries p m))) [
      | inl y ↦ rw (y, h p x y) rest
      | inr n ↦ rw n (grown (has_loc x (entries p k)) (missing u k) (missing u m) rest)
    ]
  where
    grown : (b : Bool) (a c : ℕ) → a ≤ c → (if b then a else suc a) ≤ suc c
    grown b a c l = ground arith

missing_lt_entry :
    (p : String) (x : AbstractLoc) (u : Entries) (m k : TextMap (List AbstractLoc))
    → IsWithin m k
    → IsEntry p x u
    → has_loc x (entries p m) ≡ false
    → InSet k p x
    → missing u k < missing u m
unfolding missing
missing_lt_entry p x [] m k h e f i = absurd e
missing_lt_entry p x ((q, y) ∷ u) m k h (inl (a, b)) f i =
    let rest = missing_le u m k h in rw (a, b, f, i) (omega (arith, rest))
missing_lt_entry p x ((q, y) ∷ u) m k h (inr e) f i =
    let rest = missing_lt_entry p x u m k h e f i in
    elim (Bool-cases (has_loc y (entries q m))) [
      | inl t ↦ rw (t, h q y t) rest
      | inr n ↦ rw n (grown (has_loc y (entries q k)) (missing u k) (missing u m) rest)
    ]
  where
    grown : (b : Bool) (a c : ℕ) → a < c → (if b then a else suc a) < suc c
    grown b a c l = ground arith

-- A new entry of the solution makes fewer of them missing.
pub missing_lt :
    (p : String) (x : AbstractLoc) (m k full : TextMap (List AbstractLoc))
    → IsWithin m k
    → InSet full p x
    → has_loc x (entries p m) ≡ false
    → InSet k p x
    → missing (all_entries full) k < missing (all_entries full) m
missing_lt p x m k full h e f i =
    missing_lt_entry p x (all_entries full) m k h (InSet-IsEntry p x full e) f i
