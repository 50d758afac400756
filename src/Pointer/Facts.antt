-- ===== src/Pointer/Facts.antt =====
-- src/pointer_analysis/andersen.rs: what an insertion adds to the sets of the alias result.
use may_must_rs.Base.{
  Bool, Bool-cases, List, String, String-discrete, ap, false, if◌then◌else◌, inl, inr, refl, subst,
  sym, test, test_iff, true, ◌&&◌, ◌∙◌, ◌∷◌, ◌≡◌, ◌⊎◌,
}
use may_must_rs.Base.Names.{TextMap, entries, entries-set_entries, set_entries}
use may_must_rs.Pointer.Constraint.{AbstractLoc, AliasResult, has_loc, insert_loc}

-- The set of the name has the location.
abbrev pub InSet : TextMap (List AbstractLoc) → String → AbstractLoc → Type 0
InSet m p loc = has_loc loc (entries p m) ≡ true

abbrev pub Points : AliasResult → String → AbstractLoc → Type 0
Points r p loc = InSet r.pts p loc

abbrev pub Stored : AliasResult → AbstractLoc → AbstractLoc → Type 0
Stored r slot loc = InSet r.pts_mem slot loc

-- `m.entry(p).or_default().insert(loc)`
abbrev pub add_entry :
    String → AbstractLoc → TextMap (List AbstractLoc) → TextMap (List AbstractLoc)
add_entry p loc m = set_entries p (insert_loc loc (entries p m)) m

has_loc-insert_loc :
    (loc x : AbstractLoc) (xs : List AbstractLoc)
    → has_loc x (insert_loc loc xs) ≡ (if test (String-discrete loc x) then true else has_loc x xs)
unfolding insert_loc
has_loc-insert_loc loc x xs = elim (Bool-cases (has_loc loc xs)) [
  | inl y ↦ already (Bool-cases (test (String-discrete loc x))) y
  | inr n ↦ rw (n, has_loc) refl
]
  where
    already :
        (test (String-discrete loc x) ≡ true) ⊎ (test (String-discrete loc x) ≡ false)
        → has_loc loc xs ≡ true
        → has_loc x (if has_loc loc xs then xs else loc ∷ xs)
          ≡ (if test (String-discrete loc x) then true else has_loc x xs)
    already (inl e) y =
        rw (y, e) (subst (λ z. has_loc z xs ≡ true) ((test_iff (String-discrete loc x)).0 e) y)
    already (inr e) y = rw (y, e) refl

InSet-add_entry :
    (p q : String) (loc x : AbstractLoc) (m : TextMap (List AbstractLoc))
    → has_loc x (entries q (add_entry p loc m)) ≡ (
        if test (String-discrete p q) && test (String-discrete loc x)
        then true
        else has_loc x (entries q m))
InSet-add_entry p q loc x m =
    ap (λ xs. has_loc x xs) (entries-set_entries p q (insert_loc loc (entries p m)) m)
    ∙ by_name (Bool-cases (test (String-discrete p q)))
  where
    by_name :
        (test (String-discrete p q) ≡ true) ⊎ (test (String-discrete p q) ≡ false)
        → has_loc x
            (if test (String-discrete p q) then insert_loc loc (entries p m) else entries q m)
          ≡ (if test (String-discrete p q) && test (String-discrete loc x)
              then true
              else has_loc x (entries q m))
    by_name (inl e) = rw e (
        has_loc-insert_loc loc x (entries p m)
        ∙ ap (λ n. if test (String-discrete loc x) then true else has_loc x (entries n m))
            ((test_iff (String-discrete p q)).0 e))
    by_name (inr e) = rw e refl

-- What was there stays, and the location is there.
pub InSet-add_entry_old :
    (p q : String) (loc x : AbstractLoc) (m : TextMap (List AbstractLoc))
    → InSet m q x
    → InSet (add_entry p loc m) q x
InSet-add_entry_old p q loc x m h =
    InSet-add_entry p q loc x m
    ∙ either (test (String-discrete p q) && test (String-discrete loc x))
  where
    either : (b : Bool) → (if b then true else has_loc x (entries q m)) ≡ true
    either true = refl
    either false = h

pub InSet-add_entry_new :
    (p : String) (loc : AbstractLoc) (m : TextMap (List AbstractLoc))
    → InSet (add_entry p loc m) p loc
InSet-add_entry_new p loc m =
    InSet-add_entry p p loc loc m
    ∙ rw ((test_iff (String-discrete p p)).1 refl, (test_iff (String-discrete loc loc)).1 refl) refl

-- Nothing else comes in.
pub InSet-add_entry_inv :
    (p q : String) (loc x : AbstractLoc) (m : TextMap (List AbstractLoc))
    → InSet (add_entry p loc m) q x
    → InSet m q x ⊎ ((p ≡ q) × (loc ≡ x))
InSet-add_entry_inv p q loc x m h =
    split (Bool-cases (test (String-discrete p q))) (Bool-cases (test (String-discrete loc x)))
      (sym (InSet-add_entry p q loc x m) ∙ h)
  where
    split :
        (test (String-discrete p q) ≡ true) ⊎ (test (String-discrete p q) ≡ false)
        → (test (String-discrete loc x) ≡ true) ⊎ (test (String-discrete loc x) ≡ false)
        → (if test (String-discrete p q) && test (String-discrete loc x)
            then true
            else has_loc x (entries q m))
          ≡ true
        → InSet m q x ⊎ ((p ≡ q) × (loc ≡ x))
    split (inl e) (inl f) g =
        inr ((test_iff (String-discrete p q)).0 e, (test_iff (String-discrete loc x)).0 f)
    split (inl e) (inr f) g = inl (rw (e, f) at g)
    split (inr e) f g = inl (rw e at g)

-- Where the location is there already, nothing comes in.
pub InSet-add_entry_same :
    (p q : String) (loc x : AbstractLoc) (m : TextMap (List AbstractLoc))
    → InSet m p loc
    → InSet (add_entry p loc m) q x
    → InSet m q x
InSet-add_entry_same p q loc x m s h = elim (InSet-add_entry_inv p q loc x m h) [
  | inl y ↦ y
  | inr (e, f) ↦ subst (λ z. InSet m q z) f (subst (λ n. InSet m n loc) e s)
]
