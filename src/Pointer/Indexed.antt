-- ===== src/Pointer/Indexed.antt =====
-- src/pointer_analysis/andersen.rs: the index from the sources to the constraints.
use may_must_rs.Base.{
  Bool, Bool-cases, List, String, String-discrete, [], arith, false, if◌then◌else◌, inl, inr,
  length, none, refl, some, some-eq, subst, suc, sym, test, test_iff, true, zero, ℕ, ◌++◌, ◌+◌, ◌<◌,
  ◌∷◌, ◌≡◌, ◌≤◌, ◌⊎◌,
}
use may_must_rs.Base.Distinct.{member-append_one}
use may_must_rs.Base.Map.{member}
use may_must_rs.Base.Names.{TextMap, entries, entries-set_entries}
use may_must_rs.Pointer.Closure.{IndexedAt}
use may_must_rs.Pointer.Constraint.{Constraint, copy, load_ptr, seed, store_ptr, struct_field}
use may_must_rs.Pointer.Fixpoint.{IsIndex}
use may_must_rs.Pointer.Queue.{AllBelow}
use may_must_rs.Pointer.Solver.{constraint_at, index_from, index_one, push_index}

push_index_kept :
    (p q : String) (idx i : ℕ) (m : TextMap (List ℕ))
    → member i (entries q m) ≡ true
    → member i (entries q (push_index p idx m)) ≡ true
unfolding push_index
push_index_kept p q idx i m h =
    rw (entries-set_entries p q (entries p m ++ idx ∷ []) m)
      (by_name (Bool-cases (test (String-discrete p q))))
  where
    by_name :
        (test (String-discrete p q) ≡ true) ⊎ (test (String-discrete p q) ≡ false)
        → member i (if test (String-discrete p q) then entries p m ++ idx ∷ [] else entries q m)
          ≡ true
    by_name (inl e) =
        rw (e, (test_iff (String-discrete p q)).0 e, member-append_one i idx (entries q m))
          (ground arith)
    by_name (inr n) = rw n h

push_index_here :
    (p : String) (idx : ℕ) (m : TextMap (List ℕ))
    → member idx (entries p (push_index p idx m)) ≡ true
unfolding push_index
push_index_here p idx m =
    rw
      (
        entries-set_entries p p (entries p m ++ idx ∷ []) m,
        (test_iff (String-discrete p p)).1 refl,
        member-append_one idx idx (entries p m),
      )
      (ground arith)

index_one_kept :
    (q : String) (idx i : ℕ) (c : Constraint) (m : TextMap (List ℕ))
    → member i (entries q m) ≡ true
    → member i (entries q (index_one idx c m)) ≡ true
unfolding index_one
index_one_kept q idx i (seed t x) m h = h
index_one_kept q idx i (copy t s) m h = push_index_kept s q idx i m h
index_one_kept q idx i (struct_field t s n) m h = push_index_kept s q idx i m h
index_one_kept q idx i (load_ptr t s) m h = push_index_kept s q idx i m h
index_one_kept q idx i (store_ptr t v) m h =
    push_index_kept v q idx i (push_index t idx m) (push_index_kept t q idx i m h)

index_one_here :
    (idx : ℕ) (c : Constraint) (m : TextMap (List ℕ)) → IndexedAt (index_one idx c m) idx c
unfolding index_one
index_one_here idx (seed t x) m = tt
index_one_here idx (copy t s) m = push_index_here s idx m
index_one_here idx (struct_field t s n) m = push_index_here s idx m
index_one_here idx (load_ptr t s) m = push_index_here s idx m
index_one_here idx (store_ptr t v) m = (
  push_index_kept v t idx idx (push_index t idx m) (push_index_here t idx m),
  push_index_here v idx (push_index t idx m),
)

index_from_kept :
    (q : String) (k i : ℕ) (cs : List Constraint) (m : TextMap (List ℕ))
    → member i (entries q m) ≡ true
    → member i (entries q (index_from k cs m)) ≡ true
unfolding index_from
index_from_kept q k i [] m h = h
index_from_kept q k i (c ∷ cs) m h =
    index_from_kept q (suc k) i cs (index_one k c m) (index_one_kept q k i c m h)

IndexedAt-kept :
    (k i : ℕ) (cs : List Constraint) (m : TextMap (List ℕ)) (c : Constraint)
    → IndexedAt m i c
    → IndexedAt (index_from k cs m) i c
IndexedAt-kept k i cs m (seed t x) h = tt
IndexedAt-kept k i cs m (copy t s) h = index_from_kept s k i cs m h
IndexedAt-kept k i cs m (struct_field t s n) h = index_from_kept s k i cs m h
IndexedAt-kept k i cs m (load_ptr t s) h = index_from_kept s k i cs m h
IndexedAt-kept k i cs m (store_ptr t v) h =
    (index_from_kept t k i cs m h.0, index_from_kept v k i cs m h.1)

index_from_complete :
    (k j : ℕ) (cs : List Constraint) (m : TextMap (List ℕ)) (c : Constraint)
    → constraint_at j cs ≡ some c
    → IndexedAt (index_from k cs m) (k + j) c
unfolding index_from constraint_at
index_from_complete k j [] m c h = absurd (none_ne h)
  where
    none_ne : none ≡ some c → ⊥
    none_ne z = cc
index_from_complete k zero (d ∷ cs) m c h =
    subst (λ z. IndexedAt (index_from (suc k) cs (index_one k d m)) z c) (plus_zero k)
      (IndexedAt-kept (suc k) k cs (index_one k d m) c (
        subst (λ (z : Constraint). IndexedAt (index_one k d m) k z) (some-eq h)
          (index_one_here k d m)))
  where
    plus_zero : (n : ℕ) → n ≡ n + 0
    plus_zero n = omega arith
index_from_complete k (suc j) (d ∷ cs) m c h =
    subst (λ z. IndexedAt (index_from (suc k) cs (index_one k d m)) z c) (shift k j)
      (index_from_complete (suc k) j cs (index_one k d m) c h)
  where
    shift : (a b : ℕ) → suc a + b ≡ a + suc b
    shift a b = omega arith

AllBelow-append : (n idx : ℕ) (xs : List ℕ) → idx < n → AllBelow n xs → AllBelow n (xs ++ idx ∷ [])
AllBelow-append n idx [] l h = (l, tt)
AllBelow-append n idx (x ∷ xs) l (a, h) = (a, AllBelow-append n idx xs l h)

-- Every index in the map is one of the constraints.
abbrev AreBelow : ℕ → TextMap (List ℕ) → Type 0
AreBelow n m = (p : String) → AllBelow n (entries p m)

push_index-AreBelow :
    (n idx : ℕ) (p : String) (m : TextMap (List ℕ))
    → idx < n
    → AreBelow n m
    → AreBelow n (push_index p idx m)
unfolding push_index
push_index-AreBelow n idx p m l h q =
    subst (λ xs. AllBelow n xs) (sym (entries-set_entries p q (entries p m ++ idx ∷ []) m))
      (by_name (test (String-discrete p q)))
  where
    by_name : (b : Bool) → AllBelow n (if b then entries p m ++ idx ∷ [] else entries q m)
    by_name true = AllBelow-append n idx (entries p m) l (h p)
    by_name false = h q

index_one-AreBelow :
    (n idx : ℕ) (c : Constraint) (m : TextMap (List ℕ))
    → idx < n
    → AreBelow n m
    → AreBelow n (index_one idx c m)
unfolding index_one
index_one-AreBelow n idx (seed t x) m l h = h
index_one-AreBelow n idx (copy t s) m l h = push_index-AreBelow n idx s m l h
index_one-AreBelow n idx (struct_field t s k) m l h = push_index-AreBelow n idx s m l h
index_one-AreBelow n idx (load_ptr t s) m l h = push_index-AreBelow n idx s m l h
index_one-AreBelow n idx (store_ptr t v) m l h =
    push_index-AreBelow n idx v (push_index t idx m) l (push_index-AreBelow n idx t m l h)

index_from-AreBelow :
    (n k : ℕ) (cs : List Constraint) (m : TextMap (List ℕ))
    → k + length cs ≤ n
    → AreBelow n m
    → AreBelow n (index_from k cs m)
unfolding index_from
index_from-AreBelow n k [] m l h = h
index_from-AreBelow n k (c ∷ cs) m l h =
    index_from-AreBelow n (suc k) cs (index_one k c m) (omega (arith, l))
      (index_one-AreBelow n k c m (omega (arith, l)) h)

pub index_from-IsIndex : (cs : List Constraint) → IsIndex cs (index_from 0 cs [])
unfolding entries
index_from-IsIndex cs = record {
  complete = λ i c e.
      subst (λ z. IndexedAt (index_from 0 cs []) z c) (zero_plus i)
        (index_from_complete 0 i cs [] c e);
  below = index_from-AreBelow (length cs) 0 cs [] (omega arith) (λ p. tt);
}
  where
    zero_plus : (n : ℕ) → 0 + n ≡ n
    zero_plus n = omega arith
