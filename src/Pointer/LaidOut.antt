-- ===== src/Pointer/LaidOut.antt =====
-- src/cfg/flat_layout.rs: a layout that regions are added to stays laid out.
use may_must_rs.Base.{
  Bool-cases, List, Option-cases, String, String-discrete, [], ap, arith, false, inl, inr, length,
  none, refl, some, some-eq, subst, suc, sym, test, test_iff, true, ℕ, ◌*◌, ◌++◌, ◌+◌, ◌∙◌, ◌∷◌,
  ◌≡◌,
}
use may_must_rs.Base.Int.{pos, ℤ, ◌*ℤ◌, ◌+ℤ◌}
use may_must_rs.Pointer.Layout.{
  FlatLayout, add_region, add_regions, add_unless, base_of, flat_addr, flat_stride, get_base,
  new_layout, plus_offset, put_base,
}

-- The bases are consecutive multiples of the stride, from the given one on.
abbrev pub BasesFrom : ℕ → List (String × ℤ) → Type 0
BasesFrom k [] = Unit
BasesFrom k ((r, b) ∷ rest) = (b ≡ pos (k * 4096)) × BasesFrom (suc k) rest

-- No name stands twice.
abbrev pub NamesDiffer : List (String × ℤ) → Type 0
NamesDiffer [] = Unit
NamesDiffer ((r, b) ∷ rest) = (get_base r rest ≡ none) × NamesDiffer rest

-- The index says what the list says.
abbrev pub IsLaidOut : FlatLayout → Type 0
IsLaidOut l = (l.index ≡ l.ordered) × BasesFrom 0 l.ordered × NamesDiffer l.ordered

put_base-new :
    (r : String) (b : ℤ) (xs : List (String × ℤ))
    → get_base r xs ≡ none
    → put_base r b xs ≡ xs ++ (r, b) ∷ []
unfolding get_base put_base
put_base-new r b [] h = refl
put_base-new r b ((q, c) ∷ xs) h = ground (arith, put_base-new r b xs)

BasesFrom-append :
    (k : ℕ) (r : String) (xs : List (String × ℤ))
    → BasesFrom k xs
    → BasesFrom k (xs ++ (r, pos ((k + length xs) * 4096)) ∷ [])
BasesFrom-append k r [] h = (ap (λ n. pos n) (omega arith), tt)
BasesFrom-append k r ((q, c) ∷ xs) (e, h) =
    (e, rw (shift k (length xs)) (BasesFrom-append (suc k) r xs h))
  where
    shift : (m n : ℕ) → m + suc n ≡ suc m + n
    shift m n = omega arith

pub differ :
    (q r : String) → test (String-discrete q r) ≡ false → test (String-discrete r q) ≡ false
differ q r f = elim (Bool-cases (test (String-discrete r q))) [
  | inl y ↦ absurd (
      false_ne
        (sym f ∙ (test_iff (String-discrete q r)).1 (sym ((test_iff (String-discrete r q)).0 y))))
  | inr n ↦ n
]
  where
    false_ne : false ≡ true → ⊥
    false_ne h = cc

get_base-append :
    (q r : String) (b : ℤ) (xs : List (String × ℤ))
    → get_base q xs ≡ none
    → test (String-discrete r q) ≡ false
    → get_base q (xs ++ (r, b) ∷ []) ≡ none
unfolding get_base
get_base-append q r b [] n f = rw f refl
get_base-append q r b ((p, c) ∷ xs) n f = ground (arith, get_base-append q r b xs)

NamesDiffer-append :
    (r : String) (b : ℤ) (xs : List (String × ℤ))
    → get_base r xs ≡ none
    → NamesDiffer xs
    → NamesDiffer (xs ++ (r, b) ∷ [])
unfolding get_base
NamesDiffer-append r b [] n h = (refl, tt)
NamesDiffer-append r b ((q, c) ∷ xs) n (m, h) = elim (Bool-cases (test (String-discrete q r))) [
  | inl y ↦ absurd (some_ne (rw y at n))
  | inr f ↦ (get_base-append q r b xs m (differ q r f), NamesDiffer-append r b xs (rw f at n) h)
]
  where
    some_ne : some c ≡ none → ⊥
    some_ne p = cc

pub base_of_length : (n : ℕ) → pos n *ℤ flat_stride ≡ pos (n * 4096)
unfolding flat_stride ◌*ℤ◌
base_of_length n = ground arith

zero_plus : (n : ℕ) → 0 + n ≡ n
zero_plus n = omega arith

add_region-IsLaidOut : (r : String) (l : FlatLayout) → IsLaidOut l → IsLaidOut (add_region r l)
unfolding add_region add_unless
add_region-IsLaidOut r l (same, bases, names) = elim (Option-cases (get_base r l.index)) [
  | inl n ↦
      rw (n, add_unless, base_of_length, put_base-new r (pos (length l.ordered * 4096)) l.index n)
        (
          ap (λ xs. xs ++ (r, pos (length l.ordered * 4096)) ∷ []) same,
          subst (λ n. BasesFrom 0 (l.ordered ++ (r, pos (n * 4096)) ∷ []))
              (zero_plus (length l.ordered)) (BasesFrom-append 0 r l.ordered bases),
          NamesDiffer-append r (pos (length l.ordered * 4096)) l.ordered (rw same at n) names,
        )
  | inr (b, k) ↦ rw (k, add_unless) (same, bases, names)
]

pub add_regions-IsLaidOut :
    (rs : List String) (l : FlatLayout) → IsLaidOut l → IsLaidOut (add_regions rs l)
unfolding add_regions
add_regions-IsLaidOut [] l w = w
add_regions-IsLaidOut (r ∷ rs) l w =
    add_regions-IsLaidOut rs (add_region r l) (add_region-IsLaidOut r l w)

pub laid_out : (rs : List String) → IsLaidOut (add_regions rs new_layout)
unfolding new_layout
laid_out rs = add_regions-IsLaidOut rs new_layout (refl, tt, tt)

pub flat_addr-base :
    (r : String) (offset addr : ℤ) (l : FlatLayout)
    → IsLaidOut l
    → flat_addr r offset l ≡ some addr
    → (b : ℤ) × (get_base r l.ordered ≡ some b) × (b +ℤ offset ≡ addr)
unfolding flat_addr base_of
flat_addr-base r offset addr l w h = elim (Option-cases (get_base r l.index)) [
  | inl n ↦ absurd (none_ne (rw (n, plus_offset) at h))
  | inr (b, k) ↦ (b, rw w.0 at k, some-eq (rw (k, plus_offset) at h))
]
  where
    none_ne : none ≡ some addr → ⊥
    none_ne p = cc
