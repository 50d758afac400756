-- ===== src/Pointer/FindRegion.antt =====
-- src/cfg/flat_layout.rs: what the lookup of an address finds in a layout.
use may_must_rs.Base.{
  Bool-cases, List, String, String-discrete, [], ap, arith, false, inl, inr, length, none, refl,
  some, some-eq, suc, sym, test, test_iff, true, ℕ, ◌*◌, ◌+◌, ◌<◌, ◌∙◌, ◌∷◌, ◌≡◌, ◌≤◌,
}
use may_must_rs.Base.Int.{negsuc, pos, ℤ, ◌+ℤ◌, ◌-ℤ◌, ◌≤ℤ◌}
use may_must_rs.Pointer.LaidOut.{BasesFrom, NamesDiffer}
use may_must_rs.Pointer.Layout.{find_region, flat_stride, get_base, is_inside}

is_inside-here : (n offset : ℕ) → offset < 4096 → is_inside (pos n +ℤ pos offset) (pos n) ≡ true
unfolding is_inside flat_stride ◌+ℤ◌
is_inside-here n offset l = ground arith

is_inside-elsewhere :
    (j k offset : ℕ)
    → offset < 4096
    → k < j
    → is_inside (pos (j * 4096) +ℤ pos offset) (pos (k * 4096)) ≡ false
unfolding is_inside flat_stride ◌+ℤ◌
is_inside-elsewhere j k offset l h = ground arith

minus-plus : (n m : ℕ) → (pos n +ℤ pos m) -ℤ pos n ≡ pos m
unfolding ◌+ℤ◌ ◌-ℤ◌
minus-plus n m = ground arith

-- An address in the region of a name.
pub find_region-base :
    (k offset : ℕ) (r : String) (b : ℤ) (xs : List (String × ℤ))
    → offset < 4096
    → BasesFrom k xs
    → get_base r xs ≡ some b
    → (j : ℕ) × (k ≤ j)
      × (j < k + length xs)
      × (b ≡ pos (j * 4096))
      × (find_region (pos (j * 4096) +ℤ pos offset) xs ≡ some (r, pos offset))
unfolding get_base find_region
find_region-base k offset r b [] l f h = absurd (none_ne h)
  where
    none_ne : none ≡ some b → ⊥
    none_ne q = cc
find_region-base k offset r b ((q, c) ∷ xs) l (e, f) h =
    elim (Bool-cases (test (String-discrete q r))) [
      | inl y ↦
          let same = some-eq (rw y at h) in
          (
            k,
            omega arith,
            omega arith,
            sym same ∙ e,
            rw
                (
                  e,
                  is_inside-here (k * 4096) offset l,
                  minus-plus (k * 4096) offset,
                  (test_iff (String-discrete q r)).0 y,
                )
                refl,
          )
      | inr n ↦
          let (j, low, high, place, hit) = find_region-base (suc k) offset r b xs l f (rw n at h) in
          (
            j,
            omega (arith, low),
            omega (arith, high),
            place,
            rw (e, is_inside-elsewhere j k offset l (omega (arith, low))) hit,
          )
    ]

-- A name behind the first entry is another name.
get_base-tail :
    (r q : String) (b c : ℤ) (xs : List (String × ℤ))
    → get_base q xs ≡ none
    → get_base r xs ≡ some b
    → get_base r ((q, c) ∷ xs) ≡ some b
unfolding get_base
get_base-tail r q b c xs m h = elim (Bool-cases (test (String-discrete q r))) [
  | inl y ↦ absurd (none_ne (sym m ∙ rw ((test_iff (String-discrete q r)).0 y) h))
  | inr n ↦ rw n h
]
  where
    none_ne : none ≡ some b → ⊥
    none_ne p = cc

is_inside_iff :
    (n : ℕ) (addr : ℤ)
    → is_inside addr (pos n) ≡ true
    → (pos n +ℤ (addr -ℤ pos n) ≡ addr) × (pos 0 ≤ℤ addr -ℤ pos n) × (addr -ℤ pos n ≤ℤ pos 4095)
unfolding is_inside flat_stride ◌+ℤ◌ ◌-ℤ◌
is_inside_iff n (pos a) h = (ground arith, ground arith, ground arith)
is_inside_iff n (negsuc a) h = absurd (ground arith)

region_entry :
    (n : ℕ) (addr c offset : ℤ)
    → c ≡ pos n
    → addr -ℤ c ≡ offset
    → is_inside addr c ≡ true
    → (c +ℤ offset ≡ addr) × (pos 0 ≤ℤ offset) × (offset ≤ℤ pos 4095)
region_entry n addr c offset e s h = rw (sym s, e) (is_inside_iff n addr (rw e at h))

pub find_region-addr :
    (k : ℕ) (addr : ℤ) (r : String) (offset : ℤ) (xs : List (String × ℤ))
    → BasesFrom k xs
    → NamesDiffer xs
    → find_region addr xs ≡ some (r, offset)
    → (b : ℤ) × (get_base r xs ≡ some b)
      × (b +ℤ offset ≡ addr)
      × (pos 0 ≤ℤ offset)
      × (offset ≤ℤ pos 4095)
unfolding get_base find_region
find_region-addr k addr r offset [] f d h = absurd (none_ne h)
  where
    none_ne : {p : String × ℤ} → none ≡ some p → ⊥
    none_ne q = cc
find_region-addr k addr r offset ((q, c) ∷ xs) (e, f) (m, d) h =
    elim (Bool-cases (is_inside addr c)) [
      | inl y ↦
          let same = some-eq (rw y at h) in
          let (sum, low, high) = region_entry (k * 4096) addr c offset e (ap (λ p. p.1) same) y in
          let named = (test_iff (String-discrete q r)).1 (ap (λ p. p.0) same) in
          (c, rw named refl, sum, low, high)
      | inr n ↦
          let (b, there, sum, low, high) =
            find_region-addr (suc k) addr r offset xs f d (rw n at h) in
          (b, get_base-tail r q b c xs m there, sum, low, high)
    ]
