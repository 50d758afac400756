-- ===== src/Pointer/AddressMeaning.antt =====
-- src/cfg/flat_layout.rs: the addresses that `eval_flat_addr` computes, and the meaning of terms.
use may_must_rs.Base.{
  List, Option, String, ap, arith, lt→ltb, none, refl, some, some-eq, sym, ℕ, ◌%◌, ◌-◌, ◌<◌, ◌^◌,
  ◌∙◌, ◌≡◌,
}
use may_must_rs.Base.Int.{negsuc, pos, ℤ, ◌*ℤ◌, ◌+ℤ◌, ◌-ℤ◌, ◌≤ℤ◌}
use may_must_rs.Formula.Data.{Term, Var, add, int_lit, mul, real_lit, sub, var}
use may_must_rs.Formula.Theory.{State, Theory, holds, value}
use may_must_rs.Pointer.Layout.{combine, eval_flat_addr, get_base, wrap_i64}

-- A structure whose numbers have the integers, with the arithmetic of the source.
pub record HasIntegers (T : Theory) : Type 0 where
  pub sum : (a b : ℤ) → T.plus (T.of_int a) (T.of_int b) ≡ T.of_int (a +ℤ b)
  pub difference : (a b : ℤ) → T.minus (T.of_int a) (T.of_int b) ≡ T.of_int (a -ℤ b)
  pub product : (a b : ℤ) → T.times (T.of_int a) (T.of_int b) ≡ T.of_int (a *ℤ b)

-- Every variable whose name the map has holds the map's number.
abbrev pub Resolves : (T : Theory) → State T → List (String × ℤ) → Type 0
Resolves T s vars = (v : Var) (n : ℤ) → get_base v.name vars ≡ some n → s.number v ≡ T.of_int n

abbrev pub FitsI64 : ℤ → Type 0
FitsI64 n = (negsuc (2 ^ 63 - 1) ≤ℤ n) × (n ≤ℤ pos (2 ^ 63 - 1))

low : (n : ℕ) → n < 2 ^ 63 → n % 2 ^ 64 ≡ n
low n h = omega arith

wrap_i64-fits : (n : ℤ) → FitsI64 n → wrap_i64 n ≡ n
unfolding wrap_i64
wrap_i64-fits (pos n) f =
    rw (low n (omega (arith, f.1)), lt→ltb n (2 ^ 63) (omega (arith, f.1))) refl
wrap_i64-fits (negsuc n) f =
    rw (low n (omega (arith, f.0)), lt→ltb n (2 ^ 63) (omega (arith, f.0))) refl

-- The exact result of an operation fits, where both operands have a number.
abbrev ResultFits : (ℤ → ℤ → ℤ) → Option ℤ → Option ℤ → Type 0
ResultFits op x y = (a b : ℤ) → x ≡ some a → y ≡ some b → FitsI64 (op a b)

-- No sum, difference or product on the way to the address leaves the range of i64.
abbrev pub NeverOverflows : Term → List (String × ℤ) → Type 0
NeverOverflows (add t u) vars =
    NeverOverflows t vars
    × NeverOverflows u vars
    × ResultFits (λ x y. x +ℤ y) (eval_flat_addr t vars) (eval_flat_addr u vars)
NeverOverflows (sub t u) vars =
    NeverOverflows t vars
    × NeverOverflows u vars
    × ResultFits (λ x y. x -ℤ y) (eval_flat_addr t vars) (eval_flat_addr u vars)
NeverOverflows (mul t u) vars =
    NeverOverflows t vars
    × NeverOverflows u vars
    × ResultFits (λ x y. x *ℤ y) (eval_flat_addr t vars) (eval_flat_addr u vars)
NeverOverflows _ vars = Unit

combine-some :
    (op : ℤ → ℤ → ℤ) (x y : Option ℤ) (n : ℤ)
    → ResultFits op x y
    → combine op x y ≡ some n
    → (a : ℤ) × (b : ℤ) × (x ≡ some a) × (y ≡ some b) × (op a b ≡ n)
unfolding combine
combine-some op none y n f h = absurd (none_ne h)
  where
    none_ne : none ≡ some n → ⊥
    none_ne p = cc
combine-some op (some a) none n f h = absurd (none_ne h)
  where
    none_ne : none ≡ some n → ⊥
    none_ne p = cc
combine-some op (some a) (some b) n f h =
    (a, b, refl, refl, sym (wrap_i64-fits (op a b) (f a b refl refl)) ∙ some-eq h)

module _ (T : Theory) (law : HasIntegers T) (s : State T) (vars : List (String × ℤ))
    (r : Resolves T s vars) where
  -- In a structure whose numbers have the integers, and in a state where the resolved names hold
  -- their numbers, the address that `eval_flat_addr` computes for a term is the value of the term,
  -- if no operation on the way leaves the range of i64.
  pub eval_flat_addr_sound :
      (t : Term) (n : ℤ)
      → NeverOverflows t vars
      → eval_flat_addr t vars ≡ some n
      → value T s t ≡ T.of_int n
  unfolding eval_flat_addr holds
  eval_flat_addr_sound (int_lit m) n f h = ap (λ k. T.of_int k) (some-eq h)
  eval_flat_addr_sound (var v) n f h = r v n h
  eval_flat_addr_sound (add t u) n f h =
      let (a, b, p, q, e) =
        combine-some (λ x y. x +ℤ y) (eval_flat_addr t vars) (eval_flat_addr u vars) n f.2 h in
      rw (eval_flat_addr_sound t a f.0 p, eval_flat_addr_sound u b f.1 q, law.sum a b, e) refl
  eval_flat_addr_sound (sub t u) n f h =
      let (a, b, p, q, e) =
        combine-some (λ x y. x -ℤ y) (eval_flat_addr t vars) (eval_flat_addr u vars) n f.2 h in
      rw (eval_flat_addr_sound t a f.0 p, eval_flat_addr_sound u b f.1 q, law.difference a b, e)
        refl
  eval_flat_addr_sound (mul t u) n f h =
      let (a, b, p, q, e) =
        combine-some (λ x y. x *ℤ y) (eval_flat_addr t vars) (eval_flat_addr u vars) n f.2 h in
      rw (eval_flat_addr_sound t a f.0 p, eval_flat_addr_sound u b f.1 q, law.product a b, e) refl
  eval_flat_addr_sound (real_lit q) n f h = absurd (none_ne h)
    where
      none_ne : none ≡ some n → ⊥
      none_ne p = cc
  eval_flat_addr_sound _ n f h = absurd (none_ne h)
    where
      none_ne : none ≡ some n → ⊥
      none_ne p = cc
