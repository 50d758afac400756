-- ===== src/Pointer/LayoutBounds.antt =====
-- src/cfg/flat_layout.rs: how large the addresses of a layout are.
use may_must_rs.Base.{
  List, Option-cases, String, [], arith, inl, inr, length, length-append, some, suc, sym, ℕ, ◌*◌,
  ◌+◌, ◌-◌, ◌<◌, ◌^◌, ◌∷◌, ◌≡◌, ◌≤◌,
}
use may_must_rs.Base.Int.{pos, ℤ, ◌*ℤ◌, ◌+ℤ◌, ◌≤ℤ◌}
use may_must_rs.Pointer.FindRegion.{find_region-base}
use may_must_rs.Pointer.LaidOut.{flat_addr-base, laid_out}
use may_must_rs.Pointer.Layout.{
  FlatLayout, add_region, add_regions, add_unless, flat_addr, flat_stride, get_base, new_layout,
}

length-add_region :
    (r : String) (l : FlatLayout) → length (add_region r l).ordered ≤ suc (length l.ordered)
unfolding add_region add_unless
length-add_region r l = elim (Option-cases (get_base r l.index)) [
  | inl n ↦
      rw (n, add_unless)
        (omega (arith, length-append l.ordered ((r, pos (length l.ordered) *ℤ flat_stride) ∷ [])))
  | inr (b, k) ↦ rw (k, add_unless) (omega arith)
]

length-add_regions :
    (rs : List String) (l : FlatLayout)
    → length (add_regions rs l).ordered ≤ length rs + length l.ordered
unfolding add_regions
length-add_regions [] l = omega arith
length-add_regions (r ∷ rs) l =
    omega (arith, length-add_regions rs (add_region r l), length-add_region r l)

in_range :
    (j n offset : ℕ)
    → j < 0 + n
    → n ≤ 2 ^ 51
    → offset < 4096
    → (pos 0 ≤ℤ pos (j * 4096) +ℤ pos offset) × (pos (j * 4096) +ℤ pos offset ≤ℤ pos (2 ^ 63 - 1))
unfolding ◌+ℤ◌
in_range j n offset a b c = (ground arith, ground arith)

few_bases : (rs : List String) → length (add_regions rs new_layout).ordered ≤ length rs
unfolding new_layout
few_bases rs = omega (arith, length-add_regions rs new_layout)

-- Where at most 2^51 regions are registered, the address of an offset below the stride is a non-
-- negative number that fits an i64.
pub flat_addr-below :
    (rs : List String) (r : String) (offset : ℕ) (addr : ℤ)
    → length rs ≤ 2 ^ 51
    → offset < 4096
    → flat_addr r (pos offset) (add_regions rs new_layout) ≡ some addr
    → (pos 0 ≤ℤ addr) × (addr ≤ℤ pos (2 ^ 63 - 1))
flat_addr-below rs r offset addr few l h =
    let w = laid_out rs in
    let (b, there, sum) = flat_addr-base r (pos offset) addr (add_regions rs new_layout) w h in
    let (j, low, high, place, hit) =
      find_region-base 0 offset r b (add_regions rs new_layout).ordered l w.1 there in
    rw (sym sum, place)
      (in_range j (length (add_regions rs new_layout).ordered) offset high
        (omega (arith, few, few_bases rs)) l)
