-- ===== src/Pointer/Layout.antt =====
-- src/cfg/flat_layout.rs: flat addresses of memory regions.
use may_must_rs.Base.{
  Bool, List, Option, String, String-discrete, [], bool_not, if◌then◌else◌, length, ltb, none, some,
  test, ◌%◌, ◌&&◌, ◌++◌, ◌-◌, ◌^◌, ◌∷◌,
}
use may_must_rs.Base.Int.{ltb_ℤ, negsuc, pos, ℤ, ◌*ℤ◌, ◌+ℤ◌, ◌-ℤ◌}
use may_must_rs.Formula.Data.{Term, add, int_lit, mul, sub, var}

-- `FLAT_STRIDE`
unfoldable pub flat_stride : ℤ
flat_stride = pos 4096

-- `index` is the source's HashMap, by region.
pub record FlatLayout : Type 0 where
  pub ordered : List (String × ℤ)
  pub index : List (String × ℤ)

unfoldable pub new_layout : FlatLayout
new_layout = record { ordered = []; index = [] }

-- `HashMap::get` and `HashMap::insert`
unfoldable pub get_base : String → List (String × ℤ) → Option ℤ
get_base r [] = none
get_base r ((q, b) ∷ rest) = if test (String-discrete q r) then some b else get_base r rest

unfoldable pub put_base : String → ℤ → List (String × ℤ) → List (String × ℤ)
put_base r b [] = (r, b) ∷ []
put_base r b ((q, c) ∷ rest) =
    if test (String-discrete q r) then (r, b) ∷ rest else (q, c) ∷ put_base r b rest

unfoldable pub base_of : String → FlatLayout → Option ℤ
unfolding get_base
base_of r l = get_base r l.index

-- `add_region`, from what the index has for the region.
unfoldable pub add_unless : String → Option ℤ → FlatLayout → FlatLayout
unfolding put_base flat_stride
add_unless r (some b) l = l
add_unless r none l =
    let base = pos (length l.ordered) *ℤ flat_stride in
    record { ordered = l.ordered ++ (r, base) ∷ []; index = put_base r base l.index }

unfoldable pub add_region : String → FlatLayout → FlatLayout
unfolding add_unless get_base
add_region r l = add_unless r (get_base r l.index) l

-- One call of `add_region` for each name.
unfoldable pub add_regions : List String → FlatLayout → FlatLayout
unfolding add_region
add_regions [] l = l
add_regions (r ∷ rs) l = add_regions rs (add_region r l)

-- `.map(|b| b + offset)`
unfoldable pub plus_offset : ℤ → Option ℤ → Option ℤ
plus_offset offset none = none
plus_offset offset (some b) = some (b +ℤ offset)

unfoldable pub flat_addr : String → ℤ → FlatLayout → Option ℤ
unfolding plus_offset base_of
flat_addr r offset l = plus_offset offset (base_of r l)

-- `addr >= *base && addr < *base + FLAT_STRIDE`
unfoldable pub is_inside : ℤ → ℤ → Bool
unfolding flat_stride
is_inside addr base = bool_not (ltb_ℤ addr base) && ltb_ℤ addr (base +ℤ flat_stride)

unfoldable pub find_region : ℤ → List (String × ℤ) → Option (String × ℤ)
unfolding is_inside
find_region addr [] = none
find_region addr ((r, base) ∷ rest) =
    if is_inside addr base then some (r, addr -ℤ base) else find_region addr rest

unfoldable pub region_at : ℤ → FlatLayout → Option (String × ℤ)
unfolding find_region
region_at addr l = find_region addr l.ordered

-- `Some(a? op b?)`
-- The source's i64: what does not fit wraps around.
unfoldable pub wrap_i64 : ℤ → ℤ
wrap_i64 (pos n) =
    let low = n % 2 ^ 64 in if ltb low (2 ^ 63) then pos low else negsuc (2 ^ 64 - 1 - low)
wrap_i64 (negsuc n) =
    let low = n % 2 ^ 64 in if ltb low (2 ^ 63) then negsuc low else pos (2 ^ 64 - 1 - low)

unfoldable pub combine : (ℤ → ℤ → ℤ) → Option ℤ → Option ℤ → Option ℤ
unfolding wrap_i64
combine op none b = none
combine op (some a) none = none
combine op (some a) (some b) = some (wrap_i64 (op a b))

unfoldable pub eval_flat_addr : Term → List (String × ℤ) → Option ℤ
unfolding combine get_base
eval_flat_addr (int_lit n) vars = some n
eval_flat_addr (var v) vars = get_base v.name vars
eval_flat_addr (add a b) vars =
    combine (λ x y. x +ℤ y) (eval_flat_addr a vars) (eval_flat_addr b vars)
eval_flat_addr (sub a b) vars =
    combine (λ x y. x -ℤ y) (eval_flat_addr a vars) (eval_flat_addr b vars)
eval_flat_addr (mul a b) vars =
    combine (λ x y. x *ℤ y) (eval_flat_addr a vars) (eval_flat_addr b vars)
eval_flat_addr _ vars = none
