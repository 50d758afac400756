-- ===== src/Pointer/Constraint.antt =====
-- src/pointer_analysis/andersen.rs: abstract locations, the alias result and the constraints.
-- A `BTreeSet` of locations is a list that no insertion gives a second copy of an item; the results
-- read it only as a set.
use Prim.Native.String.{◌++◌ as append_text, slice}
use may_must_rs.Base.{
  Bool, List, String, String-discrete, [], bool_not, false, if◌then◌else◌, ltb, suc, test, true,
  zero, ℕ, ◌%◌, ◌&&◌, ◌/◌, ◌||◌, ◌∷◌,
}
use may_must_rs.Base.Names.{TextMap, entries, set_entries}

-- The newtype over the region's name.
abbrev pub AbstractLoc : Type 0
AbstractLoc = String

digit : ℕ → String
digit n = slice "0123456789" n (suc n)

-- The decimal digits of a number; ten places are enough for a u32.
unfoldable pub digits : ℕ → ℕ → String
unfolding digit
digits zero n = ""
digits (suc places) n =
    let front = digits places (n / 10) in
    if ltb n 10 then digit n else append_text front (digit (n % 10))

-- `AbstractLoc::field`
unfoldable pub field : AbstractLoc → ℕ → AbstractLoc
unfolding digits
field loc n = append_text loc (append_text "$f" (digits 10 n))

pub data Constraint : Type 0 where
  seed : String → AbstractLoc → Constraint
  copy : String → String → Constraint
  struct_field : String → String → ℕ → Constraint
  load_ptr : String → String → Constraint
  store_ptr : String → String → Constraint

pub record AliasResult : Type 0 where
  pub pts : TextMap (List AbstractLoc)
  pub pts_mem : TextMap (List AbstractLoc)

unfoldable pub empty_result : AliasResult
empty_result = record { pts = []; pts_mem = [] }

-- `BTreeSet::contains`
unfoldable pub has_loc : AbstractLoc → List AbstractLoc → Bool
has_loc loc [] = false
has_loc loc (x ∷ xs) = if test (String-discrete x loc) then true else has_loc loc xs

unfoldable pub points_to : String → AliasResult → List AbstractLoc
unfolding entries
points_to ptr r = entries ptr r.pts

unfoldable pub stored_into : AbstractLoc → AliasResult → List AbstractLoc
unfolding entries
stored_into place r = entries place r.pts_mem

unfoldable pub some_set_has : AbstractLoc → AbstractLoc → TextMap (List AbstractLoc) → Bool
unfolding has_loc
some_set_has a b [] = false
some_set_has a b ((p, locs) ∷ m) = has_loc a locs && has_loc b locs || some_set_has a b m

unfoldable pub may_alias_regions : String → String → AliasResult → Bool
unfolding some_set_has
may_alias_regions r1 r2 r = if test (String-discrete r1 r2) then true else some_set_has r1 r2 r.pts

unfoldable pub insert_loc : AbstractLoc → List AbstractLoc → List AbstractLoc
unfolding has_loc
insert_loc loc xs = if has_loc loc xs then xs else loc ∷ xs

-- Whether the set grows, and the result with the location.
unfoldable pub insert_pts : String → AbstractLoc → AliasResult → Bool × AliasResult
unfolding insert_loc points_to set_entries
insert_pts target loc r = (
  bool_not (has_loc loc (points_to target r)),
  record r { pts = set_entries target (insert_loc loc (points_to target r)) r.pts },
)

unfoldable pub insert_pts_mem : AbstractLoc → AbstractLoc → AliasResult → Bool × AliasResult
unfolding insert_loc stored_into set_entries
insert_pts_mem place loc r = (
  bool_not (has_loc loc (stored_into place r)),
  record r { pts_mem = set_entries place (insert_loc loc (stored_into place r)) r.pts_mem },
)

-- `HashMap::contains_key`
unfoldable pub has_key : String → TextMap (List AbstractLoc) → Bool
has_key k [] = false
has_key k ((j, v) ∷ m) = if test (String-discrete j k) then true else has_key k m

unfoldable pub is_alloc_callee : String → Bool
unfolding has_loc
is_alloc_callee name = has_loc name (
    "malloc" ∷ "calloc" ∷ "realloc" ∷ "_Znwm" ∷ "_Znam" ∷ "_ZnwmRKSt9nothrow_t"
    ∷ "_ZnamRKSt9nothrow_t" ∷ [])
