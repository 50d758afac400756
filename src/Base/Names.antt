-- ===== src/Base/Names.antt =====
-- `BTreeMap<ProcedureName, Vec<V>>` and `HashMap<String, BTreeSet<V>>`: association lists by name.
use Prim.Native.String.{String}
use mathlib.Core.Path.{◌≡◌, refl}
use mathlib.Core.List.{List, [], ◌∷◌}
use native.Mathlib.Omega.{arith}
use may_must_rs.Base.Tests.{if◌then◌else◌}
use may_must_rs.Base.Text.{String-discrete, test, test_iff}

abbrev pub TextMap {ℓ} : Type ℓ → Type ℓ
TextMap V = List (String × V)

-- `get(procedure).map(|v| v.as_slice()).unwrap_or(&[])`
unfoldable pub entries {ℓ} : {A : Type ℓ} → String → TextMap (List A) → List A
entries k [] = []
entries k ((j, v) ∷ m) = if test (String-discrete j k) then v else entries k m

-- `entry(procedure).or_default()` and a write through it.
unfoldable pub set_entries {ℓ} :
    {A : Type ℓ} → String → List A → TextMap (List A) → TextMap (List A)
set_entries k v [] = (k, v) ∷ []
set_entries k v ((j, w) ∷ m) =
    if test (String-discrete j k) then (j, v) ∷ m else (j, w) ∷ set_entries k v m

module _ {ℓ} {A : Type ℓ} where
  pub entries-set_entries :
      (k j : String) (v : List A) (m : TextMap (List A))
      → entries j (set_entries k v m) ≡ (if test (String-discrete k j) then v else entries j m)
  unfolding entries set_entries
  entries-set_entries k j v [] = refl
  entries-set_entries k j v ((i, w) ∷ m) = ground (
    arith,
    entries-set_entries k j v m,
    test_iff (String-discrete i k),
    test_iff (String-discrete i j),
    test_iff (String-discrete k j),
  )
