-- ===== src/Base/Map.antt =====
-- `BTreeMap<usize, V>` and `BTreeSet<usize>`: association lists and lists in ascending key order.
use Prim.Native.Nat.{ℕ, ◌<◌, ◌≤◌}
use mathlib.Core.Path.{◌≡◌, refl}
use mathlib.Core.Bool.{Bool, true, false}
use mathlib.Core.Option.{Option, none, some}
use mathlib.Core.List.{List, [], ◌∷◌}
use native.Mathlib.Omega.{arith}
use may_must_rs.Base.Tests.{ltb, ◌==◌, if◌then◌else◌}

abbrev pub Map {ℓ} : Type ℓ → Type ℓ
Map V = List (ℕ × V)

module _ {ℓ} {V : Type ℓ} where
  unfoldable pub get : ℕ → Map V → Option V
  get k [] = none
  get k ((j, v) ∷ m) = if j == k then some v else get k m

  unfoldable pub insert : ℕ → V → Map V → Map V
  insert k v [] = (k, v) ∷ []
  insert k v ((j, w) ∷ m) =
      if ltb k j then (k, v) ∷ (j, w) ∷ m else if k == j then (k, v) ∷ m else (j, w) ∷ insert k v m

  unfoldable pub remove : ℕ → Map V → Map V
  remove k [] = []
  remove k ((j, w) ∷ m) = if j == k then remove k m else (j, w) ∷ remove k m

  unfoldable pub keys : Map V → List ℕ
  keys [] = []
  keys ((j, w) ∷ m) = j ∷ keys m

  pub get-insert :
      (k j : ℕ) (v : V) (m : Map V) → get j (insert k v m) ≡ (if k == j then some v else get j m)
  unfolding get insert
  get-insert k j v [] = refl
  get-insert k j v ((i, w) ∷ m) = ground (arith, get-insert k j v m)

  pub get-remove : (k j : ℕ) (m : Map V) → get j (remove k m) ≡ (if k == j then none else get j m)
  unfolding get remove
  get-remove k j [] = ground arith
  get-remove k j ((i, w) ∷ m) = ground (arith, get-remove k j m)

-- Sets of keys.
unfoldable pub member : ℕ → List ℕ → Bool
member k [] = false
member k (j ∷ s) = if j == k then true else member k s

unfoldable pub insert_key : ℕ → List ℕ → List ℕ
insert_key k [] = k ∷ []
insert_key k (j ∷ s) = if ltb k j then k ∷ j ∷ s else if k == j then j ∷ s else j ∷ insert_key k s

unfoldable pub remove_key : ℕ → List ℕ → List ℕ
remove_key k [] = []
remove_key k (j ∷ s) = if j == k then remove_key k s else j ∷ remove_key k s

pub member-insert_key :
    (k j : ℕ) (s : List ℕ) → member j (insert_key k s) ≡ (if k == j then true else member j s)
unfolding member insert_key
member-insert_key k j [] = refl
member-insert_key k j (i ∷ s) = ground (arith, member-insert_key k j s)

pub member-remove_key :
    (k j : ℕ) (s : List ℕ) → member j (remove_key k s) ≡ (if k == j then false else member j s)
unfolding member remove_key
member-remove_key k j [] = ground arith
member-remove_key k j (i ∷ s) = ground (arith, member-remove_key k j s)

-- Every key of the map lies above `k`; the keys ascend.
module _ {ℓ} {V : Type ℓ} where
  abbrev pub AllAbove : ℕ → Map V → Type 0
  AllAbove k [] = Unit
  AllAbove k ((j, v) ∷ m) = (k < j) × AllAbove k m

  abbrev pub IsAscending : Map V → Type 0
  IsAscending [] = Unit
  IsAscending ((j, v) ∷ m) = AllAbove j m × IsAscending m

  AllAbove-lower : (k j : ℕ) (m : Map V) → k < j → AllAbove j m → AllAbove k m
  AllAbove-lower k j [] h a = tt
  AllAbove-lower k j ((i, v) ∷ m) h a = (omega arith, AllAbove-lower k j m h a.1)

  AllAbove-insert : (k j : ℕ) (v : V) (m : Map V) → k < j → AllAbove k m → AllAbove k (insert j v m)
  unfolding insert
  AllAbove-insert k j v [] h a = (h, tt)
  AllAbove-insert k j v ((i, w) ∷ m) h a = let deep = AllAbove-insert k j v m h a.1 in ground arith

  pub IsAscending-insert : (j : ℕ) (v : V) (m : Map V) → IsAscending m → IsAscending (insert j v m)
  unfolding insert
  IsAscending-insert j v [] a = (tt, tt)
  IsAscending-insert j v ((i, w) ∷ m) a =
      let deep = IsAscending-insert j v m a.1 in
      let lower = λ (h : j < i). AllAbove-lower j i m h a.0 in
      let above = λ (h : i < j). AllAbove-insert i j v m h a.0 in ground arith

  pub get-AllAbove : (k j : ℕ) (m : Map V) → AllAbove k m → j ≤ k → get j m ≡ none
  unfolding get
  get-AllAbove k j [] a h = refl
  get-AllAbove k j ((i, v) ∷ m) a h = ground (arith, get-AllAbove k j m a.1 h)

  AllAbove-remove : (k j : ℕ) (m : Map V) → AllAbove k m → AllAbove k (remove j m)
  unfolding remove
  AllAbove-remove k j [] a = tt
  AllAbove-remove k j ((i, w) ∷ m) a = let deep = AllAbove-remove k j m a.1 in ground arith

  pub IsAscending-remove : (j : ℕ) (m : Map V) → IsAscending m → IsAscending (remove j m)
  unfolding remove
  IsAscending-remove j [] a = tt
  IsAscending-remove j ((i, w) ∷ m) a =
      let deep = IsAscending-remove j m a.1 in let above = AllAbove-remove i j m a.0 in ground arith

  -- What the rest of an ascending map gives, the whole map gives.
  pub get-tail :
      (k j : ℕ) (v w : V) (m : Map V)
      → AllAbove j m
      → get k m ≡ some v
      → get k ((j, w) ∷ m) ≡ some v
  unfolding get
  get-tail k j v w m a h = ground (arith, get-AllAbove j k m a)
