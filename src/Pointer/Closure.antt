-- ===== src/Pointer/Closure.antt =====
-- src/pointer_analysis/andersen.rs: what one application of a constraint achieves.
use may_must_rs.Base.{
  Bool, Bool-cases, List, String-discrete, [], ap, false, if◌then◌else◌, inl, inr, refl, some,
  subst, test, test_iff, true, ℕ, ◌∷◌, ◌≡◌,
}
use may_must_rs.Base.Map.{member}
use may_must_rs.Base.Names.{TextMap, entries}
use may_must_rs.Pointer.Constraint.{
  AbstractLoc, AliasResult, Constraint, copy, field, has_loc, load_ptr, points_to, seed, store_ptr,
  struct_field,
}
use may_must_rs.Pointer.Facts.{Points, Stored}
use may_must_rs.Pointer.Growth.{
  Grows, Grows-refl, Grows-trans, LoadsIndexed, grow_pts_all-Grows, grow_pts_all-Points,
}
use may_must_rs.Pointer.MemoryGrowth.{
  grow_mem-Grows, grow_mem-Stored, load_all-Grows, load_all-Points,
}
use may_must_rs.Pointer.Solver.{
  Work, apply, constraint_at, fields_of, grow_mem, grow_mem_all, store_all,
}

-- The result satisfies the inclusion that the constraint states.
abbrev pub Satisfies : AliasResult → Constraint → Type 0
Satisfies r (seed t x) = Points r t x
Satisfies r (copy t s) = (x : AbstractLoc) → Points r s x → Points r t x
Satisfies r (struct_field t s n) = (x : AbstractLoc) → Points r s x → Points r t (field x n)
Satisfies r (load_ptr t s) =
    (slot x : AbstractLoc) → Points r s slot → Stored r slot x → Points r t x
Satisfies r (store_ptr t v) =
    (slot x : AbstractLoc) → Points r t slot → Points r v x → Stored r slot x

-- The result has the location of the constraint, if it is a seed.
abbrev pub Seeded : AliasResult → Constraint → Type 0
Seeded r (seed t x) = Points r t x
Seeded r _ = Unit

-- The index has the constraint under each of its sources.
abbrev pub IndexedAt : TextMap (List ℕ) → ℕ → Constraint → Type 0
IndexedAt index i (seed t x) = Unit
IndexedAt index i (copy t s) = member i (entries s index) ≡ true
IndexedAt index i (struct_field t s n) = member i (entries s index) ≡ true
IndexedAt index i (load_ptr t s) = member i (entries s index) ≡ true
IndexedAt index i (store_ptr t v) =
    (member i (entries t index) ≡ true) × (member i (entries v index) ≡ true)

abbrev pub IsIndexed : List Constraint → TextMap (List ℕ) → Type 0
IsIndexed cs index = (i : ℕ) (c : Constraint) → constraint_at i cs ≡ some c → IndexedAt index i c

has_loc-fields_of :
    (n : ℕ) (x : AbstractLoc) (locs : List AbstractLoc)
    → has_loc x locs ≡ true
    → has_loc (field x n) (fields_of n locs) ≡ true
unfolding has_loc fields_of
has_loc-fields_of n x [] h = absurd (false_ne h)
  where
    false_ne : false ≡ true → ⊥
    false_ne z = cc
has_loc-fields_of n x (y ∷ locs) h = elim (Bool-cases (test (String-discrete y x))) [
  | inl e ↦
      rw
        ((test_iff (String-discrete (field y n) (field x n))).1
          (ap (λ z. field z n) ((test_iff (String-discrete y x)).0 e)))
        refl
  | inr f ↦
      if_true (test (String-discrete (field y n) (field x n)))
        (has_loc-fields_of n x locs (rw f at h))
]
  where
    if_true : (b : Bool) {c : Bool} → c ≡ true → (if b then true else c) ≡ true
    if_true true h = refl
    if_true false h = h

module _ (cs : List Constraint) (index : TextMap (List ℕ)) (indexed : LoadsIndexed cs index) where
  grow_mem_all-Grows :
      (place : AbstractLoc) (locs : List AbstractLoc) (w : Work)
      → Grows cs index w (grow_mem_all cs place locs w)
  unfolding grow_mem_all
  grow_mem_all-Grows place [] w = Grows-refl cs index w
  grow_mem_all-Grows place (loc ∷ locs) w =
      let next = grow_mem cs place loc w in
      Grows-trans cs index w next (grow_mem_all cs place locs next) indexed
        (grow_mem-Grows cs index place loc w) (grow_mem_all-Grows place locs next)

  grow_mem_all-Stored :
      (place : AbstractLoc) (locs : List AbstractLoc) (w : Work) (x : AbstractLoc)
      → has_loc x locs ≡ true
      → Stored (grow_mem_all cs place locs w).result place x
  unfolding grow_mem_all has_loc
  grow_mem_all-Stored place [] w x h = absurd (false_ne h)
    where
      false_ne : false ≡ true → ⊥
      false_ne z = cc
  grow_mem_all-Stored place (loc ∷ locs) w x h =
      let next = grow_mem cs place loc w in
      elim (Bool-cases (test (String-discrete loc x))) [
        | inl e ↦ (grow_mem_all-Grows place locs next).mem_up place x (
            subst (λ z. Stored next.result place z) ((test_iff (String-discrete loc x)).0 e)
              (grow_mem-Stored cs place loc w))
        | inr n ↦ grow_mem_all-Stored place locs next x (rw n at h)
      ]

  store_all-Grows :
      (slots locs : List AbstractLoc) (w : Work) → Grows cs index w (store_all cs slots locs w)
  unfolding store_all
  store_all-Grows [] locs w = Grows-refl cs index w
  store_all-Grows (slot ∷ slots) locs w =
      let next = grow_mem_all cs slot locs w in
      Grows-trans cs index w next (store_all cs slots locs next) indexed
        (grow_mem_all-Grows slot locs w) (store_all-Grows slots locs next)

  store_all-Stored :
      (slots locs : List AbstractLoc) (w : Work) (slot x : AbstractLoc)
      → has_loc slot slots ≡ true
      → has_loc x locs ≡ true
      → Stored (store_all cs slots locs w).result slot x
  unfolding store_all has_loc
  store_all-Stored [] locs w slot x h k = absurd (false_ne h)
    where
      false_ne : false ≡ true → ⊥
      false_ne z = cc
  store_all-Stored (first ∷ slots) locs w slot x h k =
      let next = grow_mem_all cs first locs w in
      elim (Bool-cases (test (String-discrete first slot))) [
        | inl e ↦ (store_all-Grows slots locs next).mem_up slot x (
            subst (λ z. Stored next.result z x) ((test_iff (String-discrete first slot)).0 e)
              (grow_mem_all-Stored first locs w x k))
        | inr n ↦ store_all-Stored slots locs next slot x (rw n at h) k
      ]

  pub apply-Grows : (c : Constraint) (w : Work) → Grows cs index w (apply cs index c w)
  unfolding apply
  apply-Grows (seed t x) w = Grows-refl cs index w
  apply-Grows (copy t s) w = grow_pts_all-Grows cs index indexed t (points_to s w.result) w
  apply-Grows (struct_field t s n) w =
      grow_pts_all-Grows cs index indexed t (fields_of n (points_to s w.result)) w
  apply-Grows (load_ptr t s) w = load_all-Grows cs index indexed t (points_to s w.result) w
  apply-Grows (store_ptr t v) w = store_all-Grows (points_to t w.result) (points_to v w.result) w

  -- A constraint that is applied and not put back is satisfied.
  pub apply-Satisfies :
      (i : ℕ) (c : Constraint) (w : Work)
      → constraint_at i cs ≡ some c
      → IndexedAt index i c
      → (apply cs index c w).queued i ≡ false
      → Seeded w.result c
      → Satisfies (apply cs index c w).result c
  unfolding apply points_to
  apply-Satisfies i (seed t x) w e n f h = h
  apply-Satisfies i (copy t s) w e n f h = λ x a.
      grow_pts_all-Points cs index indexed t (points_to s w.result) w x
        ((apply-Grows (copy t s) w).fresh s i x n f a)
  apply-Satisfies i (struct_field t s k) w e n f h = λ x a.
      grow_pts_all-Points cs index indexed t (fields_of k (points_to s w.result)) w (field x k) (
        has_loc-fields_of k x (points_to s w.result)
          ((apply-Grows (struct_field t s k) w).fresh s i x n f a))
  apply-Satisfies i (load_ptr t s) w e n f h = λ slot x a b.
      load_all-Points cs index indexed t (points_to s w.result) w slot x
        ((apply-Grows (load_ptr t s) w).fresh s i slot n f a)
        ((apply-Grows (load_ptr t s) w).fresh_mem i t s slot x e f a b)
  apply-Satisfies i (store_ptr t v) w e n f h = λ slot x a b.
      store_all-Stored (points_to t w.result) (points_to v w.result) w slot x
        ((apply-Grows (store_ptr t v) w).fresh t i slot n.0 f a)
        ((apply-Grows (store_ptr t v) w).fresh v i x n.1 f b)

-- What was satisfied stays so, or is put back.
pub Grows-Satisfies :
    (cs : List Constraint) (index : TextMap (List ℕ)) (w v : Work) (i : ℕ) (c : Constraint)
    → Grows cs index w v
    → constraint_at i cs ≡ some c
    → IndexedAt index i c
    → v.queued i ≡ false
    → Satisfies w.result c
    → Satisfies v.result c
Grows-Satisfies cs index w v i (seed t x) g e n f h = g.pts_up t x h
Grows-Satisfies cs index w v i (copy t s) g e n f h =
    λ x a. g.pts_up t x (h x (g.fresh s i x n f a))
Grows-Satisfies cs index w v i (struct_field t s k) g e n f h =
    λ x a. g.pts_up t (field x k) (h x (g.fresh s i x n f a))
Grows-Satisfies cs index w v i (load_ptr t s) g e n f h = λ slot x a b.
    g.pts_up t x (h slot x (g.fresh s i slot n f a) (g.fresh_mem i t s slot x e f a b))
Grows-Satisfies cs index w v i (store_ptr t u) g e n f h =
    λ slot x a b. g.mem_up slot x (h slot x (g.fresh t i slot n.0 f a) (g.fresh u i x n.1 f b))

pub Grows-Seeded :
    (cs : List Constraint) (index : TextMap (List ℕ)) (w v : Work) (c : Constraint)
    → Grows cs index w v
    → Seeded w.result c
    → Seeded v.result c
Grows-Seeded cs index w v (seed t x) g h = g.pts_up t x h
Grows-Seeded cs index w v (copy t s) g h = tt
Grows-Seeded cs index w v (struct_field t s k) g h = tt
Grows-Seeded cs index w v (load_ptr t s) g h = tt
Grows-Seeded cs index w v (store_ptr t u) g h = tt
