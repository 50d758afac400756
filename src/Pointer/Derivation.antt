-- ===== src/Pointer/Derivation.antt =====
-- src/pointer_analysis/andersen.rs: what the constraints imply, and that the solver adds nothing else.
use may_must_rs.Base.{
  Bool-cases, List, String, String-discrete, [], arith, false, inl, inr, refl, some, subst, test,
  test_iff, true, ℕ, ◌∷◌, ◌≡◌,
}
use may_must_rs.Base.Names.{TextMap}
use may_must_rs.Pointer.Constraint.{
  AbstractLoc, AliasResult, Constraint, copy, field, has_loc, load_ptr, points_to, seed, store_ptr,
  stored_into, struct_field,
}
use may_must_rs.Pointer.Facts.{InSet-add_entry_inv, Points, Stored}
use may_must_rs.Pointer.Growth.{result-grow_pts}
use may_must_rs.Pointer.MemoryGrowth.{result-grow_mem}
use may_must_rs.Pointer.Solver.{
  Work, apply, constraint_at, fields_of, grow_mem, grow_mem_all, grow_pts, grow_pts_all, load_all,
  store_all,
}

-- The constraints are rules: what each name points to, and what is stored in each region.
mutual
  pub data PointsTo (cs : List Constraint) : String → AbstractLoc → Type 0 where
    from_seed :
        (i : ℕ) (t : String) (x : AbstractLoc)
        → constraint_at i cs ≡ some (seed t x)
        → PointsTo cs t x
    copied :
        (i : ℕ) (t s : String) (x : AbstractLoc)
        → constraint_at i cs ≡ some (copy t s)
        → PointsTo cs s x
        → PointsTo cs t x
    field_taken :
        (i : ℕ) (t s : String) (n : ℕ) (x : AbstractLoc)
        → constraint_at i cs ≡ some (struct_field t s n)
        → PointsTo cs s x
        → PointsTo cs t (field x n)
    loaded :
        (i : ℕ) (t s : String) (slot x : AbstractLoc)
        → constraint_at i cs ≡ some (load_ptr t s)
        → PointsTo cs s slot
        → StoredIn cs slot x
        → PointsTo cs t x

  pub data StoredIn (cs : List Constraint) : AbstractLoc → AbstractLoc → Type 0 where
    stored :
        (i : ℕ) (t v : String) (slot x : AbstractLoc)
        → constraint_at i cs ≡ some (store_ptr t v)
        → PointsTo cs t slot
        → PointsTo cs v x
        → StoredIn cs slot x

-- All that the result has is implied.
abbrev pub IsImplied : List Constraint → AliasResult → Type 0
IsImplied cs r =
    ((p : String) (x : AbstractLoc) → Points r p x → PointsTo cs p x)
    × ((slot x : AbstractLoc) → Stored r slot x → StoredIn cs slot x)

-- The work of a loop: insertions of implied locations, each with what it puts back.
pub data Evolves (cs : List Constraint) (index : TextMap (List ℕ)) : Work → Work → Type 0 where
  unchanged : (w : Work) → Evolves cs index w w
  more_pts :
      (t : String) (x : AbstractLoc) (w v : Work)
      → PointsTo cs t x
      → Evolves cs index (grow_pts index t x w) v
      → Evolves cs index w v
  more_mem :
      (slot x : AbstractLoc) (w v : Work)
      → StoredIn cs slot x
      → Evolves cs index (grow_mem cs slot x w) v
      → Evolves cs index w v

has_first : (x : AbstractLoc) (locs : List AbstractLoc) → has_loc x (x ∷ locs) ≡ true
unfolding has_loc
has_first x locs = rw ((test_iff (String-discrete x x)).1 refl) refl

has_later :
    (x loc : AbstractLoc) (locs : List AbstractLoc)
    → has_loc x locs ≡ true
    → has_loc x (loc ∷ locs) ≡ true
unfolding has_loc
has_later x loc locs h = ground (arith)

module _ (cs : List Constraint) (index : TextMap (List ℕ)) where
  Evolves-trans :
      (u v w : Work) → Evolves cs index u v → Evolves cs index v w → Evolves cs index u w
  Evolves-trans u v w (unchanged _) g = g
  Evolves-trans u v w (more_pts t x _ _ d h) g =
      more_pts t x u w d (Evolves-trans (grow_pts index t x u) v w h g)
  Evolves-trans u v w (more_mem s x _ _ d h) g =
      more_mem s x u w d (Evolves-trans (grow_mem cs s x u) v w h g)

  grow_pts_all-Evolves :
      (target : String) (locs : List AbstractLoc) (w : Work)
      → ((x : AbstractLoc) → has_loc x locs ≡ true → PointsTo cs target x)
      → Evolves cs index w (grow_pts_all index target locs w)
  unfolding grow_pts_all
  grow_pts_all-Evolves target [] w d = unchanged w
  grow_pts_all-Evolves target (loc ∷ locs) w d =
      more_pts target loc w (grow_pts_all index target locs (grow_pts index target loc w))
        (d loc (has_first loc locs))
        (grow_pts_all-Evolves target locs (grow_pts index target loc w)
          (λ x h. d x (has_later x loc locs h)))

  grow_pts-IsImplied :
      (t : String) (x : AbstractLoc) (w : Work)
      → PointsTo cs t x
      → IsImplied cs w.result
      → IsImplied cs (grow_pts index t x w).result
  grow_pts-IsImplied t x w d h = rw (result-grow_pts index t x w) (
    (λ p y a. elim (InSet-add_entry_inv t p x y w.result.pts a) [
      | inl b ↦ h.0 p y b
      | inr (e, f) ↦ subst (λ z. PointsTo cs p z) f (subst (λ z. PointsTo cs z x) e d)
    ]),
    h.1,
  )

  grow_mem-IsImplied :
      (slot x : AbstractLoc) (w : Work)
      → StoredIn cs slot x
      → IsImplied cs w.result
      → IsImplied cs (grow_mem cs slot x w).result
  grow_mem-IsImplied slot x w d h = rw (result-grow_mem cs slot x w) (
    h.0,
    (λ p y a. elim (InSet-add_entry_inv slot p x y w.result.pts_mem a) [
      | inl b ↦ h.1 p y b
      | inr (e, f) ↦ subst (λ z. StoredIn cs p z) f (subst (λ z. StoredIn cs z x) e d)
    ]),
  )

  pub Evolves-IsImplied :
      (w v : Work) → Evolves cs index w v → IsImplied cs w.result → IsImplied cs v.result
  Evolves-IsImplied w v (unchanged _) h = h
  Evolves-IsImplied w v (more_pts t x _ _ d e) h =
      Evolves-IsImplied (grow_pts index t x w) v e (grow_pts-IsImplied t x w d h)
  Evolves-IsImplied w v (more_mem s x _ _ d e) h =
      Evolves-IsImplied (grow_mem cs s x w) v e (grow_mem-IsImplied s x w d h)

  load_all-Evolves :
      (i : ℕ) (t s : String) (slots : List AbstractLoc) (w : Work)
      → constraint_at i cs ≡ some (load_ptr t s)
      → IsImplied cs w.result
      → ((slot : AbstractLoc) → has_loc slot slots ≡ true → PointsTo cs s slot)
      → Evolves cs index w (load_all index t slots w)
  unfolding load_all stored_into
  load_all-Evolves i t s [] w c h d = unchanged w
  load_all-Evolves i t s (slot ∷ slots) w c h d =
      let next = grow_pts_all index t (stored_into slot w.result) w in
      let first =
        grow_pts_all-Evolves t (stored_into slot w.result) w
          (λ x a. loaded i t s slot x c (d slot (has_first slot slots)) (h.1 slot x a)) in
      Evolves-trans w next (load_all index t slots next) first (
        load_all-Evolves i t s slots next c (Evolves-IsImplied w next first h)
          (λ x a. d x (has_later x slot slots a)))

  grow_mem_all-Evolves :
      (slot : AbstractLoc) (locs : List AbstractLoc) (w : Work)
      → ((x : AbstractLoc) → has_loc x locs ≡ true → StoredIn cs slot x)
      → Evolves cs index w (grow_mem_all cs slot locs w)
  unfolding grow_mem_all
  grow_mem_all-Evolves slot [] w d = unchanged w
  grow_mem_all-Evolves slot (loc ∷ locs) w d =
      more_mem slot loc w (grow_mem_all cs slot locs (grow_mem cs slot loc w))
        (d loc (has_first loc locs))
        (grow_mem_all-Evolves slot locs (grow_mem cs slot loc w)
          (λ x h. d x (has_later x loc locs h)))

  store_all-Evolves :
      (slots locs : List AbstractLoc) (w : Work)
      → ((slot x : AbstractLoc)
          → has_loc slot slots ≡ true
          → has_loc x locs ≡ true
          → StoredIn cs slot x)
      → Evolves cs index w (store_all cs slots locs w)
  unfolding store_all
  store_all-Evolves [] locs w d = unchanged w
  store_all-Evolves (slot ∷ slots) locs w d =
      let next = grow_mem_all cs slot locs w in
      Evolves-trans w next (store_all cs slots locs next)
        (grow_mem_all-Evolves slot locs w (λ x h. d slot x (has_first slot slots) h))
        (store_all-Evolves slots locs next (λ a x h k. d a x (has_later a slot slots h) k))

  field_implied :
      (i : ℕ) (t s : String) (n : ℕ) (locs : List AbstractLoc)
      → constraint_at i cs ≡ some (struct_field t s n)
      → ((x : AbstractLoc) → has_loc x locs ≡ true → PointsTo cs s x)
      → (y : AbstractLoc) → has_loc y (fields_of n locs) ≡ true
      → PointsTo cs t y
  unfolding fields_of has_loc
  field_implied i t s n [] c d y h = absurd (false_ne h)
    where
      false_ne : false ≡ true → ⊥
      false_ne z = cc
  field_implied i t s n (loc ∷ locs) c d y h =
      elim (Bool-cases (test (String-discrete (field loc n) y))) [
        | inl e ↦
            subst (λ z. PointsTo cs t z) ((test_iff (String-discrete (field loc n) y)).0 e)
              (field_taken i t s n loc c (d loc (has_first loc locs)))
        | inr f ↦ field_implied i t s n locs c (λ x a. d x (has_later x loc locs a)) y (rw f at h)
      ]

  -- Applying one of the constraints inserts implied locations only.
  pub apply-Evolves :
      (i : ℕ) (c : Constraint) (w : Work)
      → constraint_at i cs ≡ some c
      → IsImplied cs w.result
      → Evolves cs index w (apply cs index c w)
  unfolding apply points_to
  apply-Evolves i (seed t x) w e h = unchanged w
  apply-Evolves i (copy t s) w e h =
      grow_pts_all-Evolves t (points_to s w.result) w (λ x a. copied i t s x e (h.0 s x a))
  apply-Evolves i (struct_field t s n) w e h =
      grow_pts_all-Evolves t (fields_of n (points_to s w.result)) w
        (field_implied i t s n (points_to s w.result) e (λ x a. h.0 s x a))
  apply-Evolves i (load_ptr t s) w e h =
      load_all-Evolves i t s (points_to s w.result) w e h (λ x a. h.0 s x a)
  apply-Evolves i (store_ptr t v) w e h =
      store_all-Evolves (points_to t w.result) (points_to v w.result) w
        (λ slot x a b. stored i t v slot x e (h.0 t slot a) (h.0 v x b))
