-- ===== src/Pointer/Growth.antt =====
-- src/pointer_analysis/andersen.rs: how the sets grow and which constraints are put back.
use may_must_rs.Base.{
  ==_iff, Bool, Bool-cases, List, String, String-discrete, [], ap, arith, bool_not, false,
  if◌then◌else◌, inl, inr, refl, some, subst, sym, test, test_iff, true, ℕ, ◌&&◌, ◌==◌, ◌∙◌, ◌∷◌,
  ◌≡◌, ◌⊎◌,
}
use may_must_rs.Base.Map.{member}
use may_must_rs.Base.Names.{TextMap, entries}
use may_must_rs.Pointer.Constraint.{
  AbstractLoc, Constraint, has_loc, insert_pts, load_ptr, points_to,
}
use may_must_rs.Pointer.Facts.{
  InSet, InSet-add_entry_inv, InSet-add_entry_new, InSet-add_entry_old, InSet-add_entry_same,
  Points, Stored, add_entry,
}
use may_must_rs.Pointer.Solver.{
  Work, constraint_at, enqueue, enqueue_all, enqueue_if, grow_pts, grow_pts_all, set_flag,
}

-- A constraint that is not on the worklist afterwards was not on it before, its sources point to
-- nothing new, and what the slots of a load hold is not new either.
pub record Grows (cs : List Constraint) (index : TextMap (List ℕ)) (w v : Work) : Type 0 where
  pub stay : (i : ℕ) → v.queued i ≡ false → w.queued i ≡ false
  pub pts_up : (p : String) (loc : AbstractLoc) → Points w.result p loc → Points v.result p loc
  pub mem_up : (p : String) (loc : AbstractLoc) → Stored w.result p loc → Stored v.result p loc
  pub fresh :
      (p : String) (i : ℕ) (loc : AbstractLoc)
      → member i (entries p index) ≡ true
      → v.queued i ≡ false
      → Points v.result p loc
      → Points w.result p loc
  pub fresh_mem :
      (i : ℕ) (t s : String) (slot loc : AbstractLoc)
      → constraint_at i cs ≡ some (load_ptr t s)
      → v.queued i ≡ false
      → Points v.result s slot
      → Stored v.result slot loc
      → Stored w.result slot loc

-- The index has every load under its source.
abbrev pub LoadsIndexed : List Constraint → TextMap (List ℕ) → Type 0
LoadsIndexed cs index =
    (i : ℕ) (t s : String)
    → constraint_at i cs ≡ some (load_ptr t s)
    → member i (entries s index) ≡ true

-- The same sets, and no fewer constraints on the worklist.
pub enqueued :
    (cs : List Constraint) (index : TextMap (List ℕ)) (w v : Work)
    → v.result ≡ w.result
    → ((i : ℕ) → v.queued i ≡ false → w.queued i ≡ false)
    → Grows cs index w v
enqueued cs index w v e q = record {
  stay = q;
  pts_up = λ p loc h. rw e h;
  mem_up = λ p loc h. rw e h;
  fresh = λ p i loc m f h. rw e at h;
  fresh_mem = λ i t s slot loc c f g h. rw e at h;
}

module _ (cs : List Constraint) (index : TextMap (List ℕ)) where
  pub Grows-refl : (w : Work) → Grows cs index w w
  Grows-refl w = enqueued cs index w w refl (λ i f. f)

  pub Grows-trans :
      (u v w : Work)
      → LoadsIndexed cs index
      → Grows cs index u v
      → Grows cs index v w
      → Grows cs index u w
  Grows-trans u v w indexed g h = record {
    stay = λ i f. g.stay i (h.stay i f);
    pts_up = λ p loc a. h.pts_up p loc (g.pts_up p loc a);
    mem_up = λ p loc a. h.mem_up p loc (g.mem_up p loc a);
    fresh = λ p i loc m f a. g.fresh p i loc m (h.stay i f) (h.fresh p i loc m f a);
    fresh_mem = λ i t s slot loc c f a b.
        g.fresh_mem i t s slot loc c (h.stay i f) (h.fresh s i slot (indexed i t s c) f a)
          (h.fresh_mem i t s slot loc c f a b);
  }

result-enqueue : (idx : ℕ) (w : Work) → (enqueue idx w).result ≡ w.result
unfolding enqueue
result-enqueue idx w = elim (Bool-cases (w.queued idx)) [ inl y ↦ rw y refl | inr n ↦ rw n refl ]

queued-enqueue :
    (idx i : ℕ) (w : Work) → (enqueue idx w).queued i ≡ (if i == idx then true else w.queued i)
unfolding enqueue set_flag
queued-enqueue idx i w = elim (Bool-cases (w.queued idx)) [
  | inl y ↦ rw y (here y (Bool-cases (i == idx)))
  | inr n ↦ rw n refl
]
  where
    here :
        w.queued idx ≡ true
        → ((i == idx) ≡ true) ⊎ ((i == idx) ≡ false)
        → w.queued i ≡ (if i == idx then true else w.queued i)
    here y (inl e) = rw e (subst (λ k. w.queued k ≡ true) (sym ((==_iff i idx).0 e)) y)
    here y (inr e) = rw e refl

result-enqueue_all : (is : List ℕ) (w : Work) → (enqueue_all is w).result ≡ w.result
unfolding enqueue_all
result-enqueue_all [] w = refl
result-enqueue_all (i ∷ is) w = result-enqueue_all is (enqueue i w) ∙ result-enqueue i w

queued-enqueue_all :
    (is : List ℕ) (i : ℕ) (w : Work)
    → (enqueue_all is w).queued i ≡ (if member i is then true else w.queued i)
unfolding enqueue_all member
queued-enqueue_all [] i w = refl
queued-enqueue_all (j ∷ is) i w =
    queued-enqueue_all is i (enqueue j w)
    ∙ ap (λ b. if member i is then true else b) (queued-enqueue j i w)
    ∙ ground (arith)

pub result-enqueue_if : (b : Bool) (is : List ℕ) (w : Work) → (enqueue_if b is w).result ≡ w.result
unfolding enqueue_if
result-enqueue_if true is w = result-enqueue_all is w
result-enqueue_if false is w = refl

pub queued-enqueue_if :
    (b : Bool) (is : List ℕ) (i : ℕ) (w : Work)
    → (enqueue_if b is w).queued i ≡ (if b && member i is then true else w.queued i)
unfolding enqueue_if
queued-enqueue_if true is i w = queued-enqueue_all is i w
queued-enqueue_if false is i w = refl

pub result-grow_pts :
    (index : TextMap (List ℕ)) (target : String) (loc : AbstractLoc) (w : Work)
    → (grow_pts index target loc w).result
      ≡ record w.result { pts = add_entry target loc w.result.pts }
unfolding grow_pts insert_pts points_to
result-grow_pts index target loc w =
    result-enqueue_if (bool_not (has_loc loc (entries target w.result.pts))) (entries target index)
      (record w { result = record w.result { pts = add_entry target loc w.result.pts } })

-- Either the location was there, or the constraints with the target as a source are put back.
queued-grow_pts :
    (index : TextMap (List ℕ)) (target : String) (loc : AbstractLoc) (i : ℕ) (w : Work)
    → (grow_pts index target loc w).queued i ≡ (
        if bool_not (has_loc loc (entries target w.result.pts)) && member i (entries target index)
        then true
        else w.queued i)
unfolding grow_pts insert_pts points_to
queued-grow_pts index target loc i w =
    queued-enqueue_if (bool_not (has_loc loc (entries target w.result.pts))) (entries target index)
      i (record w { result = record w.result { pts = add_entry target loc w.result.pts } })

pub grow_pts-Points :
    (index : TextMap (List ℕ)) (target : String) (loc : AbstractLoc) (w : Work)
    → Points (grow_pts index target loc w).result target loc
grow_pts-Points index target loc w =
    rw (result-grow_pts index target loc w) (InSet-add_entry_new target loc w.result.pts)

pub grow_pts-Grows :
    (cs : List Constraint) (index : TextMap (List ℕ)) (target : String) (loc : AbstractLoc)
    (w : Work)
    → Grows cs index w (grow_pts index target loc w)
grow_pts-Grows cs index target loc w = record {
  stay = λ i f. stays _ _ (sym (queued-grow_pts index target loc i w) ∙ f);
  pts_up = λ p x h.
      rw (result-grow_pts index target loc w) (InSet-add_entry_old target p loc x w.result.pts h);
  mem_up = λ p x h. rw (result-grow_pts index target loc w) h;
  fresh = λ p i x m f h.
      known p i x m (sym (queued-grow_pts index target loc i w) ∙ f)
        (rw (result-grow_pts index target loc w) at h);
  fresh_mem = λ i t s slot x c f g h. rw (result-grow_pts index target loc w) at h;
}
  where
    stays : (b q : Bool) → (if b then true else q) ≡ false → q ≡ false
    stays b q h = ground arith

    known :
        (p : String) (i : ℕ) (x : AbstractLoc)
        → member i (entries p index) ≡ true
        → (if bool_not (has_loc loc (entries target w.result.pts))
              && member i (entries target index)
            then true
            else w.queued i)
          ≡ false
        → InSet (add_entry target loc w.result.pts) p x
        → Points w.result p x
    known p i x m f h = elim (InSet-add_entry_inv target p loc x w.result.pts h) [
      | inl y ↦ y
      | inr (e, g) ↦ elim (Bool-cases (has_loc loc (entries target w.result.pts))) [
        | inl y ↦ InSet-add_entry_same target p loc x w.result.pts y h
        | inr n ↦
            absurd (true_ne (rw (n, subst (λ z. member i (entries z index) ≡ true) (sym e) m) at f))
      ]
    ]
      where
        true_ne : true ≡ false → ⊥
        true_ne z = cc

module _ (cs : List Constraint) (index : TextMap (List ℕ)) (indexed : LoadsIndexed cs index) where
  pub grow_pts_all-Grows :
      (target : String) (locs : List AbstractLoc) (w : Work)
      → Grows cs index w (grow_pts_all index target locs w)
  unfolding grow_pts_all
  grow_pts_all-Grows target [] w = Grows-refl cs index w
  grow_pts_all-Grows target (loc ∷ locs) w =
      Grows-trans cs index w (grow_pts index target loc w)
        (grow_pts_all index target locs (grow_pts index target loc w)) indexed
        (grow_pts-Grows cs index target loc w)
        (grow_pts_all-Grows target locs (grow_pts index target loc w))

  -- The loop over the locations gives all of them to the target.
  pub grow_pts_all-Points :
      (target : String) (locs : List AbstractLoc) (w : Work) (x : AbstractLoc)
      → has_loc x locs ≡ true
      → Points (grow_pts_all index target locs w).result target x
  unfolding grow_pts_all has_loc
  grow_pts_all-Points target [] w x h = absurd (false_ne h)
    where
      false_ne : false ≡ true → ⊥
      false_ne z = cc
  grow_pts_all-Points target (loc ∷ locs) w x h = elim (Bool-cases (test (String-discrete loc x))) [
    | inl e ↦ (grow_pts_all-Grows target locs (grow_pts index target loc w)).pts_up target x (
        subst (λ z. Points (grow_pts index target loc w).result target z)
          ((test_iff (String-discrete loc x)).0 e) (grow_pts-Points index target loc w))
    | inr n ↦ grow_pts_all-Points target locs (grow_pts index target loc w) x (rw n at h)
  ]
