-- ===== src/Pointer/MemoryGrowth.antt =====
-- src/pointer_analysis/andersen.rs: how loads and stores let the sets grow.
use may_must_rs.Base.{
  Bool, Bool-cases, List, String, String-discrete, [], arith, bool_not, false, inl, inr, none, refl,
  some, some-eq, subst, suc, sym, test, test_iff, true, zero, ℕ, ◌+◌, ◌∙◌, ◌∷◌, ◌≡◌,
}
use may_must_rs.Base.Map.{member}
use may_must_rs.Base.Names.{TextMap, entries}
use may_must_rs.Pointer.Constraint.{
  AbstractLoc, AliasResult, Constraint, has_loc, insert_pts_mem, load_ptr, points_to, stored_into,
}
use may_must_rs.Pointer.Facts.{
  InSet, InSet-add_entry_inv, InSet-add_entry_new, InSet-add_entry_old, InSet-add_entry_same,
  Points, Stored, add_entry,
}
use may_must_rs.Pointer.Growth.{
  Grows, Grows-refl, Grows-trans, LoadsIndexed, grow_pts_all-Grows, grow_pts_all-Points,
  queued-enqueue_if, result-enqueue_if,
}
use may_must_rs.Pointer.Solver.{
  Work, constraint_at, enqueue_if, grow_mem, grow_pts_all, load_all, requeue_if, requeue_loads,
}

module _ (cs : List Constraint) (index : TextMap (List ℕ)) (indexed : LoadsIndexed cs index) where
  pub load_all-Grows :
      (target : String) (slots : List AbstractLoc) (w : Work)
      → Grows cs index w (load_all index target slots w)
  unfolding load_all
  load_all-Grows target [] w = Grows-refl cs index w
  load_all-Grows target (slot ∷ slots) w =
      let next = grow_pts_all index target (stored_into slot w.result) w in
      Grows-trans cs index w next (load_all index target slots next) indexed
        (grow_pts_all-Grows cs index indexed target (stored_into slot w.result) w)
        (load_all-Grows target slots next)

  pub load_all-Points :
      (target : String) (slots : List AbstractLoc) (w : Work) (slot x : AbstractLoc)
      → has_loc slot slots ≡ true
      → Stored w.result slot x
      → Points (load_all index target slots w).result target x
  unfolding load_all has_loc stored_into
  load_all-Points target [] w slot x h s = absurd (false_ne h)
    where
      false_ne : false ≡ true → ⊥
      false_ne z = cc
  load_all-Points target (first ∷ slots) w slot x h s =
      let next = grow_pts_all index target (stored_into first w.result) w in
      elim (Bool-cases (test (String-discrete first slot))) [
        | inl e ↦ (load_all-Grows target slots next).pts_up target x (
            grow_pts_all-Points cs index indexed target (stored_into first w.result) w x (
              subst (λ z. Stored w.result z x) (sym ((test_iff (String-discrete first slot)).0 e))
                s))
        | inr n ↦ load_all-Points target slots next slot x (rw n at h) (
            (grow_pts_all-Grows cs index indexed target (stored_into first w.result) w).mem_up slot
              x s)
      ]

result-requeue_loads :
    (place : AbstractLoc) (k : ℕ) (cs : List Constraint) (w : Work)
    → (requeue_loads place k cs w).result ≡ w.result
unfolding requeue_loads
result-requeue_loads place k [] w = refl
result-requeue_loads place k (load_ptr t s ∷ cs) w =
    result-requeue_loads place (suc k) cs
      (enqueue_if (has_loc place (points_to s w.result)) (k ∷ []) w)
    ∙ result-enqueue_if (has_loc place (points_to s w.result)) (k ∷ []) w
result-requeue_loads place k (_ ∷ cs) w = result-requeue_loads place (suc k) cs w

pub enqueue_if_stays :
    (b : Bool) (is : List ℕ) (i : ℕ) (w : Work)
    → (enqueue_if b is w).queued i ≡ false
    → w.queued i ≡ false
enqueue_if_stays b is i w h = ground (arith, queued-enqueue_if b is i w)

requeue_loads_stays :
    (place : AbstractLoc) (k : ℕ) (cs : List Constraint) (w : Work) (i : ℕ)
    → (requeue_loads place k cs w).queued i ≡ false
    → w.queued i ≡ false
unfolding requeue_loads
requeue_loads_stays place k [] w i h = h
requeue_loads_stays place k (load_ptr t s ∷ cs) w i h =
    let b = has_loc place (points_to s w.result) in
    enqueue_if_stays b (k ∷ []) i w
      (requeue_loads_stays place (suc k) cs (enqueue_if b (k ∷ []) w) i h)
requeue_loads_stays place k (_ ∷ cs) w i h = requeue_loads_stays place (suc k) cs w i h

shift : (k j : ℕ) → suc k + j ≡ k + suc j
shift k j = omega arith

enqueue_if_one :
    (b : Bool) (k : ℕ) (w : Work) → b ≡ true → (enqueue_if b (k ∷ []) w).queued (k + 0) ≡ false → ⊥
unfolding member
enqueue_if_one b k w e q = ground (arith, queued-enqueue_if b (k ∷ []) (k + 0) w)

-- A load through a slot that points to the place is put back.
requeue_loads_queues :
    (place : AbstractLoc) (k j : ℕ) (cs : List Constraint) (w : Work) (t s : String)
    → constraint_at j cs ≡ some (load_ptr t s)
    → Points w.result s place
    → (requeue_loads place k cs w).queued (k + j) ≡ false
    → ⊥
unfolding requeue_loads constraint_at points_to
requeue_loads_queues place k j [] w t s c p f = absurd (none_ne c)
  where
    none_ne : none ≡ some (load_ptr t s) → ⊥
    none_ne z = cc
requeue_loads_queues place k zero (c0 ∷ cs) w t s c p f =
    first (subst (λ z. (requeue_loads place k (z ∷ cs) w).queued (k + 0) ≡ false) (some-eq c) f)
  where
    first : (requeue_loads place k (load_ptr t s ∷ cs) w).queued (k + 0) ≡ false → ⊥
    first q =
        let b = has_loc place (points_to s w.result) in
        enqueue_if_one b k w p
          (requeue_loads_stays place (suc k) cs (enqueue_if b (k ∷ []) w) (k + 0) q)
requeue_loads_queues place k (suc j) (load_ptr t0 s0 ∷ cs) w t s c p f =
    let b = has_loc place (points_to s0 w.result) in
    requeue_loads_queues place (suc k) j cs (enqueue_if b (k ∷ []) w) t s c
      (subst (λ r. Points r s place) (sym (result-enqueue_if b (k ∷ []) w)) p) (rw (shift k j) f)
requeue_loads_queues place k (suc j) (_ ∷ cs) w t s c p f =
    requeue_loads_queues place (suc k) j cs w t s c p (rw (shift k j) f)

result-requeue_if :
    (b : Bool) (place : AbstractLoc) (cs : List Constraint) (w : Work)
    → (requeue_if b place cs w).result ≡ w.result
unfolding requeue_if
result-requeue_if true place cs w = result-requeue_loads place 0 cs w
result-requeue_if false place cs w = refl

requeue_if_stays :
    (b : Bool) (place : AbstractLoc) (cs : List Constraint) (w : Work) (i : ℕ)
    → (requeue_if b place cs w).queued i ≡ false
    → w.queued i ≡ false
unfolding requeue_if
requeue_if_stays true place cs w i f = requeue_loads_stays place 0 cs w i f
requeue_if_stays false place cs w i f = f

requeue_if_queues :
    (b : Bool) (place : AbstractLoc) (cs : List Constraint) (w : Work) (i : ℕ) (t s : String)
    → constraint_at i cs ≡ some (load_ptr t s)
    → Points w.result s place
    → (requeue_if b place cs w).queued i ≡ false
    → b ≡ false
unfolding requeue_if
requeue_if_queues true place cs w i t s c p f =
    absurd (requeue_loads_queues place 0 i cs w t s c p (rw (zero_plus i) f))
  where
    zero_plus : (n : ℕ) → 0 + n ≡ n
    zero_plus n = omega arith
requeue_if_queues false place cs w i t s c p f = refl

pub result-grow_mem :
    (cs : List Constraint) (place loc : AbstractLoc) (w : Work)
    → (grow_mem cs place loc w).result
      ≡ record w.result { pts_mem = add_entry place loc w.result.pts_mem }
unfolding grow_mem insert_pts_mem stored_into
result-grow_mem cs place loc w =
    result-requeue_if (bool_not (has_loc loc (entries place w.result.pts_mem))) place cs
      (record w { result = record w.result { pts_mem = add_entry place loc w.result.pts_mem } })

pub grow_mem-Stored :
    (cs : List Constraint) (place loc : AbstractLoc) (w : Work)
    → Stored (grow_mem cs place loc w).result place loc
grow_mem-Stored cs place loc w =
    rw (result-grow_mem cs place loc w) (InSet-add_entry_new place loc w.result.pts_mem)

-- Where the location is new, the loads that may see it are put back.
grow_mem_queues :
    (cs : List Constraint) (place loc : AbstractLoc) (w : Work) (i : ℕ) (t s : String)
    → constraint_at i cs ≡ some (load_ptr t s)
    → Points w.result s place
    → (grow_mem cs place loc w).queued i ≡ false
    → Stored w.result place loc
unfolding grow_mem insert_pts_mem stored_into
grow_mem_queues cs place loc w i t s c p f = flip (has_loc loc (entries place w.result.pts_mem)) (
    requeue_if_queues (bool_not (has_loc loc (entries place w.result.pts_mem))) place cs
      (record w { result = record w.result { pts_mem = add_entry place loc w.result.pts_mem } }) i t
      s c p f)
  where
    flip : (b : Bool) → bool_not b ≡ false → b ≡ true
    flip b e = ground arith

pub grow_mem-Grows :
    (cs : List Constraint) (index : TextMap (List ℕ)) (place loc : AbstractLoc) (w : Work)
    → Grows cs index w (grow_mem cs place loc w)
unfolding grow_mem insert_pts_mem stored_into
grow_mem-Grows cs index place loc w = record {
  stay = λ i f.
      requeue_if_stays (bool_not (has_loc loc (entries place w.result.pts_mem))) place cs
        (record w { result = record w.result { pts_mem = add_entry place loc w.result.pts_mem } }) i
        f;
  pts_up =
      λ p x h. subst (λ (r : AliasResult). Points r p x) (sym (result-grow_mem cs place loc w)) h;
  mem_up = λ p x h.
      subst (λ (r : AliasResult). Stored r p x) (sym (result-grow_mem cs place loc w))
        (InSet-add_entry_old place p loc x w.result.pts_mem h);
  fresh =
      λ p i x m f h. subst (λ (r : AliasResult). Points r p x) (result-grow_mem cs place loc w) h;
  fresh_mem = λ i t s slot x c f g h.
      known i t s slot x c f
        (subst (λ (r : AliasResult). Points r s slot) (result-grow_mem cs place loc w) g)
        (subst (λ (r : AliasResult). Stored r slot x) (result-grow_mem cs place loc w) h);
}
  where
    known :
        (i : ℕ) (t s : String) (slot x : AbstractLoc)
        → constraint_at i cs ≡ some (load_ptr t s)
        → (grow_mem cs place loc w).queued i ≡ false
        → Points w.result s slot
        → InSet (add_entry place loc w.result.pts_mem) slot x
        → Stored w.result slot x
    known i t s slot x c f g h = elim (InSet-add_entry_inv place slot loc x w.result.pts_mem h) [
      | inl y ↦ y
      | inr (e, _) ↦
          InSet-add_entry_same place slot loc x w.result.pts_mem
            (grow_mem_queues cs place loc w i t s c (subst (λ z. Points w.result s z) (sym e) g) f)
            h
    ]
