-- ===== src/Pointer/Start.antt =====
-- src/pointer_analysis/andersen.rs: the state before the first round.
use may_must_rs.Base.{
  Bool, Bool-cases, List, String, String-discrete, [], arith, false, if◌then◌else◌, inl, inr,
  length, none, refl, some, some-eq, subst, suc, sym, test, test_iff, true, zero, ℕ, ◌&&◌, ◌+◌, ◌∙◌,
  ◌∷◌, ◌≡◌, ◌⊎◌,
}
use may_must_rs.Base.Map.{member}
use may_must_rs.Base.Names.{TextMap, entries}
use may_must_rs.Pointer.Closure.{IndexedAt, Satisfies, Seeded}
use may_must_rs.Pointer.Constraint.{
  AbstractLoc, AliasResult, Constraint, copy, empty_result, has_key, has_loc, insert_pts, load_ptr,
  points_to, seed, store_ptr, struct_field,
}
use may_must_rs.Pointer.Derivation.{IsImplied, PointsTo, from_seed}
use may_must_rs.Pointer.Facts.{
  InSet, InSet-add_entry_inv, InSet-add_entry_new, InSet-add_entry_old, Points,
}
use may_must_rs.Pointer.Fixpoint.{Going, IsIndex}
use may_must_rs.Pointer.Growth.{queued-enqueue_if, result-enqueue_if}
use may_must_rs.Pointer.Indexed.{index_from-IsIndex}
use may_must_rs.Pointer.MemoryGrowth.{enqueue_if_stays}
use may_must_rs.Pointer.Queue.{AllBelow, QueueOf, enqueue_if-QueueOf}
use may_must_rs.Pointer.Solver.{
  Work, constraint_at, enqueue_if, enqueue_seeded, index_from, seed_all, start,
}

seed_all_kept :
    (cs : List Constraint) (r : AliasResult) (p : String) (x : AbstractLoc)
    → Points r p x
    → Points (seed_all cs r) p x
unfolding seed_all insert_pts points_to
seed_all_kept [] r p x h = h
seed_all_kept (seed t y ∷ cs) r p x h =
    seed_all_kept cs (insert_pts t y r).1 p x (InSet-add_entry_old t p y x r.pts h)
seed_all_kept (copy t s ∷ cs) r p x h = seed_all_kept cs r p x h
seed_all_kept (struct_field t s n ∷ cs) r p x h = seed_all_kept cs r p x h
seed_all_kept (load_ptr t s ∷ cs) r p x h = seed_all_kept cs r p x h
seed_all_kept (store_ptr t v ∷ cs) r p x h = seed_all_kept cs r p x h

seed_all-Seeded :
    (i : ℕ) (cs : List Constraint) (r : AliasResult) (t : String) (x : AbstractLoc)
    → constraint_at i cs ≡ some (seed t x)
    → Points (seed_all cs r) t x
unfolding seed_all insert_pts points_to constraint_at
seed_all-Seeded i [] r t x h = absurd (none_ne h)
  where
    none_ne : none ≡ some (seed t x) → ⊥
    none_ne z = cc
seed_all-Seeded zero (c ∷ cs) r t x h =
    subst (λ (z : Constraint). Points (seed_all (z ∷ cs) r) t x) (sym (some-eq h))
      (seed_all_kept cs (insert_pts t x r).1 t x (InSet-add_entry_new t x r.pts))
seed_all-Seeded (suc i) (seed u y ∷ cs) r t x h = seed_all-Seeded i cs (insert_pts u y r).1 t x h
seed_all-Seeded (suc i) (copy u s ∷ cs) r t x h = seed_all-Seeded i cs r t x h
seed_all-Seeded (suc i) (struct_field u s n ∷ cs) r t x h = seed_all-Seeded i cs r t x h
seed_all-Seeded (suc i) (load_ptr u s ∷ cs) r t x h = seed_all-Seeded i cs r t x h
seed_all-Seeded (suc i) (store_ptr u v ∷ cs) r t x h = seed_all-Seeded i cs r t x h

-- The constraints from the place on are the rest.
abbrev pub IsRest : ℕ → List Constraint → List Constraint → Type 0
IsRest k cs all =
    (i : ℕ) (c : Constraint) → constraint_at i cs ≡ some c → constraint_at (k + i) all ≡ some c

IsRest-tail :
    (k : ℕ) (d : Constraint) (cs all : List Constraint)
    → IsRest k (d ∷ cs) all
    → IsRest (suc k) cs all
unfolding constraint_at
IsRest-tail k d cs all h i c e =
    subst (λ z. constraint_at z all ≡ some c) (shift k i) (h (suc i) c e)
  where
    shift : (a b : ℕ) → a + suc b ≡ suc a + b
    shift a b = omega arith

rest-head :
    (k : ℕ) (d : Constraint) (cs all : List Constraint)
    → IsRest k (d ∷ cs) all
    → constraint_at (k + 0) all ≡ some d
unfolding constraint_at
rest-head k d cs all h = h 0 d refl

seed_all-IsImplied :
    (k : ℕ) (cs all : List Constraint) (r : AliasResult)
    → IsRest k cs all
    → IsImplied all r
    → IsImplied all (seed_all cs r)
unfolding seed_all insert_pts points_to
seed_all-IsImplied k [] all r h g = g
seed_all-IsImplied k (seed t x ∷ cs) all r h g =
    seed_all-IsImplied (suc k) cs all (insert_pts t x r).1 (IsRest-tail k (seed t x) cs all h)
      ((λ p y a. by_name p y (InSet-add_entry_inv t p x y r.pts a)), g.1)
  where
    by_name : (p : String) (y : AbstractLoc) → Points r p y ⊎ ((t ≡ p) × (x ≡ y)) → PointsTo all p y
    by_name p y (inl b) = g.0 p y b
    by_name p y (inr (e, f)) =
        subst (λ z. PointsTo all p z) f
          (subst (λ z. PointsTo all z x) e
            (from_seed (k + 0) t x (rest-head k (seed t x) cs all h)))
seed_all-IsImplied k (copy u s ∷ cs) all r h g =
    seed_all-IsImplied (suc k) cs all r (IsRest-tail k (copy u s) cs all h) g
seed_all-IsImplied k (struct_field u s n ∷ cs) all r h g =
    seed_all-IsImplied (suc k) cs all r (IsRest-tail k (struct_field u s n) cs all h) g
seed_all-IsImplied k (load_ptr u s ∷ cs) all r h g =
    seed_all-IsImplied (suc k) cs all r (IsRest-tail k (load_ptr u s) cs all h) g
seed_all-IsImplied k (store_ptr u v ∷ cs) all r h g =
    seed_all-IsImplied (suc k) cs all r (IsRest-tail k (store_ptr u v) cs all h) g

result-enqueue_seeded :
    (order : List String) (index : TextMap (List ℕ)) (w : Work)
    → (enqueue_seeded order index w).result ≡ w.result
unfolding enqueue_seeded
result-enqueue_seeded [] index w = refl
result-enqueue_seeded (p ∷ ps) index w =
    result-enqueue_seeded ps index (enqueue_if (has_key p w.result.pts) (entries p index) w)
    ∙ result-enqueue_if (has_key p w.result.pts) (entries p index) w

enqueue_seeded-QueueOf :
    (n : ℕ) (order : List String) (index : TextMap (List ℕ)) (w : Work)
    → ((p : String) → AllBelow n (entries p index))
    → QueueOf n w
    → QueueOf n (enqueue_seeded order index w)
unfolding enqueue_seeded
enqueue_seeded-QueueOf n [] index w b q = q
enqueue_seeded-QueueOf n (p ∷ ps) index w b q =
    enqueue_seeded-QueueOf n ps index (enqueue_if (has_key p w.result.pts) (entries p index) w) b
      (enqueue_if-QueueOf n (has_key p w.result.pts) (entries p index) w (b p) q)

enqueue_seeded_stays :
    (order : List String) (index : TextMap (List ℕ)) (w : Work) (i : ℕ)
    → (enqueue_seeded order index w).queued i ≡ false
    → w.queued i ≡ false
unfolding enqueue_seeded
enqueue_seeded_stays [] index w i f = f
enqueue_seeded_stays (p ∷ ps) index w i f =
    enqueue_if_stays (has_key p w.result.pts) (entries p index) i w
      (enqueue_seeded_stays ps index (enqueue_if (has_key p w.result.pts) (entries p index) w) i f)

-- A source that points somewhere has its constraints on the worklist.
enqueue_seeded_queues :
    (order : List String) (index : TextMap (List ℕ)) (w : Work) (p : String) (i : ℕ)
    → has_loc p order ≡ true
    → member i (entries p index) ≡ true
    → (enqueue_seeded order index w).queued i ≡ false
    → has_key p w.result.pts ≡ false
unfolding enqueue_seeded has_loc
enqueue_seeded_queues [] index w p i h m f = absurd (false_ne h)
  where
    false_ne : false ≡ true → ⊥
    false_ne z = cc
enqueue_seeded_queues (q ∷ ps) index w p i h m f =
    let b = has_key q w.result.pts in
    let next = enqueue_if b (entries q index) w in
    elim (Bool-cases (test (String-discrete q p))) [
      | inl e ↦
          let same = (test_iff (String-discrete q p)).0 e in
          subst (λ z. has_key z w.result.pts ≡ false) same
            (unset b (member i (entries q index)) (w.queued i)
              (subst (λ z. member i (entries z index) ≡ true) (sym same) m)
              (sym (queued-enqueue_if b (entries q index) i w)
                ∙ enqueue_seeded_stays ps index next i f))
      | inr n ↦
          subst (λ (r : AliasResult). has_key p r.pts ≡ false)
            (result-enqueue_if b (entries q index) w)
            (enqueue_seeded_queues ps index next p i (rw n at h) m f)
    ]
  where
    unset : (b c d : Bool) → c ≡ true → (if b && c then true else d) ≡ false → b ≡ false
    unset b c d e f = ground arith

no_key :
    (p : String) (x : AbstractLoc) (m : TextMap (List AbstractLoc))
    → has_key p m ≡ false
    → InSet m p x
    → ⊥
unfolding has_key entries has_loc
no_key p x [] f h = cc
no_key p x ((q, v) ∷ m) f h = elim (Bool-cases (test (String-discrete q p))) [
  | inl e ↦ absurd (true_ne (rw e at f))
  | inr n ↦ no_key p x m (rw n at f) (rw n at h)
]
  where
    true_ne : true ≡ false → ⊥
    true_ne z = cc

-- The order of the first round has every source.
abbrev pub IsOrder : List String → List Constraint → Type 0
IsOrder order cs =
    (p : String) (i : ℕ) → member i (entries p (index_from 0 cs [])) ≡ true → has_loc p order ≡ true

zero_plus : (i : ℕ) → 0 + i ≡ i
zero_plus i = omega arith

pub start-Going :
    (order : List String) (cs : List Constraint) → IsOrder order cs → Going cs (start order cs)
unfolding start empty_result entries has_loc member
start-Going order cs o = record {
  settled = λ i c e f. rw same (settle i c e f (ix.complete i c e));
  seeds = λ i c e. rw same (seeds i c e);
  implied = rw same (
      seed_all-IsImplied 0 cs cs empty_result
        (λ i c e. subst (λ z. constraint_at z cs ≡ some c) (sym (zero_plus i)) e) nothing);
  queue = enqueue_seeded-QueueOf (length cs) order index first ix.below (record {
    listed = λ i h. absurd (false_ne h);
    flagged = λ i h. absurd (false_ne h);
    distinct = tt;
    within = λ i h. absurd (false_ne h);
  });
}
  where
    index : TextMap (List ℕ)
    index = index_from 0 cs []

    ix : IsIndex cs index
    ix = index_from-IsIndex cs

    first : Work
    first = record { result = seed_all cs empty_result; worklist = []; queued = λ i. false }

    same : (start order cs).result ≡ seed_all cs empty_result
    same = result-enqueue_seeded order index first

    false_ne : false ≡ true → ⊥
    false_ne z = cc

    nothing : IsImplied cs empty_result
    nothing = ((λ p x h. absurd (false_ne h)), (λ p x h. absurd (false_ne h)))

    seeds :
        (i : ℕ) (c : Constraint) → constraint_at i cs ≡ some c → Seeded (seed_all cs empty_result) c
    seeds i (seed t x) e = seed_all-Seeded i cs empty_result t x e
    seeds i (copy t s) e = tt
    seeds i (struct_field t s n) e = tt
    seeds i (load_ptr t s) e = tt
    seeds i (store_ptr t v) e = tt

    empty_source :
        (p : String) (i : ℕ) (x : AbstractLoc)
        → member i (entries p index) ≡ true
        → (start order cs).queued i ≡ false
        → Points (seed_all cs empty_result) p x
        → ⊥
    empty_source p i x m f h =
        no_key p x (seed_all cs empty_result).pts
          (enqueue_seeded_queues order index first p i (o p i m) m f) h

    settle :
        (i : ℕ) (c : Constraint)
        → constraint_at i cs ≡ some c
        → (start order cs).queued i ≡ false
        → IndexedAt index i c
        → Satisfies (seed_all cs empty_result) c
    settle i (seed t x) e f n = seed_all-Seeded i cs empty_result t x e
    settle i (copy t s) e f n = λ x a. absurd (empty_source s i x n f a)
    settle i (struct_field t s k) e f n = λ x a. absurd (empty_source s i x n f a)
    settle i (load_ptr t s) e f n = λ slot x a b. absurd (empty_source s i slot n f a)
    settle i (store_ptr t v) e f n = λ slot x a b. absurd (empty_source t i slot n.0 f a)
