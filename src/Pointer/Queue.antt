-- ===== src/Pointer/Queue.antt =====
-- src/pointer_analysis/andersen.rs: the worklist and its flags.
use may_must_rs.Base.{
  ==_iff, Bool, Bool-cases, List, String, [], arith, false, inl, inr, length, subst, suc, sym, true,
  ℕ, ◌++◌, ◌+◌, ◌<◌, ◌==◌, ◌∙◌, ◌∷◌, ◌≡◌, ◌≤◌, ◌⊎◌,
}
use may_must_rs.Base.Distinct.{Distinct, Distinct-append_one, member-append_one}
use may_must_rs.Base.Map.{member}
use may_must_rs.Base.Names.{TextMap, entries}
use may_must_rs.Pointer.Constraint.{
  AbstractLoc, Constraint, has_loc, insert_pts, insert_pts_mem, load_ptr, points_to,
}
use may_must_rs.Pointer.Derivation.{Evolves, more_mem, more_pts, unchanged}
use may_must_rs.Pointer.Solver.{
  Work, enqueue, enqueue_all, enqueue_if, grow_mem, grow_pts, pop, requeue_if, requeue_loads,
  set_flag,
}

-- The flags are those of the worklist, which has no index twice and none outside the constraints.
pub record WellQueued (n : ℕ) (list : List ℕ) (flags : ℕ → Bool) : Type 0 where
  pub listed : (i : ℕ) → flags i ≡ true → member i list ≡ true
  pub flagged : (i : ℕ) → member i list ≡ true → flags i ≡ true
  pub distinct : Distinct list
  pub within : (i : ℕ) → member i list ≡ true → i < n

abbrev pub QueueOf : ℕ → Work → Type 0
QueueOf n w = WellQueued n w.worklist w.queued

-- An index that is not flagged goes to the end.
append-WellQueued :
    (n idx : ℕ) (list : List ℕ) (flags : ℕ → Bool)
    → idx < n
    → flags idx ≡ false
    → WellQueued n list flags
    → WellQueued n (list ++ idx ∷ []) (set_flag idx true flags)
unfolding set_flag
append-WellQueued n idx list flags l f q = record {
  listed = λ i h. ground (arith, member-append_one i idx list, q.listed i);
  flagged = λ i h. ground (arith, member-append_one i idx list, q.flagged i);
  distinct = Distinct-append_one idx list (apart (Bool-cases (member idx list))) q.distinct;
  within = λ i h. ground (arith, member-append_one i idx list, q.within i);
}
  where
    apart : (member idx list ≡ true) ⊎ (member idx list ≡ false) → member idx list ≡ false
    apart (inl y) = absurd (true_ne (sym (q.flagged idx y) ∙ f))
      where
        true_ne : true ≡ false → ⊥
        true_ne z = cc
    apart (inr e) = e

enqueue-QueueOf : (n idx : ℕ) (w : Work) → idx < n → QueueOf n w → QueueOf n (enqueue idx w)
unfolding enqueue
enqueue-QueueOf n idx w l q = elim (Bool-cases (w.queued idx)) [
  | inl y ↦ rw y q
  | inr f ↦ rw f (append-WellQueued n idx w.worklist w.queued l f q)
]

-- Every index of the list is one of the constraints.
abbrev pub AllBelow : ℕ → List ℕ → Type 0
AllBelow n [] = Unit
AllBelow n (i ∷ is) = (i < n) × AllBelow n is

enqueue_all-QueueOf :
    (n : ℕ) (is : List ℕ) (w : Work) → AllBelow n is → QueueOf n w → QueueOf n (enqueue_all is w)
unfolding enqueue_all
enqueue_all-QueueOf n [] w l q = q
enqueue_all-QueueOf n (i ∷ is) w (l, ls) q =
    enqueue_all-QueueOf n is (enqueue i w) ls (enqueue-QueueOf n i w l q)

pub enqueue_if-QueueOf :
    (n : ℕ) (b : Bool) (is : List ℕ) (w : Work)
    → AllBelow n is
    → QueueOf n w
    → QueueOf n (enqueue_if b is w)
unfolding enqueue_if
enqueue_if-QueueOf n true is w l q = enqueue_all-QueueOf n is w l q
enqueue_if-QueueOf n false is w l q = q

requeue_loads-QueueOf :
    (n k : ℕ) (place : AbstractLoc) (cs : List Constraint) (w : Work)
    → k + length cs ≤ n
    → QueueOf n w
    → QueueOf n (requeue_loads place k cs w)
unfolding requeue_loads
requeue_loads-QueueOf n k place [] w l q = q
requeue_loads-QueueOf n k place (load_ptr t s ∷ cs) w l q =
    requeue_loads-QueueOf n (suc k) place cs
      (enqueue_if (has_loc place (points_to s w.result)) (k ∷ []) w) (omega (arith, l))
      (enqueue_if-QueueOf n (has_loc place (points_to s w.result)) (k ∷ []) w (omega (arith, l), tt)
        q)
requeue_loads-QueueOf n k place (_ ∷ cs) w l q =
    requeue_loads-QueueOf n (suc k) place cs w (omega (arith, l)) q

requeue_if-QueueOf :
    (n : ℕ) (b : Bool) (place : AbstractLoc) (cs : List Constraint) (w : Work)
    → length cs ≤ n
    → QueueOf n w
    → QueueOf n (requeue_if b place cs w)
unfolding requeue_if
requeue_if-QueueOf n true place cs w l q = requeue_loads-QueueOf n 0 place cs w (omega (arith, l)) q
requeue_if-QueueOf n false place cs w l q = q

module _ (cs : List Constraint) (index : TextMap (List ℕ))
    (below : (p : String) → AllBelow (length cs) (entries p index)) where
  pub grow_pts-QueueOf :
      (t : String) (x : AbstractLoc) (w : Work)
      → QueueOf (length cs) w
      → QueueOf (length cs) (grow_pts index t x w)
  unfolding grow_pts
  grow_pts-QueueOf t x w q =
      enqueue_if-QueueOf (length cs) (insert_pts t x w.result).0 (entries t index)
        (record w { result = (insert_pts t x w.result).1 }) (below t) q

  pub grow_mem-QueueOf :
      (slot x : AbstractLoc) (w : Work)
      → QueueOf (length cs) w
      → QueueOf (length cs) (grow_mem cs slot x w)
  unfolding grow_mem
  grow_mem-QueueOf slot x w q =
      requeue_if-QueueOf (length cs) (insert_pts_mem slot x w.result).0 slot cs
        (record w { result = (insert_pts_mem slot x w.result).1 }) (omega arith) q

  pub Evolves-QueueOf :
      (w v : Work) → Evolves cs index w v → QueueOf (length cs) w → QueueOf (length cs) v
  Evolves-QueueOf w v (unchanged _) q = q
  Evolves-QueueOf w v (more_pts t x _ _ d e) q =
      Evolves-QueueOf (grow_pts index t x w) v e (grow_pts-QueueOf t x w q)
  Evolves-QueueOf w v (more_mem s x _ _ d e) q =
      Evolves-QueueOf (grow_mem cs s x w) v e (grow_mem-QueueOf s x w q)

pop-WellQueued :
    (n idx : ℕ) (rest : List ℕ) (flags : ℕ → Bool)
    → WellQueued n (idx ∷ rest) flags
    → WellQueued n rest (set_flag idx false flags)
unfolding set_flag member
pop-WellQueued n idx rest flags q = record {
  listed = λ i h. ground (arith, q.listed i);
  flagged = λ i h. still i h (Bool-cases (i == idx));
  distinct = q.distinct.1;
  within = λ i h. q.within i (ground arith);
}
  where
    still :
        (i : ℕ)
        → member i rest ≡ true
        → ((i == idx) ≡ true) ⊎ ((i == idx) ≡ false)
        → set_flag idx false flags i ≡ true
    still i h (inl y) =
        absurd
          (true_ne (sym (subst (λ k. member k rest ≡ true) ((==_iff i idx).0 y) h) ∙ q.distinct.0))
      where
        true_ne : true ≡ false → ⊥
        true_ne z = cc
    still i h (inr f) = rw f (q.flagged i (ground arith))

-- The index that is taken off the worklist.
pub pop-QueueOf :
    (n idx : ℕ) (rest : List ℕ) (w : Work)
    → w.worklist ≡ idx ∷ rest
    → QueueOf n w
    → QueueOf n (pop idx rest w)
unfolding pop
pop-QueueOf n idx rest w e q = pop-WellQueued n idx rest w.queued (rw e at q)
