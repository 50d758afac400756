-- ===== src/Pointer/Solver.antt =====
-- src/pointer_analysis/andersen.rs: `solve`. The vector of flags `in_worklist` is a function of the
-- index; the order in which the hash map of sources is walked at the start is an argument.
use may_must_rs.Base.{
  Bool, List, Option, String, [], false, if◌then◌else◌, none, some, suc, true, zero, ℕ, ◌++◌, ◌==◌,
  ◌∷◌,
}
use may_must_rs.Base.Names.{TextMap, entries, set_entries}
use may_must_rs.Pointer.Constraint.{
  AbstractLoc, AliasResult, Constraint, copy, empty_result, field, has_key, has_loc, insert_pts,
  insert_pts_mem, load_ptr, points_to, seed, store_ptr, stored_into, struct_field,
}

pub record Work : Type 0 where
  pub result : AliasResult
  pub worklist : List ℕ
  pub queued : ℕ → Bool

unfoldable pub seed_all : List Constraint → AliasResult → AliasResult
unfolding insert_pts
seed_all [] r = r
seed_all (seed target loc ∷ cs) r = seed_all cs (insert_pts target loc r).1
seed_all (c ∷ cs) r = seed_all cs r

-- `entry(p).or_default().push(idx)`
unfoldable pub push_index : String → ℕ → TextMap (List ℕ) → TextMap (List ℕ)
unfolding entries set_entries
push_index p idx m = set_entries p (entries p m ++ idx ∷ []) m

unfoldable pub index_one : ℕ → Constraint → TextMap (List ℕ) → TextMap (List ℕ)
unfolding push_index
index_one idx (seed target loc) m = m
index_one idx (copy target source) m = push_index source idx m
index_one idx (struct_field target source n) m = push_index source idx m
index_one idx (load_ptr target source_slot) m = push_index source_slot idx m
index_one idx (store_ptr target_slot value_ptr) m =
    push_index value_ptr idx (push_index target_slot idx m)

-- `source_to_constraints`, from the given index on.
unfoldable pub index_from : ℕ → List Constraint → TextMap (List ℕ) → TextMap (List ℕ)
unfolding index_one
index_from idx [] m = m
index_from idx (c ∷ cs) m = index_from (suc idx) cs (index_one idx c m)

unfoldable pub set_flag : ℕ → Bool → (ℕ → Bool) → ℕ → Bool
set_flag idx b flags j = if j == idx then b else flags j

unfoldable pub enqueue : ℕ → Work → Work
unfolding set_flag
enqueue idx w =
    if w.queued idx
    then w
    else record w { worklist = w.worklist ++ idx ∷ []; queued = set_flag idx true w.queued }

unfoldable pub enqueue_all : List ℕ → Work → Work
unfolding enqueue
enqueue_all [] w = w
enqueue_all (idx ∷ rest) w = enqueue_all rest (enqueue idx w)

unfoldable pub enqueue_if : Bool → List ℕ → Work → Work
unfolding enqueue_all
enqueue_if true is w = enqueue_all is w
enqueue_if false is w = w

-- The first round over the sources that point somewhere already.
unfoldable pub enqueue_seeded : List String → TextMap (List ℕ) → Work → Work
unfolding enqueue_if has_key
enqueue_seeded [] index w = w
enqueue_seeded (p ∷ ps) index w =
    enqueue_seeded ps index (enqueue_if (has_key p w.result.pts) (entries p index) w)

-- `if result.insert_pts(target, loc) { ... }`
unfoldable pub grow_pts : TextMap (List ℕ) → String → AbstractLoc → Work → Work
unfolding insert_pts enqueue_if
grow_pts index target loc w =
    let grown = insert_pts target loc w.result in
    enqueue_if grown.0 (entries target index) (record w { result = grown.1 })

unfoldable pub grow_pts_all : TextMap (List ℕ) → String → List AbstractLoc → Work → Work
unfolding grow_pts
grow_pts_all index target [] w = w
grow_pts_all index target (loc ∷ locs) w =
    grow_pts_all index target locs (grow_pts index target loc w)

unfoldable pub fields_of : ℕ → List AbstractLoc → List AbstractLoc
unfolding field
fields_of n [] = []
fields_of n (loc ∷ locs) = field loc n ∷ fields_of n locs

unfoldable pub load_all : TextMap (List ℕ) → String → List AbstractLoc → Work → Work
unfolding grow_pts_all stored_into
load_all index target [] w = w
load_all index target (slot ∷ slots) w =
    load_all index target slots (grow_pts_all index target (stored_into slot w.result) w)

-- The loads that read a slot which points to the region.
unfoldable pub requeue_loads : AbstractLoc → ℕ → List Constraint → Work → Work
unfolding enqueue_if has_loc points_to
requeue_loads place idx [] w = w
requeue_loads place idx (load_ptr target source_slot ∷ cs) w =
    requeue_loads place (suc idx) cs
      (enqueue_if (has_loc place (points_to source_slot w.result)) (idx ∷ []) w)
requeue_loads place idx (c ∷ cs) w = requeue_loads place (suc idx) cs w

unfoldable pub requeue_if : Bool → AbstractLoc → List Constraint → Work → Work
unfolding requeue_loads
requeue_if true place cs w = requeue_loads place 0 cs w
requeue_if false place cs w = w

-- `if result.insert_pts_mem(slot, loc) { ... }`
unfoldable pub grow_mem : List Constraint → AbstractLoc → AbstractLoc → Work → Work
unfolding insert_pts_mem requeue_if
grow_mem cs place loc w =
    let grown = insert_pts_mem place loc w.result in
    requeue_if grown.0 place cs (record w { result = grown.1 })

unfoldable pub grow_mem_all : List Constraint → AbstractLoc → List AbstractLoc → Work → Work
unfolding grow_mem
grow_mem_all cs place [] w = w
grow_mem_all cs place (loc ∷ locs) w = grow_mem_all cs place locs (grow_mem cs place loc w)

unfoldable pub store_all : List Constraint → List AbstractLoc → List AbstractLoc → Work → Work
unfolding grow_mem_all
store_all cs [] locs w = w
store_all cs (slot ∷ slots) locs w = store_all cs slots locs (grow_mem_all cs slot locs w)

-- The body of the loop, for the constraint that was taken off the worklist.
unfoldable pub apply : List Constraint → TextMap (List ℕ) → Constraint → Work → Work
unfolding grow_pts_all fields_of load_all store_all points_to
apply cs index (seed target loc) w = w
apply cs index (copy target source) w = grow_pts_all index target (points_to source w.result) w
apply cs index (struct_field target source n) w =
    grow_pts_all index target (fields_of n (points_to source w.result)) w
apply cs index (load_ptr target source_slot) w =
    load_all index target (points_to source_slot w.result) w
apply cs index (store_ptr target_slot value_ptr) w =
    store_all cs (points_to target_slot w.result) (points_to value_ptr w.result) w

-- `panicked` is an index outside the constraints, `running` a loop that is not at its end.
pub data Solving : Type 0 where
  solved : AliasResult → Solving
  running panicked : Solving

unfoldable pub constraint_at : ℕ → List Constraint → Option Constraint
constraint_at idx [] = none
constraint_at zero (c ∷ cs) = some c
constraint_at (suc idx) (c ∷ cs) = constraint_at idx cs

unfoldable pub pop : ℕ → List ℕ → Work → Work
unfolding set_flag
pop idx rest w = record w { worklist = rest; queued = set_flag idx false w.queued }

-- One round of the loop, from what the vector has at the index.
unfoldable pub visit :
    List Constraint → TextMap (List ℕ) → Option Constraint → Work → (Work → Solving) → Solving
unfolding apply
visit cs index none w further = panicked
visit cs index (some c) w further = further (apply cs index c w)

-- The loop, for so many rounds.
unfoldable pub round : ℕ → List Constraint → TextMap (List ℕ) → Work → List ℕ → Solving
unfolding visit constraint_at pop
round fuel cs index w [] = solved w.result
round zero cs index w (idx ∷ rest) = running
round (suc fuel) cs index w (idx ∷ rest) =
    visit cs index (constraint_at idx cs) (pop idx rest w)
      (λ w1. round fuel cs index w1 w1.worklist)

unfoldable pub run_rounds : ℕ → List Constraint → TextMap (List ℕ) → Work → Solving
unfolding round
run_rounds fuel cs index w = round fuel cs index w w.worklist

unfoldable pub start : List String → List Constraint → Work
unfolding enqueue_seeded index_from seed_all empty_result
start order cs =
    enqueue_seeded order (index_from 0 cs [])
      (record { result = seed_all cs empty_result; worklist = []; queued = λ idx. false })

unfoldable pub solve : ℕ → List String → List Constraint → Solving
unfolding run_rounds start
solve fuel order cs = run_rounds fuel cs (index_from 0 cs []) (start order cs)
