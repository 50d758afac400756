-- ===== src/Cfg/KahnStart.antt =====
-- The in-degrees are counted right, and so the whole algorithm is.
use may_must_rs.Base.{
  ==_iff, Bool-cases, List, [], arith, false, if◌then◌else◌, inl, inr, length, none, refl, reverse,
  some, true, ℕ, ◌+◌, ◌==◌, ◌∙◌, ◌∷◌, ◌≡◌, ◌⊎◌,
}
use may_must_rs.Base.Distinct.{AreIn, Distinct, Distinct-all}
use may_must_rs.Base.Map.{
  IsAscending, IsAscending-insert, Map, get, get-AllAbove, get-insert, insert, keys, member,
}
use may_must_rs.Cfg.Graph.{AbstractCfg, AbstractEdge, AbstractNode, edge_values}
use may_must_rs.Cfg.Kahn.{
  IsLayered, Ready, TargetsAreKeys, TargetsAreKeys-insert, drain-IsLayered, open_edges-le,
  uncounted,
}
use may_must_rs.Cfg.KahnFull.{IsLayered-Distinct, TargetsIn, drain-AreIn}
use may_must_rs.Cfg.Order.{
  count_edges, cyclic, ordered, ready, topological_order_excluding, zero_degrees,
}

get-zero_degrees :
    (v : ℕ) (ids : List ℕ) → get v (zero_degrees ids) ≡ (if member v ids then some 0 else none)
unfolding zero_degrees get member
get-zero_degrees v [] = refl
get-zero_degrees v (i ∷ ids) =
    ground (arith, get-insert i v 0 (zero_degrees ids), get-zero_degrees v ids)

zero_degrees-IsAscending : (ids : List ℕ) → IsAscending (zero_degrees ids)
unfolding zero_degrees
zero_degrees-IsAscending [] = tt
zero_degrees-IsAscending (i ∷ ids) =
    IsAscending-insert i 0 (zero_degrees ids) (zero_degrees-IsAscending ids)

zero_degrees-TargetsAreKeys :
    (es : List AbstractEdge) (ids : List ℕ)
    → TargetsIn es ids
    → TargetsAreKeys es (zero_degrees ids)
zero_degrees-TargetsAreKeys [] ids t = tt
zero_degrees-TargetsAreKeys (e ∷ es) ids t =
    ((0, get-zero_degrees e.target ids ∙ rw t.0), zero_degrees-TargetsAreKeys es ids t.1)

-- What the counting of `es` adds to a map.
record Counted (ex : List ℕ) (all es : List AbstractEdge) (m m' : Map ℕ) : Type 0 where
  ascending : IsAscending m'
  targets : TargetsAreKeys all m'
  added : (v c : ℕ) → get v m ≡ some c → get v m' ≡ some (c + uncounted ex [] es v)
  absent : (v : ℕ) → get v m ≡ none → get v m' ≡ none

Counted-edge :
    (ex : List ℕ) (all : List AbstractEdge) (e : AbstractEdge) (es : List AbstractEdge)
    (m m' : Map ℕ) (d : ℕ)
    → member e.id ex ≡ false
    → get e.target m ≡ some d
    → Counted ex all es (insert e.target (d + 1) m) m'
    → Counted ex all (e ∷ es) m m'
unfolding uncounted member
Counted-edge ex all e es m m' d x g c = record {
  ascending = c.ascending;
  targets = c.targets;
  added = λ v n h. ground (arith, get-insert e.target v (d + 1) m, c.added v n, c.added v (d + 1));
  absent = λ v h. ground (arith, get-insert e.target v (d + 1) m, c.absent v);
}

count_edges-Counted :
    (ex : List ℕ) (all es : List AbstractEdge) (m : Map ℕ)
    → IsAscending m
    → TargetsAreKeys es m
    → TargetsAreKeys all m
    → (m' : Map ℕ) × (count_edges ex es m ≡ some m') × Counted ex all es m m'
unfolding count_edges uncounted member
count_edges-Counted ex all [] m a t ta = (
  m,
  refl,
  record { ascending = a; targets = ta; added = λ v c h. h ∙ ground arith; absent = λ v h. h },
)
count_edges-Counted ex all (e ∷ es) m a t ta = elim (Bool-cases (member e.id ex)) [
  | inl y ↦
      let (m', run, c) = count_edges-Counted ex all es m a t.1 ta in
      (
        m',
        rw (y, count_edges) run,
        record {
          ascending = c.ascending;
          targets = c.targets;
          added = λ v n h. c.added v n h ∙ ground arith;
          absent = c.absent;
        },
      )
  | inr n ↦
      let d = t.0.0 in
      let m1 = insert e.target (d + 1) m in
      let (m', run, c) =
        count_edges-Counted ex all es m1 (IsAscending-insert e.target (d + 1) m a)
          (TargetsAreKeys-insert es e.target (d + 1) m t.1)
          (TargetsAreKeys-insert all e.target (d + 1) m ta) in
      (m', rw (n, t.0.1, count_edges) run, Counted-edge ex all e es m m' d n t.0.1 c)
]

ready-zero :
    (m : Map ℕ) (stack : List ℕ) (v : ℕ)
    → IsAscending m
    → member v (ready m stack) ≡ true
    → (member v stack ≡ true) ⊎ (get v m ≡ some 0)
unfolding ready member get
ready-zero [] stack v a h = inl h
ready-zero ((i, d) ∷ m) stack v a h =
    elim (ready-zero m (if d == 0 then i ∷ stack else stack) v a.1 h) [
      | inl y ↦ ground arith
      | inr y ↦ inr (ground (arith, get-AllAbove i v m a.0))
    ]

ready-Distinct :
    (m : Map ℕ) (stack : List ℕ)
    → IsAscending m
    → ((v : ℕ) → member v stack ≡ true → get v m ≡ none)
    → Distinct stack
    → Distinct (ready m stack)
unfolding ready member get
ready-Distinct [] stack a n x = x
ready-Distinct ((i, d) ∷ m) stack a n x =
    ready-Distinct m (if d == 0 then i ∷ stack else stack) a.1 (λ v h. none_after v h)
      (distinct_or (Bool-cases (d == 0)))
  where
    none_after : (v : ℕ) → member v (if d == 0 then i ∷ stack else stack) ≡ true → get v m ≡ none
    none_after v h = ground (arith, n v, get-AllAbove i v m a.0)

    distinct_or :
        ((d == 0) ≡ true) ⊎ ((d == 0) ≡ false) → Distinct (if d == 0 then i ∷ stack else stack)
    distinct_or (inr f) = rw f x
    distinct_or (inl y) = rw y (new_head (Bool-cases (member i stack)), x)
      where
        new_head : (member i stack ≡ true) ⊎ (member i stack ≡ false) → member i stack ≡ false
        new_head (inr f) = f
        new_head (inl y) = ground (arith, n i y)

-- The loop starts in a good state.
Ready-start :
    (ex ids : List ℕ) (es : List AbstractEdge) (m : Map ℕ)
    → Counted ex es es (zero_degrees ids) m
    → Ready ex [] es m (ready m [])
unfolding member IsLayered
Ready-start ex ids es m c = record {
  counts = λ v d h. from_zero v d h (get-zero_degrees v ids);
  in_stack = λ v h. stacked v (ready-zero m [] v c.ascending h);
  in_order = λ v h. cc;
  apart = λ v h. refl;
  distinct = ready-Distinct m [] c.ascending (λ v h. cc) tt;
  layered = tt;
}
  where
    from_zero :
        (v d : ℕ)
        → get v m ≡ some d
        → get v (zero_degrees ids) ≡ (if member v ids then some 0 else none)
        → d ≡ uncounted ex [] es v
    from_zero v d h z = ground (arith, c.added v 0, c.absent v)

    stacked : (v : ℕ) → (false ≡ true) ⊎ (get v m ≡ some 0) → get v m ≡ some 0
    stacked v (inl x) = cc
    stacked v (inr y) = y

-- Every edge of a well-formed graph ends at one of its nodes.
abbrev pub EdgesEndAtNodes : AbstractCfg → Type 0
EdgesEndAtNodes c = TargetsIn (edge_values c.edges) (keys c.nodes)

-- Every node stands in the order, behind the sources of the edges into it, and none twice.
abbrev pub IsFullOrder : AbstractCfg → List ℕ → List ℕ → Type 0
IsFullOrder c ex reversed =
    IsLayered ex (edge_values c.edges) reversed
    × ((v : ℕ) → member v (keys c.nodes) ≡ true → member v reversed ≡ true)

abbrev pub IsTopological : List ℕ → AbstractCfg → List ℕ → Type 0
IsTopological ex c order =
    (reversed : List ℕ) × (order ≡ reverse reversed) × IsFullOrder c ex reversed

length-keys : (m : Map AbstractNode) → length (keys m) ≡ length m
unfolding keys
length-keys [] = refl
length-keys ((k, n) ∷ m) = omega (arith, length-keys m)

ready-AreIn :
    (ex ids : List ℕ) (es : List AbstractEdge) (m : Map ℕ)
    → Counted ex es es (zero_degrees ids) m
    → AreIn (ready m []) ids
unfolding member
ready-AreIn ex ids es m c v h = at_zero (ready-zero m [] v c.ascending h)
  where
    at_zero : (false ≡ true) ⊎ (get v m ≡ some 0) → member v ids ≡ true
    at_zero (inl x) = cc
    at_zero (inr y) = ground (arith, get-zero_degrees v ids, c.absent v)

-- The loop of `topological_order_excluding` does not panic and ends within its fuel, and the order
-- that it gives has every node of the graph, each behind the sources of all edges into it that are
-- not excluded, and none twice; the answer is that order or `cyclic`.
pub topological_order_excluding_sound :
    (ex : List ℕ) (c : AbstractCfg)
    → EdgesEndAtNodes c
    → ((order : List ℕ) × (topological_order_excluding ex c ≡ ordered order)
        × IsTopological ex c order)
      ⊎ (topological_order_excluding ex c ≡ cyclic)
unfolding topological_order_excluding member
topological_order_excluding_sound ex c t =
    let es = edge_values c.edges in
    let ids = keys c.nodes in
    let k = zero_degrees-TargetsAreKeys es ids t in
    let (m, run, counted) =
      count_edges-Counted ex es es (zero_degrees ids) (zero_degrees-IsAscending ids) k k in
    let (r, ends, layers) =
      drain-IsLayered (length (ready m []) + length es) ex es m (ready m []) []
        (omega (arith, open_edges-le ex [] es)) counted.targets (Ready-start ex ids es m counted) in
    let within =
      drain-AreIn (length (ready m []) + length es) ids ex es m (ready m []) [] r t
        (ready-AreIn ex ids es m counted) (λ v h. cc) ends in
    elim (Bool-cases (length r == length c.nodes)) [
      | inl y ↦ inl (
        reverse r,
        rw (run, ends, y, topological_order_excluding) refl,
        (
          r,
          refl,
          (
            layers,
            Distinct-all r ids (IsLayered-Distinct ex es r layers) within
                (omega (arith, length-keys c.nodes, (==_iff (length r) (length c.nodes)).0 y)),
          ),
        ),
      )
      | inr n ↦ inr (rw (run, ends, n, topological_order_excluding) refl)
    ]
