-- ===== src/Cfg/Order.antt =====
-- src/cfg/abstract_cfg.rs: Kahn's algorithm, over the edges that are not excluded.
-- `topological_order` is the case with no excluded edge.
use may_must_rs.Base.{
  List, Option, [], bool_not, if◌then◌else◌, length, none, reverse, some, suc, zero, ℕ, ◌&&◌, ◌+◌,
  ◌==◌, ◌∷◌,
}
use may_must_rs.Base.Map.{Map, get, insert, keys, member}
use may_must_rs.Cfg.Graph.{AbstractCfg, AbstractEdge, edge_values, node}

-- A missing key is the source's `expect`, a panic.
pub data Sorting {ℓ} (A : Type ℓ) : Type ℓ where
  ordered : A → Sorting A
  cyclic panics : Sorting A

-- The in-degree map before the edges are counted.
unfoldable pub zero_degrees : List ℕ → Map ℕ
zero_degrees [] = []
zero_degrees (id ∷ ids) = insert id 0 (zero_degrees ids)

unfoldable pub count_edges : List ℕ → List AbstractEdge → Map ℕ → Option (Map ℕ)
count_edges excluded [] indegree = some indegree
count_edges excluded (e ∷ es) indegree =
    if member e.id excluded
    then count_edges excluded es indegree
    else elim (get e.target indegree) [
      | none ↦ none
      | some d ↦ count_edges excluded es (insert e.target (d + 1) indegree)
    ]

-- `filter_map(|(id, degree)| (*degree == 0).then_some(*id))`, collected with the last id on top.
unfoldable pub ready : Map ℕ → List ℕ → List ℕ
ready [] stack = stack
ready ((id, d) ∷ m) stack = ready m (if d == 0 then id ∷ stack else stack)

-- The loop over the edges that leave the popped node; the queue is a stack, its top first.
unfoldable pub release : ℕ → List ℕ → List AbstractEdge → Map ℕ → List ℕ → Option (Map ℕ × List ℕ)
release node excluded [] indegree stack = some (indegree, stack)
release node excluded (e ∷ es) indegree stack =
    if e.source == node && bool_not (member e.id excluded)
    then elim (get e.target indegree) [
      | none ↦ none
      | some zero ↦ none
      | some (suc d) ↦
          release node excluded es (insert e.target d indegree)
            (if d == 0 then e.target ∷ stack else stack)
    ]
    else release node excluded es indegree stack

-- The `while` loop; `order` is kept reversed, its last node first.
unfoldable pub drain : ℕ → List ℕ → List AbstractEdge → Map ℕ → List ℕ → List ℕ → Sorting (List ℕ)
drain fuel excluded es indegree [] order = ordered order
drain zero excluded es indegree (node ∷ stack) order = panics
drain (suc fuel) excluded es indegree (node ∷ stack) order =
    elim (release node excluded es indegree stack) [
      | none ↦ panics
      | some (indegree', stack') ↦ drain fuel excluded es indegree' stack' (node ∷ order)
    ]

unfoldable pub topological_order_excluding : List ℕ → AbstractCfg → Sorting (List ℕ)
unfolding zero_degrees count_edges ready drain
topological_order_excluding excluded c =
    let es = edge_values c.edges in
    elim (count_edges excluded es (zero_degrees (keys c.nodes))) [
      | none ↦ panics
      | some indegree ↦
          elim (drain (length (ready indegree []) + length es) excluded es indegree
            (ready indegree []) []) [
              | panics ↦ panics
              | cyclic ↦ cyclic
              | ordered order ↦
                  if length order == length c.nodes then ordered (reverse order) else cyclic
            ]
    ]

unfoldable pub topological_order : AbstractCfg → Sorting (List ℕ)
unfolding topological_order_excluding
topological_order c = topological_order_excluding [] c
