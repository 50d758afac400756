-- ===== src/Tests/Graphs.antt =====
-- A graph at a concrete input: the entry branches to two exits.
use may_must_rs.Base.{List, String, [], none, refl, ℕ, ◌∷◌, ◌≡◌, ◌⊎◌}
use may_must_rs.Base.Map.{get, insert, insert_key, keys, member}
use may_must_rs.Cfg.Built.{
  Built, Built-IsWellFormed, IsWellFormed-EdgesEndAtNodes, created, edge_added, marked, node_added,
}
use may_must_rs.Cfg.ExitLaws.{HasExit, ensure_single_exit_total}
use may_must_rs.Cfg.Graph.{
  AbstractCfg, AbstractEdge, AbstractNode, NodeKind, Result, add_edge, add_node, edge_values,
  ensure_single_exit, entry_kind, err, exit_kind, known, mark_exit, new_cfg, ok,
}
use may_must_rs.Cfg.KahnStart.{IsTopological, topological_order_excluding_sound}
use may_must_rs.Cfg.Order.{cyclic, ordered, release, topological_order, topological_order_excluding}
use may_must_rs.Cfg.WellFormed.{IsWellFormed}
use may_must_rs.Formula.Data.{verum}

abbrev taken : AbstractCfg → Result AbstractCfg → AbstractCfg
taken c (ok d) = d
taken c (err _) = c

abbrev joined : AbstractCfg → Result (AbstractCfg × ℕ) → AbstractCfg
joined c (ok (d, _)) = d
joined c (err _) = c

abbrev two_nodes : AbstractCfg
two_nodes = (add_node "right" [] (add_node "left" [] (new_cfg "entry")).0).0

abbrev one_edge : AbstractCfg
one_edge = joined two_nodes (add_edge 0 1 verum [] two_nodes)

abbrev two_edges : AbstractCfg
two_edges = joined one_edge (add_edge 0 2 verum [] one_edge)

abbrev one_exit : AbstractCfg
one_exit = taken two_edges (mark_exit 1 two_edges)

abbrev pub bare_node : ℕ → String → NodeKind → AbstractNode
bare_node id label kind = record {
  id = id;
  label = label;
  kind = kind;
  source_location = none;
  transfer = [];
  pre = verum;
  post = verum;
}

abbrev pub bare_edge : ℕ → ℕ → ℕ → AbstractEdge
bare_edge id source target = record {
  id = id;
  source = source;
  target = target;
  guard = verum;
  effects = [];
}

abbrev pub branch : AbstractCfg
branch = record {
  nodes =
      (0, bare_node 0 "entry" entry_kind)
      ∷ (1, bare_node 1 "left" exit_kind)
      ∷ (2, bare_node 2 "right" exit_kind)
      ∷ [];
  edges = (0, bare_edge 0 0 1) ∷ (1, bare_edge 1 0 2) ∷ [];
  entry = 0;
  concrete_exits = 1 ∷ 2 ∷ [];
  exit = none;
  next_node = 3;
  next_edge = 2;
}

pub branch-Built : Built branch
unfolding new_cfg add_node add_edge mark_exit get insert known insert_key
branch-Built =
    marked 2 one_exit branch
      (marked 1 two_edges one_exit
        (edge_added 0 2 verum [] one_edge two_edges 1
          (edge_added 0 1 verum [] two_nodes one_edge 0
            (node_added "right" [] _ (node_added "left" [] _ (created "entry"))) refl)
          refl)
        refl)
      refl

Built-IsWellFormed_example : IsWellFormed branch
Built-IsWellFormed_example = Built-IsWellFormed branch branch-Built

topological_branch : topological_order branch ≡ ordered (0 ∷ 2 ∷ 1 ∷ [])
unfolding topological_order edge_values get insert member keys release
topological_branch = refl

topological_order_excluding_sound_example :
    ((order : List ℕ) × (topological_order_excluding [] branch ≡ ordered order)
      × IsTopological [] branch order)
    ⊎ (topological_order_excluding [] branch ≡ cyclic)
topological_order_excluding_sound_example =
    topological_order_excluding_sound [] branch
      (IsWellFormed-EdgesEndAtNodes branch (Built-IsWellFormed branch branch-Built))

ensure_single_exit_total_example :
    (d : AbstractCfg) × (x : ℕ) × (ensure_single_exit branch ≡ ok (d, x)) × HasExit branch d x
ensure_single_exit_total_example =
    ensure_single_exit_total branch (Built-IsWellFormed branch branch-Built) refl (λ h. cc)
