-- ===== src/Cfg/Graph.antt =====
-- src/cfg/abstract_cfg.rs: the control-flow graph and what builds it.
use may_must_rs.Base.{
  Bool, List, Option, String, [], false, if◌then◌else◌, map, none, some, true, ℕ, ◌++◌, ◌+◌, ◌==◌,
  ◌∷◌,
}
use may_must_rs.Base.Map.{Map, get, insert, insert_key, remove}
use may_must_rs.Cfg.Effect.{TransferFn}
use may_must_rs.Formula.Data.{Formula, verum}

pub data CfgError : Type 0 where
  unknown_node unknown_edge : ℕ → CfgError
  missing_exit : CfgError

pub data Result {ℓ} (A : Type ℓ) : Type ℓ where
  ok : A → Result A
  err : CfgError → Result A

pub data NodeKind : Type 0 where
  entry_kind normal exit_kind synthetic_exit : NodeKind

pub record SourceLocation : Type 0 where
  pub file : String
  pub line : ℕ
  pub column : ℕ

pub record AbstractNode : Type 0 where
  pub id : ℕ
  pub label : String
  pub kind : NodeKind
  pub source_location : Option SourceLocation
  pub transfer : TransferFn
  pub pre : Formula
  pub post : Formula

pub record AbstractEdge : Type 0 where
  pub id : ℕ
  pub source : ℕ
  pub target : ℕ
  pub guard : Formula
  pub effects : TransferFn

pub record AbstractCfg : Type 0 where
  pub nodes : Map AbstractNode
  pub edges : Map AbstractEdge
  pub entry : ℕ
  pub concrete_exits : List ℕ
  pub exit : Option ℕ
  pub next_node : ℕ
  pub next_edge : ℕ

-- AbstractCfg::new.
unfoldable pub new_cfg : String → AbstractCfg
new_cfg entry_label = record {
  nodes =
      insert 0
        (record {
          id = 0;
          label = entry_label;
          kind = entry_kind;
          source_location = none;
          transfer = [];
          pre = verum;
          post = verum;
        })
        [];
  edges = [];
  entry = 0;
  concrete_exits = [];
  exit = none;
  next_node = 1;
  next_edge = 0;
}

unfoldable pub node : AbstractCfg → ℕ → Result AbstractNode
node c id = elim (get id c.nodes) [ none ↦ err (unknown_node id) | some n ↦ ok n ]

unfoldable pub edge : AbstractCfg → ℕ → Result AbstractEdge
edge c id = elim (get id c.edges) [ none ↦ err (unknown_edge id) | some e ↦ ok e ]

unfoldable pub add_node : String → TransferFn → AbstractCfg → AbstractCfg × ℕ
add_node label transfer c = (
  record c {
    nodes =
        insert c.next_node
          (record {
            id = c.next_node;
            label = label;
            kind = normal;
            source_location = none;
            transfer = transfer;
            pre = verum;
            post = verum;
          })
          c.nodes;
    next_node = c.next_node + 1;
  },
  c.next_node,
)

unfoldable pub set_entry_transfer : TransferFn → AbstractCfg → AbstractCfg
set_entry_transfer transfer c = elim (get c.entry c.nodes) [
  | none ↦ c
  | some n ↦ record c { nodes = insert c.entry (record n { transfer = transfer }) c.nodes }
]

unfoldable pub set_source_location : ℕ → SourceLocation → AbstractCfg → Result AbstractCfg
set_source_location id location c = elim (get id c.nodes) [
  | none ↦ err (unknown_node id)
  | some n ↦
      ok (record c { nodes = insert id (record n { source_location = some location }) c.nodes })
]

-- An exit at the entry is ignored.
unfoldable pub mark_exit : ℕ → AbstractCfg → Result AbstractCfg
mark_exit id c = if id == c.entry then ok c else elim (get id c.nodes) [
  | none ↦ err (unknown_node id)
  | some n ↦ ok (record c {
    nodes = insert id (record n { kind = exit_kind }) c.nodes;
    concrete_exits = insert_key id c.concrete_exits;
    exit = none;
  })
]

unfoldable pub known : ℕ → AbstractCfg → Bool
known id c = elim (get id c.nodes) [ none ↦ false | some _ ↦ true ]

unfoldable pub add_edge : ℕ → ℕ → Formula → TransferFn → AbstractCfg → Result (AbstractCfg × ℕ)
unfolding known
add_edge source target guard effects c =
    if known source c
    then if known target c
      then ok (
        record c {
          edges =
              insert c.next_edge
                (record {
                  id = c.next_edge;
                  source = source;
                  target = target;
                  guard = guard;
                  effects = effects;
                })
                c.edges;
          next_edge = c.next_edge + 1;
        },
        c.next_edge,
      )
      else err (unknown_node target)
    else err (unknown_node source)

unfoldable pub append_edge_effects : ℕ → TransferFn → AbstractCfg → Result AbstractCfg
append_edge_effects id effects c = elim (get id c.edges) [
  | none ↦ err (unknown_edge id)
  | some e ↦
      ok (record c { edges = insert id (record e { effects = e.effects ++ effects }) c.edges })
]

unfoldable pub remove_edge : ℕ → AbstractCfg → AbstractCfg
remove_edge id c = record c { edges = remove id c.edges }

-- The edges in ascending order of their ids.
unfoldable pub edge_values : Map AbstractEdge → List AbstractEdge
edge_values [] = []
edge_values ((k, e) ∷ m) = e ∷ edge_values m

-- `filter(|edge| edge.source == id)`, and the same for the target.
unfoldable pub from : ℕ → List AbstractEdge → List AbstractEdge
from id [] = []
from id (e ∷ es) = if e.source == id then e ∷ from id es else from id es

unfoldable pub into : ℕ → List AbstractEdge → List AbstractEdge
into id [] = []
into id (e ∷ es) = if e.target == id then e ∷ into id es else into id es

unfoldable pub successors : ℕ → AbstractCfg → List ℕ
unfolding edge_values from
successors id c = map (λ e. e.target) (from id (edge_values c.edges))

unfoldable pub predecessors : ℕ → AbstractCfg → List ℕ
unfolding edge_values into
predecessors id c = map (λ e. e.source) (into id (edge_values c.edges))

unfoldable pub outgoing_edges : ℕ → AbstractCfg → List ℕ
unfolding edge_values from
outgoing_edges id c = map (λ e. e.id) (from id (edge_values c.edges))

unfoldable pub incoming_edges : ℕ → AbstractCfg → List ℕ
unfolding edge_values into
incoming_edges id c = map (λ e. e.id) (into id (edge_values c.edges))

-- The loop of the last arm of `ensure_single_exit`: an edge from each concrete exit.
unfoldable pub join_exits : List ℕ → ℕ → AbstractCfg → Result AbstractCfg
join_exits [] synthetic c = ok c
join_exits (x ∷ xs) synthetic c = elim (add_edge x synthetic verum [] c) [
  | ok (c', _) ↦ join_exits xs synthetic c'
  | err e ↦ err e
]

unfoldable pub set_kind : ℕ → NodeKind → AbstractCfg → Result AbstractCfg
set_kind id kind c = elim (get id c.nodes) [
  | none ↦ err (unknown_node id)
  | some n ↦ ok (record c { nodes = insert id (record n { kind = kind }) c.nodes })
]

-- The arm with several exits.
unfoldable pub merge_exits : AbstractCfg → Result (AbstractCfg × ℕ)
merge_exits c =
    let (c1, synthetic) = add_node "__synthetic_exit" [] c in
    elim (set_kind synthetic synthetic_exit c1) [
      | err e ↦ err e
      | ok c2 ↦ elim (join_exits c2.concrete_exits synthetic c2) [
        | err e ↦ err e
        | ok c3 ↦ ok (record c3 { exit = some synthetic }, synthetic)
      ]
    ]

unfoldable pub choose_exit : List ℕ → AbstractCfg → Result (AbstractCfg × ℕ)
choose_exit [] c = err missing_exit
choose_exit (x ∷ []) c = ok (record c { exit = some x }, x)
choose_exit (x ∷ y ∷ xs) c = merge_exits c

unfoldable pub ensure_single_exit : AbstractCfg → Result (AbstractCfg × ℕ)
ensure_single_exit c = elim c.exit [ some x ↦ ok (c, x) | none ↦ choose_exit c.concrete_exits c ]
