-- ===== src/Cfg/WellFormed.antt =====
-- src/cfg/abstract_cfg.rs: the invariant of the graph, and its node operations.
use may_must_rs.Base.{
  Bool-cases, Option-cases, String, arith, if◌then◌else◌, inl, inr, none, refl, some, true, ℕ, ◌<◌,
  ◌==◌, ◌≡◌, ◌⊎◌,
}
use may_must_rs.Base.Map.{
  IsAscending, get, get-insert, insert, insert_key, member, member-insert_key,
}
use may_must_rs.Cfg.Effect.{TransferFn}
use may_must_rs.Cfg.Graph.{
  AbstractCfg, AbstractEdge, AbstractNode, NodeKind, Result, SourceLocation, add_node, err,
  exit_kind, known, mark_exit, new_cfg, ok, set_entry_transfer, set_kind, set_source_location,
}

pub record IsWellFormed (c : AbstractCfg) : Type 0 where
  -- the entry is a node
  pub rooted : known c.entry c ≡ true
  -- the next ids are new
  pub new_node : (k : ℕ) → known k c ≡ true → k < c.next_node
  pub new_edge : (k : ℕ) (e : AbstractEdge) → get k c.edges ≡ some e → k < c.next_edge
  -- an edge is stored under its id, and both its ends are nodes
  pub own_id : (k : ℕ) (e : AbstractEdge) → get k c.edges ≡ some e → e.id ≡ k
  pub source_known : (k : ℕ) (e : AbstractEdge) → get k c.edges ≡ some e → known e.source c ≡ true
  pub target_known : (k : ℕ) (e : AbstractEdge) → get k c.edges ≡ some e → known e.target c ≡ true
  -- the edges are listed by ascending id
  pub listed : IsAscending c.edges
  -- an exit is a node
  pub exits_known : (k : ℕ) → member k c.concrete_exits ≡ true → known k c ≡ true
  pub exit_known : (k : ℕ) → c.exit ≡ some k → known k c ≡ true

-- What `known` says of a graph whose nodes are those of another with one node written.
pub known-insert :
    (c d : AbstractCfg) (k j : ℕ) (n : AbstractNode)
    → d.nodes ≡ insert k n c.nodes
    → known j d ≡ (if k == j then true else known j c)
unfolding known
known-insert c d k j n e = rw e (ground (arith, get-insert k j n c.nodes))

pub new_cfg-IsWellFormed : (label : String) → IsWellFormed (new_cfg label)
unfolding new_cfg known insert get member
new_cfg-IsWellFormed label = record {
  rooted = refl;
  new_node = λ k h. ground arith;
  new_edge = λ k e h. cc;
  own_id = λ k e h. cc;
  source_known = λ k e h. cc;
  target_known = λ k e h. cc;
  listed = tt;
  exits_known = λ k h. cc;
  exit_known = λ k h. cc;
}

-- A graph that has the edges of `c`, knows at least the nodes that `c` knows, and only ids below
-- its counter.
record Extends (c d : AbstractCfg) : Type 0 where
  same_entry : d.entry ≡ c.entry
  same_edges : d.edges ≡ c.edges
  same_next : d.next_edge ≡ c.next_edge
  keeps : (k : ℕ) → known k c ≡ true → known k d ≡ true
  fresh : (k : ℕ) → known k d ≡ true → k < d.next_node
  exits : (k : ℕ) → member k d.concrete_exits ≡ true → known k d ≡ true
  exit : (k : ℕ) → d.exit ≡ some k → known k d ≡ true

Extends-IsWellFormed : {c d : AbstractCfg} → Extends c d → IsWellFormed c → IsWellFormed d
unfolding known
Extends-IsWellFormed {c} {d} x w = record {
  rooted = rw x.same_entry (x.keeps c.entry w.rooted);
  new_node = x.fresh;
  new_edge = λ k e h. rw x.same_next (w.new_edge k e (rw x.same_edges at h));
  own_id = λ k e h. w.own_id k e (rw x.same_edges at h);
  source_known = λ k e h. x.keeps e.source (w.source_known k e (rw x.same_edges at h));
  target_known = λ k e h. x.keeps e.target (w.target_known k e (rw x.same_edges at h));
  listed = rw x.same_edges w.listed;
  exits_known = x.exits;
  exit_known = x.exit;
}

pub add_node-IsWellFormed :
    (label : String) (t : TransferFn) (c : AbstractCfg)
    → IsWellFormed c
    → IsWellFormed (add_node label t c).0
unfolding add_node
add_node-IsWellFormed label t c w =
    let d = (add_node label t c).0 in
    let fact = λ (k : ℕ). known-insert c d c.next_node k _ refl in
    Extends-IsWellFormed
      (record {
        same_entry = refl;
        same_edges = refl;
        same_next = refl;
        keeps = λ k h. ground (arith, fact k);
        fresh = λ k h. ground (arith, fact k, w.new_node k);
        exits = λ k h. ground (arith, fact k, w.exits_known k);
        exit = λ k h. ground (arith, fact k, w.exit_known k);
      })
      w

-- Writing a node that the graph has changes nothing that the invariant reads.
write_node-IsWellFormed :
    (k : ℕ) (n : AbstractNode) (c : AbstractCfg)
    → known k c ≡ true
    → IsWellFormed c
    → IsWellFormed (record c { nodes = insert k n c.nodes })
write_node-IsWellFormed k n c h w =
    let d = record c { nodes = insert k n c.nodes } in
    let fact = λ (j : ℕ). known-insert c d k j n refl in
    Extends-IsWellFormed
      (record {
        same_entry = refl;
        same_edges = refl;
        same_next = refl;
        keeps = λ j g. ground (arith, fact j);
        fresh = λ j g. ground (arith, fact j, w.new_node j);
        exits = λ j g. ground (arith, fact j, w.exits_known j);
        exit = λ j g. ground (arith, fact j, w.exit_known j);
      })
      w

abbrev pub StaysWellFormed : Result AbstractCfg → Type 0
StaysWellFormed (ok c) = IsWellFormed c
StaysWellFormed (err _) = Unit

pub node-cases :
    (k : ℕ) (c : AbstractCfg)
    → (get k c.nodes ≡ none) ⊎ ((n : AbstractNode) × (get k c.nodes ≡ some n) × (known k c ≡ true))
unfolding known
node-cases k c = elim (Option-cases (get k c.nodes)) [
  | inl e ↦ inl e
  | inr (n, e) ↦ inr (n, e, rw (e, known))
]

pub set_entry_transfer-IsWellFormed :
    (t : TransferFn) (c : AbstractCfg) → IsWellFormed c → IsWellFormed (set_entry_transfer t c)
unfolding set_entry_transfer
set_entry_transfer-IsWellFormed t c w = elim (node-cases c.entry c) [
  | inl e ↦ rw (e, set_entry_transfer) w
  | inr (n, e, h) ↦ rw (e, set_entry_transfer) (write_node-IsWellFormed c.entry _ c h w)
]

pub set_source_location-IsWellFormed :
    (k : ℕ) (l : SourceLocation) (c : AbstractCfg)
    → IsWellFormed c
    → StaysWellFormed (set_source_location k l c)
unfolding set_source_location
set_source_location-IsWellFormed k l c w = elim (node-cases k c) [
  | inl e ↦ rw (e, set_source_location) tt
  | inr (n, e, h) ↦ rw (e, set_source_location) (write_node-IsWellFormed k _ c h w)
]

pub set_kind-IsWellFormed :
    (k : ℕ) (kind : NodeKind) (c : AbstractCfg)
    → IsWellFormed c
    → StaysWellFormed (set_kind k kind c)
unfolding set_kind
set_kind-IsWellFormed k kind c w = elim (node-cases k c) [
  | inl e ↦ rw (e, set_kind) tt
  | inr (n, e, h) ↦ rw (e, set_kind) (write_node-IsWellFormed k _ c h w)
]

-- A node of the graph becomes one more exit.
add_exit-IsWellFormed :
    (k : ℕ) (c : AbstractCfg)
    → known k c ≡ true
    → IsWellFormed c
    → IsWellFormed (record c { concrete_exits = insert_key k c.concrete_exits; exit = none })
unfolding known
add_exit-IsWellFormed k c h w = record {
  rooted = w.rooted;
  new_node = w.new_node;
  new_edge = w.new_edge;
  own_id = w.own_id;
  source_known = w.source_known;
  target_known = w.target_known;
  listed = w.listed;
  exits_known = λ j g. exit_or j (rw (member-insert_key k j c.concrete_exits) at g);
  exit_known = λ j g. cc;
}
  where
    exit_or :
        (j : ℕ) → (if k == j then true else member j c.concrete_exits) ≡ true → known j c ≡ true
    exit_or j g = ground (arith, w.exits_known j)

pub mark_exit-IsWellFormed :
    (k : ℕ) (c : AbstractCfg) → IsWellFormed c → StaysWellFormed (mark_exit k c)
unfolding mark_exit known
mark_exit-IsWellFormed k c w = elim (Bool-cases (k == c.entry)) [
  | inl t ↦ rw (t, mark_exit) w
  | inr f ↦ elim (node-cases k c) [
    | inl e ↦ rw (f, e, mark_exit) tt
    | inr (n, e, h) ↦
        rw (f, e, mark_exit)
          (add_exit-IsWellFormed k
            (record c { nodes = insert k (record n { kind = exit_kind }) c.nodes })
            (known_again n h) (write_node-IsWellFormed k (record n { kind = exit_kind }) c h w))
  ]
]
  where
    known_again :
        (n : AbstractNode)
        → known k c ≡ true
        → known k (record c { nodes = insert k (record n { kind = exit_kind }) c.nodes }) ≡ true
    known_again n h = ground (
      arith,
      known-insert c (record c { nodes = insert k (record n { kind = exit_kind }) c.nodes }) k k
          (record n { kind = exit_kind }) refl,
    )
