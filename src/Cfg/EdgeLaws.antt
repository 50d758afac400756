-- ===== src/Cfg/EdgeLaws.antt =====
-- src/cfg/abstract_cfg.rs: the edge operations and the invariant of the graph.
use may_must_rs.Base.{
  Bool-cases, Option-cases, arith, if◌then◌else◌, inl, inr, none, refl, some, some-eq, subst, true,
  ℕ, ◌+◌, ◌<◌, ◌==◌, ◌≡◌, ◌≤◌,
}
use may_must_rs.Base.Map.{
  IsAscending-insert, IsAscending-remove, get, get-insert, get-remove, insert,
}
use may_must_rs.Cfg.Effect.{TransferFn}
use may_must_rs.Cfg.Graph.{
  AbstractCfg, AbstractEdge, Result, add_edge, append_edge_effects, err, known, ok, remove_edge,
}
use may_must_rs.Cfg.WellFormed.{IsWellFormed, StaysWellFormed}
use may_must_rs.Formula.Data.{Formula}

-- Writing an edge between nodes, under its own id, below the counter.
write_edge-IsWellFormed :
    (c : AbstractCfg) (k next : ℕ) (e : AbstractEdge)
    → k < next
    → c.next_edge ≤ next
    → e.id ≡ k
    → known e.source c ≡ true
    → known e.target c ≡ true
    → IsWellFormed c
    → IsWellFormed (record c { edges = insert k e c.edges; next_edge = next })
unfolding known
write_edge-IsWellFormed c k next e small bound own s t w = record {
  rooted = w.rooted;
  new_node = w.new_node;
  new_edge = λ j f g. ground (arith, get-insert k j e c.edges, w.new_edge j f);
  own_id = λ j f g. own_or j f (rw (get-insert k j e c.edges) at g);
  source_known = λ j f g. source_or j f (rw (get-insert k j e c.edges) at g);
  target_known = λ j f g. target_or j f (rw (get-insert k j e c.edges) at g);
  listed = IsAscending-insert k e c.edges w.listed;
  exits_known = w.exits_known;
  exit_known = w.exit_known;
}
  where
    own_or :
        (j : ℕ) (f : AbstractEdge) → (if k == j then some e else get j c.edges) ≡ some f → f.id ≡ j
    own_or j f g = ground (arith, w.own_id j f)

    source_or :
        (j : ℕ) (f : AbstractEdge)
        → (if k == j then some e else get j c.edges) ≡ some f
        → known f.source c ≡ true
    source_or j f g = elim (Bool-cases (k == j)) [
      | inl y ↦ subst (λ (z : AbstractEdge). known z.source c ≡ true) (some-eq (rw y at g)) s
      | inr n ↦ w.source_known j f (rw n at g)
    ]

    target_or :
        (j : ℕ) (f : AbstractEdge)
        → (if k == j then some e else get j c.edges) ≡ some f
        → known f.target c ≡ true
    target_or j f g = elim (Bool-cases (k == j)) [
      | inl y ↦ subst (λ (z : AbstractEdge). known z.target c ≡ true) (some-eq (rw y at g)) t
      | inr n ↦ w.target_known j f (rw n at g)
    ]

abbrev pub StaysWellFormedWith {ℓ} : {A : Type ℓ} → Result (AbstractCfg × A) → Type 0
StaysWellFormedWith (ok (c, _)) = IsWellFormed c
StaysWellFormedWith (err _) = Unit

pub add_edge-IsWellFormed :
    (s t : ℕ) (g : Formula) (es : TransferFn) (c : AbstractCfg)
    → IsWellFormed c
    → StaysWellFormedWith (add_edge s t g es c)
unfolding add_edge
add_edge-IsWellFormed s t g es c w = elim (Bool-cases (known s c)) [
  | inr n ↦ rw n tt
  | inl y ↦ elim (Bool-cases (known t c)) [
    | inr n ↦ rw (y, n) tt
    | inl z ↦
        rw (y, z)
          (write_edge-IsWellFormed c c.next_edge (c.next_edge + 1) _ (omega arith) (omega arith)
            refl y z w)
  ]
]

pub remove_edge-IsWellFormed :
    (k : ℕ) (c : AbstractCfg) → IsWellFormed c → IsWellFormed (remove_edge k c)
unfolding remove_edge known
remove_edge-IsWellFormed k c w = record {
  rooted = w.rooted;
  new_node = w.new_node;
  new_edge = λ j f g. w.new_edge j f (kept j f (rw (get-remove k j c.edges) at g));
  own_id = λ j f g. w.own_id j f (kept j f (rw (get-remove k j c.edges) at g));
  source_known = λ j f g. w.source_known j f (kept j f (rw (get-remove k j c.edges) at g));
  target_known = λ j f g. w.target_known j f (kept j f (rw (get-remove k j c.edges) at g));
  listed = IsAscending-remove k c.edges w.listed;
  exits_known = w.exits_known;
  exit_known = w.exit_known;
}
  where
    kept :
        (j : ℕ) (f : AbstractEdge)
        → (if k == j then none else get j c.edges) ≡ some f
        → get j c.edges ≡ some f
    kept j f g = ground arith

pub append_edge_effects-IsWellFormed :
    (k : ℕ) (es : TransferFn) (c : AbstractCfg)
    → IsWellFormed c
    → StaysWellFormed (append_edge_effects k es c)
unfolding append_edge_effects
append_edge_effects-IsWellFormed k es c w = elim (Option-cases (get k c.edges)) [
  | inl n ↦ rw (n, append_edge_effects) tt
  | inr (e, y) ↦
      rw (y, append_edge_effects)
        (write_edge-IsWellFormed c k c.next_edge _ (w.new_edge k e y) (omega arith) (w.own_id k e y)
          (w.source_known k e y) (w.target_known k e y) w)
]
