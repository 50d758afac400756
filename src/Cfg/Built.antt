-- ===== src/Cfg/Built.antt =====
-- The graphs that the operations of src/cfg/abstract_cfg.rs build.
use may_must_rs.Base.{
  List, Option-cases, String, [], ap, arith, false, inl, inr, none, refl, some, subst, sym, true, ℕ,
  ◌∙◌, ◌∷◌, ◌≡◌, ◌≢◌, ◌⊎◌,
}
use may_must_rs.Base.Map.{IsAscending, Map, get, get-tail, keys, member}
use may_must_rs.Cfg.EdgeLaws.{
  StaysWellFormedWith, add_edge-IsWellFormed, append_edge_effects-IsWellFormed,
  remove_edge-IsWellFormed,
}
use may_must_rs.Cfg.Effect.{TransferFn}
use may_must_rs.Cfg.ExitLaws.{ensure_single_exit-open, ensure_single_exit_total}
use may_must_rs.Cfg.Graph.{
  AbstractCfg, AbstractEdge, AbstractNode, CfgError, SourceLocation, add_edge, add_node,
  append_edge_effects, choose_exit, edge_values, ensure_single_exit, err, known, mark_exit,
  missing_exit, new_cfg, ok, remove_edge, set_entry_transfer, set_source_location,
}
use may_must_rs.Cfg.KahnFull.{TargetsIn}
use may_must_rs.Cfg.KahnStart.{EdgesEndAtNodes}
use may_must_rs.Cfg.WellFormed.{
  IsWellFormed, StaysWellFormed, add_node-IsWellFormed, mark_exit-IsWellFormed,
  new_cfg-IsWellFormed, set_entry_transfer-IsWellFormed, set_source_location-IsWellFormed,
}
use may_must_rs.Formula.Data.{Formula}

-- The graphs that a sequence of calls can give; a call that fails leaves the graph as it is.
pub data Built : AbstractCfg → Type 0 where
  created : (label : String) → Built (new_cfg label)
  node_added :
      (label : String) (t : TransferFn) (c : AbstractCfg) → Built c → Built (add_node label t c).0
  entry_set : (t : TransferFn) (c : AbstractCfg) → Built c → Built (set_entry_transfer t c)
  located :
      (k : ℕ) (l : SourceLocation) (c d : AbstractCfg)
      → Built c
      → set_source_location k l c ≡ ok d
      → Built d
  marked : (k : ℕ) (c d : AbstractCfg) → Built c → mark_exit k c ≡ ok d → Built d
  edge_added :
      (a b : ℕ) (g : Formula) (t : TransferFn) (c d : AbstractCfg) (k : ℕ)
      → Built c
      → add_edge a b g t c ≡ ok (d, k)
      → Built d
  appended :
      (k : ℕ) (t : TransferFn) (c d : AbstractCfg)
      → Built c
      → append_edge_effects k t c ≡ ok d
      → Built d
  removed : (k : ℕ) (c : AbstractCfg) → Built c → Built (remove_edge k c)
  closed : (c d : AbstractCfg) (k : ℕ) → Built c → ensure_single_exit c ≡ ok (d, k) → Built d

choose_exit-missing : (c : AbstractCfg) → choose_exit [] c ≡ err missing_exit
unfolding choose_exit
choose_exit-missing c = refl

ok_err : {A : Type 0} {x : A} {e : CfgError} → ok x ≡ err e → ⊥
ok_err h = cc

ok_eq : {A : Type 0} {x y : A} → ok x ≡ ok y → x ≡ y
ok_eq h = cc

exits-cases : (xs : List ℕ) → (xs ≡ []) ⊎ (xs ≢ [])
exits-cases [] = inl refl
exits-cases (x ∷ xs) = inr (λ h. cc)

ensure_single_exit-done :
    (c : AbstractCfg) (k : ℕ) → c.exit ≡ some k → ensure_single_exit c ≡ ok (c, k)
unfolding ensure_single_exit
ensure_single_exit-done c k e =
    λ i. elim (e i) [ some x ↦ ok (c, x) | none ↦ choose_exit c.concrete_exits c ]

ensure_single_exit-none :
    (c : AbstractCfg)
    → c.exit ≡ none
    → c.concrete_exits ≡ []
    → ensure_single_exit c ≡ err missing_exit
ensure_single_exit-none c e x =
    ensure_single_exit-open c e ∙ ap (λ l. choose_exit l c) x ∙ choose_exit-missing c

ensure_single_exit-IsWellFormed :
    (c d : AbstractCfg) (k : ℕ) → IsWellFormed c → ensure_single_exit c ≡ ok (d, k) → IsWellFormed d
ensure_single_exit-IsWellFormed c d k w h = elim (Option-cases c.exit) [
  | inr (x, e) ↦ subst (λ p. IsWellFormed p.0) (ok_eq (sym (ensure_single_exit-done c x e) ∙ h)) w
  | inl e ↦ elim (exits-cases c.concrete_exits) [
    | inl n ↦ absurd (ok_err (sym h ∙ ensure_single_exit-none c e n))
    | inr n ↦
        let (d1, x, run, has) = ensure_single_exit_total c w e n in
        subst (λ p. IsWellFormed p.0) (ok_eq (sym run ∙ h)) has.well_formed
  ]
]

-- In a graph that the operations built, the entry is a node, the next ids are new, every edge
-- stands under its own id and joins two nodes, the edges are listed by ascending id, and every exit
-- is a node.
pub Built-IsWellFormed : (c : AbstractCfg) → Built c → IsWellFormed c
Built-IsWellFormed _ (created label) = new_cfg-IsWellFormed label
Built-IsWellFormed _ (node_added label t c b) =
    add_node-IsWellFormed label t c (Built-IsWellFormed c b)
Built-IsWellFormed _ (entry_set t c b) =
    set_entry_transfer-IsWellFormed t c (Built-IsWellFormed c b)
Built-IsWellFormed _ (located k l c d b h) =
    subst StaysWellFormed h (set_source_location-IsWellFormed k l c (Built-IsWellFormed c b))
Built-IsWellFormed _ (marked k c d b h) =
    subst StaysWellFormed h (mark_exit-IsWellFormed k c (Built-IsWellFormed c b))
Built-IsWellFormed _ (edge_added x y g t c d k b h) =
    subst StaysWellFormedWith h (add_edge-IsWellFormed x y g t c (Built-IsWellFormed c b))
Built-IsWellFormed _ (appended k t c d b h) =
    subst StaysWellFormed h (append_edge_effects-IsWellFormed k t c (Built-IsWellFormed c b))
Built-IsWellFormed _ (removed k c b) = remove_edge-IsWellFormed k c (Built-IsWellFormed c b)
Built-IsWellFormed _ (closed c d k b h) =
    ensure_single_exit-IsWellFormed c d k (Built-IsWellFormed c b) h

member-keys :
    (k : ℕ) (m : Map AbstractNode) (n : AbstractNode) → get k m ≡ some n → member k (keys m) ≡ true
unfolding get keys member
member-keys k [] n h = cc
member-keys k ((j, x) ∷ m) n h = ground (arith, member-keys k m n)

pub known-member : (k : ℕ) (c : AbstractCfg) → known k c ≡ true → member k (keys c.nodes) ≡ true
unfolding known
known-member k c h = elim (Option-cases (get k c.nodes)) [
  | inl e ↦ absurd (false_ne (rw (e, known) at h))
  | inr (n, e) ↦ member-keys k c.nodes n e
]
  where
    false_ne : false ≡ true → ⊥
    false_ne p = cc

targets_in :
    (ids : List ℕ) (m : Map AbstractEdge)
    → IsAscending m
    → ((k : ℕ) (e : AbstractEdge) → get k m ≡ some e → member e.target ids ≡ true)
    → TargetsIn (edge_values m) ids
unfolding edge_values get
targets_in ids [] a h = tt
targets_in ids ((j, f) ∷ m) a h =
    (h j f (ground arith), targets_in ids m a.1 (λ k e g. h k e (get-tail k j e f m a.0 g)))

-- Every edge of a well-formed graph ends at a node, so topological sorting is given what it needs.
pub IsWellFormed-EdgesEndAtNodes : (c : AbstractCfg) → IsWellFormed c → EdgesEndAtNodes c
IsWellFormed-EdgesEndAtNodes c w =
    targets_in (keys c.nodes) c.edges w.listed
      (λ k e h. known-member e.target c (w.target_known k e h))
