-- ===== src/Cfg/ExitLaws.antt =====
-- src/cfg/abstract_cfg.rs: `ensure_single_exit`.
use may_must_rs.Base.{
  List, Option-cases, [], arith, false, inl, inr, none, refl, some, some-eq, subst, true, ℕ, ◌∙◌,
  ◌∷◌, ◌≡◌, ◌≢◌, ◌⊎◌,
}
use may_must_rs.Base.Map.{get, insert, member}
use may_must_rs.Cfg.Graph.{
  AbstractCfg, AbstractEdge, AbstractNode, NodeKind, add_node, choose_exit, ensure_single_exit,
  join_exits, known, merge_exits, ok, set_kind, synthetic_exit,
}
use may_must_rs.Cfg.JoinExits.{Link, join_exits-Joined, known-same}
use may_must_rs.Cfg.WellFormed.{
  IsWellFormed, StaysWellFormed, add_node-IsWellFormed, known-insert, set_kind-IsWellFormed,
}

set_kind-ok :
    (k : ℕ) (kind : NodeKind) (c : AbstractCfg)
    → known k c ≡ true
    → (n : AbstractNode) × (set_kind k kind c ≡ ok (record c { nodes = insert k n c.nodes }))
unfolding set_kind known
set_kind-ok k kind c h = elim (Option-cases (get k c.nodes)) [
  | inl e ↦ absurd (true_ne (rw (e, known) at h))
  | inr (n, e) ↦ (record n { kind = kind }, rw (e, set_kind))
]
  where
    true_ne : false ≡ true → ⊥
    true_ne e = cc

-- What `ensure_single_exit` gives: a graph whose exit is `x` and where every marked exit is `x` or has an
-- unconditional edge to it.
pub record HasExit (c d : AbstractCfg) (x : ℕ) : Type 0 where
  pub well_formed : IsWellFormed d
  pub exit : d.exit ≡ some x
  pub leads : (k : ℕ) → member k c.concrete_exits ≡ true → (k ≡ x) ⊎ Link d k x
  pub kept : (i : ℕ) (e : AbstractEdge) → get i c.edges ≡ some e → get i d.edges ≡ some e

set_exit-IsWellFormed :
    (d : AbstractCfg) (x : ℕ)
    → known x d ≡ true
    → IsWellFormed d
    → IsWellFormed (record d { exit = some x })
unfolding known
set_exit-IsWellFormed d x h w = record {
  rooted = w.rooted;
  new_node = w.new_node;
  new_edge = w.new_edge;
  own_id = w.own_id;
  source_known = w.source_known;
  target_known = w.target_known;
  listed = w.listed;
  exits_known = w.exits_known;
  exit_known = λ k e. subst (λ z. known z d ≡ true) (some-eq e) h;
}

merge_exits-ok :
    (c c2 d : AbstractCfg)
    → set_kind c.next_node synthetic_exit (add_node "__synthetic_exit" [] c).0 ≡ ok c2
    → join_exits c2.concrete_exits c.next_node c2 ≡ ok d
    → merge_exits c ≡ ok (record d { exit = some c.next_node }, c.next_node)
unfolding merge_exits add_node
merge_exits-ok c c2 d e f = rw (e, f, merge_exits) refl

merge_exits-HasExit :
    (c : AbstractCfg)
    → IsWellFormed c
    → (d : AbstractCfg) × (x : ℕ) × (merge_exits c ≡ ok (d, x)) × HasExit c d x
unfolding merge_exits add_node
merge_exits-HasExit c w =
    let x = c.next_node in
    let c1 = (add_node "__synthetic_exit" [] c).0 in
    let w1 = add_node-IsWellFormed "__synthetic_exit" [] c w in
    let hx1 : known x c1 ≡ true = ground (arith, known-insert c c1 x x _ refl) in
    let (n, e2) = set_kind-ok x synthetic_exit c1 hx1 in
    let c2 = record c1 { nodes = insert x n c1.nodes } in
    let w2 : IsWellFormed c2 =
      subst StaysWellFormed e2 (set_kind-IsWellFormed x synthetic_exit c1 w1) in
    let hx2 : known x c2 ≡ true = ground (arith, known-insert c1 c2 x x n refl) in
    let (d, e3, j) = join_exits-Joined c.concrete_exits x c2 w2 hx2 w2.exits_known in
    (
      record d { exit = some x },
      x,
      merge_exits-ok c c2 d e2 e3,
      record {
        well_formed =
            set_exit-IsWellFormed d x (known-same c2 d x j.same_nodes ∙ hx2) j.well_formed;
        exit = refl;
        leads = λ k m. inr (j.links k m);
        kept = j.kept;
      },
    )

promote-HasExit :
    (c : AbstractCfg) (x : ℕ)
    → IsWellFormed c
    → c.concrete_exits ≡ x ∷ []
    → HasExit c (record c { exit = some x }) x
unfolding member
promote-HasExit c x w e = record {
  well_formed = set_exit-IsWellFormed c x (w.exits_known x (rw e (ground arith))) w;
  exit = refl;
  leads = λ k m. inl (only k (rw e at m));
  kept = λ i f g. g;
}
  where
    only : (k : ℕ) → member k (x ∷ []) ≡ true → k ≡ x
    only k m = ground arith

choose_exit-HasExit :
    (xs : List ℕ) (c : AbstractCfg)
    → IsWellFormed c
    → c.concrete_exits ≡ xs
    → xs ≢ []
    → (d : AbstractCfg) × (x : ℕ) × (choose_exit xs c ≡ ok (d, x)) × HasExit c d x
unfolding choose_exit
choose_exit-HasExit [] c w e h = absurd (h refl)
choose_exit-HasExit (x ∷ []) c w e h =
    (record c { exit = some x }, x, refl, promote-HasExit c x w e)
choose_exit-HasExit (x ∷ y ∷ xs) c w e h = merge_exits-HasExit c w

pub ensure_single_exit-open :
    (c : AbstractCfg) → c.exit ≡ none → ensure_single_exit c ≡ choose_exit c.concrete_exits c
unfolding ensure_single_exit
ensure_single_exit-open c e =
    λ i. elim (e i) [ some x ↦ ok (c, x) | none ↦ choose_exit c.concrete_exits c ]

-- In a well-formed graph whose single exit is not yet chosen and where some exit was marked,
-- `ensure_single_exit` succeeds: the graph it gives is well-formed, has the exit that it returns
-- and all edges of the old graph, and each marked exit is that exit or has an unconditional edge
-- without effects to it.
pub ensure_single_exit_total :
    (c : AbstractCfg)
    → IsWellFormed c
    → c.exit ≡ none
    → c.concrete_exits ≢ []
    → (d : AbstractCfg) × (x : ℕ) × (ensure_single_exit c ≡ ok (d, x)) × HasExit c d x
unfolding ensure_single_exit
ensure_single_exit_total c w e h =
    let (d, x, run, has) = choose_exit-HasExit c.concrete_exits c w refl h in
    (d, x, ensure_single_exit-open c e ∙ run, has)
