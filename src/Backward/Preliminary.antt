-- ===== src/Backward/Preliminary.antt =====
-- `compute_preliminary_backward_states` as a whole: the order and the pass over it.
use mathlib.Core.List.{reverse-reverse}
use may_must_rs.Base.{
  List, [], ap, arith, inl, inr, none, refl, reverse, some, subst, sym, true, ℕ, ◌∙◌, ◌∷◌, ◌≡◌, ◌⊎◌,
}
use may_must_rs.Backward.Cover.{
  StatesAreFramed, Violates, preliminary_states_cover, preliminary_states_total,
}
use may_must_rs.Backward.Grown.{state_at}
use may_must_rs.Backward.Pass.{
  AssertionSite, collect_states, compute_preliminary_backward_states, cyclic_cfg_unsupported,
  node_states, over_order, preliminary_states, state_map,
}
use may_must_rs.Backward.Rules.{Engine, done}
use may_must_rs.Backward.Summary.{NodeSummary}
use may_must_rs.Base.Map.{Map, get}
use may_must_rs.Cfg.Built.{IsWellFormed-EdgesEndAtNodes}
use may_must_rs.Cfg.Graph.{AbstractCfg, known}
use may_must_rs.Cfg.KahnStart.{IsFullOrder, IsTopological, topological_order_excluding_sound}
use may_must_rs.Cfg.Order.{ordered, topological_order_excluding}
use may_must_rs.Cfg.WellFormed.{IsWellFormed}
use may_must_rs.Formula.Data.{Formula, falsum}
use may_must_rs.Formula.Theory.{State, Theory, holds}

-- The formula of a node; a node that the map does not have has False.
unfoldable pub formula_at : Map Formula → ℕ → Formula
formula_at m v = elim (get v m) [ none ↦ falsum | some f ↦ f ]

formula_at-state_map :
    (ss : Map NodeSummary) (v : ℕ) (bs : List ℕ)
    → formula_at (state_map ss) v ≡ state_at v (record { summaries = ss; blocked_edges = bs })
unfolding formula_at state_map state_at get
formula_at-state_map [] v bs = refl
formula_at-state_map ((k, s) ∷ m) v bs = ground (arith, formula_at-state_map m v bs)

node_states_eq : {m n : Map Formula} → node_states m ≡ node_states n → m ≡ n
node_states_eq h = cc

cyclic_ne : {m : Map Formula} → cyclic_cfg_unsupported ≡ node_states m → ⊥
cyclic_ne h = cc

-- The pass over the order that the sort gave.
ordered-pass :
    (c : AbstractCfg) (site : AssertionSite) (ex order : List ℕ)
    → IsWellFormed c
    → known site.site_node c ≡ true
    → topological_order_excluding ex c ≡ ordered order
    → IsTopological ex c order
    → (reversed : List ℕ) × (d : Engine) × IsFullOrder c ex reversed
      × (preliminary_states c site ex reversed ≡ done d)
      × (compute_preliminary_backward_states c site ex ≡ node_states (state_map d.summaries))
unfolding compute_preliminary_backward_states over_order collect_states
ordered-pass c site ex order w h o (reversed, back, full) =
    let (d, run) = preliminary_states_total c site ex reversed w h full in
    let turned = ap reverse back ∙ reverse-reverse reversed in
    (
      reversed,
      d,
      full,
      run,
      ap (over_order c site ex) o
          ∙ ap (λ l. collect_states (preliminary_states c site ex l)) turned
          ∙ ap collect_states run,
    )

-- On a well-formed graph that has the assertion's node, the function does not panic and no rule
-- fails: it gives the states of the nodes, or answers that the graph without the excluded edges has
-- a cycle.
pub compute_preliminary_backward_states_total :
    (c : AbstractCfg) (site : AssertionSite) (ex : List ℕ)
    → IsWellFormed c
    → known site.site_node c ≡ true
    → ((m : Map Formula) × (compute_preliminary_backward_states c site ex ≡ node_states m))
      ⊎ (compute_preliminary_backward_states c site ex ≡ cyclic_cfg_unsupported)
unfolding compute_preliminary_backward_states over_order
compute_preliminary_backward_states_total c site ex w h =
    elim (topological_order_excluding_sound ex c (IsWellFormed-EdgesEndAtNodes c w)) [
      | inl (order, o, t) ↦
          let (reversed, d, full, run, result) = ordered-pass c site ex order w h o t in
          inl (state_map d.summaries, result)
      | inr n ↦ inr (ap (over_order c site ex) n)
    ]

-- On a well-formed graph that has the assertion's node, if the function gives states, then the
-- state formula of a node holds in every state from which some path that avoids the excluded edges
-- leads to a violation of the assertion. Each formula that is carried through an effect reads the
-- target of a Boolean assignment in no term, does not read the target of an unresolved load or
-- cast, and reads no memory where the effect is an unresolved store or a call with HavocMemory.
pub compute_preliminary_backward_states_cover :
    (c : AbstractCfg) (site : AssertionSite) (ex : List ℕ) (T : Theory) (m : Map Formula) (v : ℕ)
    (s : State T)
    → IsWellFormed c
    → known site.site_node c ≡ true
    → compute_preliminary_backward_states c site ex ≡ node_states m
    → StatesAreFramed c site (formula_at m)
    → Violates c site ex T v s
    → holds T s (formula_at m v) ≡ true
unfolding compute_preliminary_backward_states over_order
compute_preliminary_backward_states_cover c site ex T m v s w h run keep p =
    elim (topological_order_excluding_sound ex c (IsWellFormed-EdgesEndAtNodes c w)) [
      | inr n ↦ absurd (cyclic_ne (sym (ap (over_order c site ex) n) ∙ run))
      | inl (order, o, t) ↦
          let (reversed, d, full, pass, result) = ordered-pass c site ex order w h o t in
          let same : formula_at m ≡ (λ u. state_at u d) = λ i u.
            (ap (λ q. formula_at q u) (sym (node_states_eq (sym result ∙ run)))
                ∙ formula_at-state_map d.summaries u d.blocked_edges)
              i in
          subst (λ f. holds T s (f v) ≡ true) (sym same)
            (preliminary_states_cover c site ex reversed T d v s w h full pass
              (subst (StatesAreFramed c site) same keep) p)
    ]
