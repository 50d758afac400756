-- ===== src/Backward/Seeded.antt =====
-- The engine that `compute_preliminary_backward_states` starts from.
use may_must_rs.Base.{
  ==_iff, List, [], ap, arith, if◌then◌else◌, none, refl, some, true, ℕ, ◌==◌, ◌||◌, ◌∙◌, ◌∷◌, ◌≡◌,
}
use may_must_rs.Backward.Grown.{IsReady, IsReady-insert, state_at, state_at-insert}
use may_must_rs.Backward.Lookup.{find_node-some, known-node, update_summary-some}
use may_must_rs.Backward.Pass.{AssertionSite, block_all, seeded}
use may_must_rs.Backward.Rules.{
  Engine, block_edge, done, init, init_summaries, is_blocked, new_engine, set_state,
}
use may_must_rs.Backward.Summary.{NodeSummary, entry_summary, unreachable}
use may_must_rs.Base.Map.{get, get-insert, keys, member, member-insert_key}
use may_must_rs.Cfg.Built.{known-member}
use may_must_rs.Cfg.Graph.{AbstractCfg, AbstractNode, known}
use may_must_rs.Cfg.Transfer.{wp}
use may_must_rs.Formula.Data.{not}

get-init_summaries :
    (entry v : ℕ) (ids : List ℕ)
    → get v (init_summaries entry ids) ≡ (
        if member v ids then some (if v == entry then entry_summary v else unreachable v) else none)
unfolding init_summaries get member
get-init_summaries entry v [] = refl
get-init_summaries entry v (k ∷ ids) = ground (
  arith,
  get-insert k v (if k == entry then entry_summary k else unreachable k) (init_summaries entry ids),
  get-init_summaries entry v ids,
  ==_iff k v,
)

is_blocked-block_all :
    (ex : List ℕ) (k : ℕ) (g : Engine)
    → is_blocked k (block_all ex g) ≡ (member k ex || is_blocked k g)
unfolding block_all is_blocked member block_edge
is_blocked-block_all [] k g = refl
is_blocked-block_all (j ∷ ex) k g = ground (
  arith,
  is_blocked-block_all ex k (block_edge j g),
  member-insert_key j k g.blocked_edges,
  ==_iff j k,
)

summaries-block_all : (ex : List ℕ) (g : Engine) → (block_all ex g).summaries ≡ g.summaries
unfolding block_all block_edge
summaries-block_all [] g = refl
summaries-block_all (j ∷ ex) g = summaries-block_all ex (block_edge j g)

start : AbstractCfg → List ℕ → Engine
start c ex = block_all ex (init c new_engine)

start-all :
    (c : AbstractCfg) (ex : List ℕ) (v : ℕ)
    → known v c ≡ true
    → (s : NodeSummary) × (get v (start c ex).summaries ≡ some s)
unfolding start init new_engine
start-all c ex v h = (
  if v == c.entry then entry_summary v else unreachable v,
  ap (get v) (summaries-block_all ex (init c new_engine))
      ∙ get-init_summaries c.entry v (keys c.nodes)
      ∙ rw (known-member v c h) refl,
)

start-IsReady : (c : AbstractCfg) (ex : List ℕ) → IsReady c ex (start c ex)
unfolding start init new_engine is_blocked member
start-IsReady c ex = record {
  all = start-all c ex;
  blocks = λ k. ground (arith, is_blocked-block_all ex k (init c new_engine));
}

-- The engine is ready, and the assertion's node has the precondition of the violation.
pub seeded-IsReady :
    (c : AbstractCfg) (site : AssertionSite) (ex : List ℕ)
    → known site.site_node c ≡ true
    → (g : Engine) × (n : AbstractNode) × (get site.site_node c.nodes ≡ some n)
      × (seeded c site ex ≡ done g)
      × IsReady c ex g
      × (state_at site.site_node g ≡ wp n.transfer (not site.obligation))
unfolding seeded start set_state
seeded-IsReady c site ex h =
    let (n, hn) = known-node site.site_node c h in
    let (s, hs) = start-all c ex site.site_node h in
    let f = wp n.transfer (not site.obligation) in
    (
      _,
      n,
      hn,
      rw (find_node-some c site.site_node n hn, seeded)
          (update_summary-some site.site_node (λ s. record s { state = f }) (start c ex) s hs),
      IsReady-insert c ex site.site_node (record s { state = f }) (start c ex) (start-IsReady c ex),
      ground (
        arith,
        state_at-insert site.site_node site.site_node (record s { state = f }) (start c ex),
      ),
    )
