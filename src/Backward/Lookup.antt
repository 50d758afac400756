-- ===== src/Backward/Lookup.antt =====
-- src/analysis/backward/rules.rs: the lookups of the rules, where the key is there.
use may_must_rs.Base.{false, inl, inr, refl, some, true, ℕ, ◌≡◌}
use may_must_rs.Backward.Rules.{Engine, done, find_edge, find_node, summary_of, update_summary}
use may_must_rs.Backward.Summary.{NodeSummary}
use may_must_rs.Base.Map.{get, insert}
use may_must_rs.Cfg.Graph.{AbstractCfg, AbstractEdge, AbstractNode, known}
use may_must_rs.Cfg.WellFormed.{node-cases}

pub find_edge-some :
    (c : AbstractCfg) (k : ℕ) (e : AbstractEdge) → get k c.edges ≡ some e → find_edge c k ≡ done e
unfolding find_edge
find_edge-some c k e h = rw (h, find_edge) refl

pub find_node-some :
    (c : AbstractCfg) (k : ℕ) (n : AbstractNode) → get k c.nodes ≡ some n → find_node c k ≡ done n
unfolding find_node
find_node-some c k n h = rw (h, find_node) refl

pub summary_of-some :
    (k : ℕ) (g : Engine) (s : NodeSummary) → get k g.summaries ≡ some s → summary_of k g ≡ done s
unfolding summary_of
summary_of-some k g s h = rw (h, summary_of) refl

pub update_summary-some :
    (k : ℕ) (f : NodeSummary → NodeSummary) (g : Engine) (s : NodeSummary)
    → get k g.summaries ≡ some s
    → update_summary k f g ≡ done (record g { summaries = insert k (f s) g.summaries })
unfolding update_summary
update_summary-some k f g s h = rw (h, update_summary) refl

false_ne : false ≡ true → ⊥
false_ne h = cc

pub known-node :
    (v : ℕ) (c : AbstractCfg) → known v c ≡ true → (n : AbstractNode) × (get v c.nodes ≡ some n)
unfolding known
known-node v c h = elim (node-cases v c) [
  | inl e ↦ absurd (false_ne (rw (e, known) at h))
  | inr (n, e, _) ↦ (n, e)
]
