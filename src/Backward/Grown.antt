-- ===== src/Backward/Grown.antt =====
-- src/analysis/backward/rules.rs: what `notmay_pre` keeps and adds.
use may_must_rs.Base.{
  ==_iff, Bool-cases, List, arith, false, if◌then◌else◌, inl, inr, none, refl, some, some-eq, subst,
  sym, true, ℕ, ◌==◌, ◌∙◌, ◌≡◌,
}
use may_must_rs.Backward.Lookup.{
  find_edge-some, find_node-some, known-node, summary_of-some, update_summary-some,
}
use may_must_rs.Backward.Rules.{Engine, done, is_blocked, notmay_pre, pre_at_source}
use may_must_rs.Backward.Summary.{NodeSummary, join_state}
use may_must_rs.Base.Map.{get, get-insert, insert, member}
use may_must_rs.Cfg.Graph.{AbstractCfg, AbstractEdge, AbstractNode, known}
use may_must_rs.Cfg.WellFormed.{IsWellFormed}
use may_must_rs.Formula.Data.{Formula, falsum}
use may_must_rs.Formula.Meaning.{holds-mk_or}
use may_must_rs.Formula.Theory.{State, Theory, holds}

unfoldable pub state_at : ℕ → Engine → Formula
state_at v g = elim (get v g.summaries) [ none ↦ falsum | some s ↦ s.state ]

state_at-some :
    (v : ℕ) (g : Engine) (s : NodeSummary) → get v g.summaries ≡ some s → state_at v g ≡ s.state
unfolding state_at
state_at-some v g s h = rw (h, state_at) refl

pub state_at-insert :
    (v k : ℕ) (s : NodeSummary) (g : Engine)
    → state_at v (record g { summaries = insert k s g.summaries })
      ≡ (if k == v then s.state else state_at v g)
unfolding state_at
state_at-insert v k s g = ground (arith, get-insert k v s g.summaries)

module _ (c : AbstractCfg) (ex : List ℕ) where
  -- Every node has a summary, and the blocked edges are the excluded ones.
  pub record IsReady (g : Engine) : Type 0 where
    pub all : (v : ℕ) → known v c ≡ true → (s : NodeSummary) × (get v g.summaries ≡ some s)
    pub blocks : (k : ℕ) → is_blocked k g ≡ member k ex

  pub IsReady-insert :
      (k : ℕ) (s : NodeSummary) (g : Engine)
      → IsReady g
      → IsReady (record g { summaries = insert k s g.summaries })
  unfolding is_blocked
  IsReady-insert k s g r = record {
    all = λ v h. elim (Bool-cases (k == v)) [
      | inl y ↦ (s, get-insert k v s g.summaries ∙ rw y refl)
      | inr n ↦ let (t, e) = r.all v h in (t, get-insert k v s g.summaries ∙ rw n e)
    ];
    blocks = r.blocks;
  }

  module _ (T : Theory) where
    -- Only the nodes of `us` may change their state, and no state gets stronger.
    pub record Grown (us : List ℕ) (g d : Engine) : Type 0 where
      pub still_ready : IsReady d
      pub same : (v : ℕ) → member v us ≡ false → state_at v d ≡ state_at v g
      pub grows :
          (v : ℕ) (x : State T) → holds T x (state_at v g) ≡ true → holds T x (state_at v d) ≡ true

    -- The source of the edge covers what the edge carries back from a state of its target.
    abbrev pub Carries : Formula → Engine → AbstractEdge → Type 0
    Carries target_state d e =
        (n : AbstractNode) (x : State T)
        → get e.source c.nodes ≡ some n
        → holds T x (pre_at_source c e n target_state) ≡ true
        → holds T x (state_at e.source d) ≡ true

    pub Grown-refl : (us : List ℕ) (g : Engine) → IsReady g → Grown us g g
    Grown-refl us g r = record { still_ready = r; same = λ v h. refl; grows = λ v x h. h }

    pub Grown-trans : (us : List ℕ) (g d f : Engine) → Grown us g d → Grown us d f → Grown us g f
    Grown-trans us g d f a b = record {
      still_ready = b.still_ready;
      same = λ v h. b.same v h ∙ a.same v h;
      grows = λ v x h. b.grows v x (a.grows v x h);
    }

    join-Grown :
        (us : List ℕ) (k : ℕ) (s : NodeSummary) (f : Formula) (g : Engine)
        → IsReady g
        → get k g.summaries ≡ some s
        → member k us ≡ true
        → Grown us g (record g { summaries = insert k (join_state f s) g.summaries })
    unfolding join_state
    join-Grown us k s f g r h m = record {
      still_ready = IsReady-insert k (join_state f s) g r;
      same = λ v n. ground (arith, state_at-insert v k (join_state f s) g, ==_iff k v);
      grows = λ v x y. ground (
        arith,
        state_at-insert v k (join_state f s) g,
        state_at-some v g s,
        ==_iff k v,
        holds-mk_or T x s.state f,
      );
    }

    notmay_pre-open :
        (k : ℕ) (e : AbstractEdge) (n : AbstractNode) (source target : NodeSummary) (g : Engine)
        → is_blocked k g ≡ false
        → get k c.edges ≡ some e
        → get e.source c.nodes ≡ some n
        → get e.source g.summaries ≡ some source
        → get e.target g.summaries ≡ some target
        → notmay_pre c k g
          ≡ done (record g {
            summaries =
                insert e.source (join_state (pre_at_source c e n target.state) source) g.summaries;
          })
    unfolding notmay_pre
    notmay_pre-open k e n source target g b he hn hs ht =
        rw
          (
            b,
            find_edge-some c k e he,
            summary_of-some e.target g target ht,
            find_node-some c e.source n hn,
            notmay_pre,
          )
          (update_summary-some e.source (join_state (pre_at_source c e n target.state)) g source hs)

    notmay_pre-blocked : (k : ℕ) (g : Engine) → is_blocked k g ≡ true → notmay_pre c k g ≡ done g
    unfolding notmay_pre
    notmay_pre-blocked k g b = rw (b, notmay_pre) refl

    join-carries :
        (k : ℕ) (s : NodeSummary) (f : Formula) (g : Engine) (x : State T)
        → holds T x f ≡ true
        → holds T x (state_at k (record g { summaries = insert k (join_state f s) g.summaries }))
          ≡ true
    unfolding join_state
    join-carries k s f g x h =
        ground (arith, state_at-insert k k (join_state f s) g, holds-mk_or T x s.state f)

    pub notmay_pre-Grown :
        (us : List ℕ) (k : ℕ) (e : AbstractEdge) (g : Engine)
        → IsWellFormed c
        → IsReady g
        → get k c.edges ≡ some e
        → (member k ex ≡ false → member e.source us ≡ true)
        → (d : Engine) × (notmay_pre c k g ≡ done d)
          × Grown us g d
          × (member k ex ≡ false → Carries (state_at e.target g) d e)
    notmay_pre-Grown us k e g w r he inside = elim (Bool-cases (member k ex)) [
      | inl y ↦ (
        g,
        notmay_pre-blocked k g (r.blocks k ∙ y),
        Grown-refl us g r,
        λ h. absurd (true_ne (sym h ∙ y)),
      )
      | inr y ↦
          let (source, hs) = r.all e.source (w.source_known k e he) in
          let (target, ht) = r.all e.target (w.target_known k e he) in
          let (n, hn) = known-node e.source c (w.source_known k e he) in
          (
            _,
            notmay_pre-open k e n source target g (r.blocks k ∙ y) he hn hs ht,
            join-Grown us e.source source (pre_at_source c e n target.state) g r hs (inside y),
            λ h m x hm hx. join-carries e.source source (pre_at_source c e n target.state) g x (
                subst (λ (a : AbstractNode × Formula). holds T x (pre_at_source c e a.0 a.1) ≡ true)
                  (λ i. (some-eq (sym hm ∙ hn) i, state_at-some e.target g target ht i)) hx),
          )
    ]
      where
        true_ne : false ≡ true → ⊥
        true_ne h = cc
