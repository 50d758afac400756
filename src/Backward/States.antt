-- ===== src/Backward/States.antt =====
-- src/analysis/backward/mod.rs: the loop of `compute_preliminary_backward_states`.
use may_must_rs.Base.{
  ==_iff, Bool-cases, List, [], ap, arith, false, inl, inr, refl, some, some-eq, subst, sym, true,
  ℕ, ◌==◌, ◌∙◌, ◌∷◌, ◌≡◌,
}
use may_must_rs.Backward.Grown.{
  Carries, Grown, Grown-refl, Grown-trans, IsReady, notmay_pre-Grown, state_at,
}
use may_must_rs.Backward.Pass.{pull, pull_all}
use may_must_rs.Backward.Rules.{Engine, done, pre_at_source}
use may_must_rs.Base.Map.{get, member}
use may_must_rs.Cfg.Graph.{AbstractCfg, AbstractEdge, edge_values, incoming_edges}
use may_must_rs.Cfg.Incoming.{incoming_edges_complete, incoming_edges_sound, source_ordered}
use may_must_rs.Cfg.Kahn.{IsLayered, uncounted}
use may_must_rs.Cfg.WellFormed.{IsWellFormed}
use may_must_rs.Formula.Data.{Formula}
use may_must_rs.Formula.Theory.{Theory, holds}

module _ (c : AbstractCfg) (ex : List ℕ) (w : IsWellFormed c) (T : Theory) where
  -- The edges of the list end at `v`, and what is not excluded comes from a node of `us`.
  abbrev IsInto : List ℕ → ℕ → List ℕ → Type 0
  IsInto us v ks =
      (k : ℕ)
      → member k ks ≡ true
      → (e : AbstractEdge) × (get k c.edges ≡ some e)
        × (e.target ≡ v)
        × (member k ex ≡ false → member e.source us ≡ true)

  -- All edges of the list are carried back from the state.
  abbrev AreCarried : List ℕ → Formula → Engine → Type 0
  AreCarried ks target_state d =
      (k : ℕ) (e : AbstractEdge)
      → member k ks ≡ true
      → get k c.edges ≡ some e
      → member k ex ≡ false
      → Carries c ex T target_state d e

  pull-Grown :
      (us : List ℕ) (v : ℕ) (ks : List ℕ) (g : Engine)
      → IsReady c ex g
      → member v us ≡ false
      → IsInto us v ks
      → (d : Engine) × (pull c ks g ≡ done d) × Grown c ex T us g d × AreCarried ks (state_at v g) d
  unfolding pull member
  pull-Grown us v [] g r n i = (g, refl, Grown-refl c ex T us g r, λ k e m h x. cc)
  pull-Grown us v (k ∷ ks) g r n i =
      let (e, he, t, inside) = i k (ground arith) in
      let (d, run, grown, carried) = notmay_pre-Grown c ex T us k e g w r he inside in
      let (f, run', grown', carried') =
        pull-Grown us v ks d grown.still_ready n (λ j m. i j (ground arith)) in
      (
        f,
        rw (run, pull) run',
        Grown-trans c ex T us g d f grown grown',
        λ j e' m hj x a s hm hs. elim (Bool-cases (j == k)) [
          | inl y ↦
              subst (λ q. Carries c ex T (state_at v g) f q)
                (some-eq (sym he ∙ ap (λ u. get u c.edges) (sym ((==_iff j k).0 y)) ∙ hj))
                (λ b u hb hu. grown'.grows e.source u (
                  carried (subst (λ q. member q ex ≡ false) ((==_iff j k).0 y) x) b u hb (
                    subst (λ q. holds T u (pre_at_source c e b (state_at q g)) ≡ true) (sym t) hu)))
                a s hm hs
          | inr y ↦ carried' j e' (ground arith) hj x a s hm (rw (grown.same v n) hs)
        ],
      )

  -- Every edge of the graph into a node of the list that is not excluded is carried back.
  abbrev pub AllCarried : List ℕ → Engine → Type 0
  AllCarried vs d =
      (k : ℕ) (e : AbstractEdge)
      → member e.target vs ≡ true
      → get k c.edges ≡ some e
      → member k ex ≡ false
      → Carries c ex T (state_at e.target d) d e

  incoming-IsInto :
      (rest : List ℕ) (v : ℕ)
      → uncounted ex rest (edge_values c.edges) v ≡ 0
      → IsInto rest v (incoming_edges v c)
  incoming-IsInto rest v p k m =
      let (e, he, t) = incoming_edges_sound v k c w m in
      (e, he, t, λ x. source_ordered ex rest v k e c.edges w.own_id w.listed p he t x)

  Grown-wider :
      (v : ℕ) (us : List ℕ) (g d : Engine) → Grown c ex T us g d → Grown c ex T (v ∷ us) g d
  unfolding member
  Grown-wider v us g d x = record {
    still_ready = x.still_ready;
    same = λ u h. x.same u (ground arith);
    grows = x.grows;
  }

  pub pull_all-Grown :
      (vs : List ℕ) (g : Engine)
      → IsReady c ex g
      → IsLayered ex (edge_values c.edges) vs
      → (d : Engine) × (pull_all c vs g ≡ done d) × Grown c ex T vs g d × AllCarried vs d
  unfolding pull_all member IsLayered
  pull_all-Grown [] g r l = (g, refl, Grown-refl c ex T [] g r, λ k e m h x. cc)
  pull_all-Grown (v ∷ rest) g r (p, n, l) =
      let (d, run, grown, carried) =
        pull-Grown rest v (incoming_edges v c) g r n (incoming-IsInto rest v p) in
      let (f, run', grown', carried') = pull_all-Grown rest d grown.still_ready l in
      (
        f,
        rw (run, pull_all) run',
        Grown-wider v rest g f (Grown-trans c ex T rest g d f grown grown'),
        λ k e m h x. elim (Bool-cases (e.target == v)) [
          | inr y ↦ carried' k e (ground arith) h x
          | inl y ↦
              let tv = (==_iff e.target v).0 y in
              let st = ap (λ u. state_at u f) tv ∙ grown'.same v n ∙ grown.same v n in
              λ a b hm hs. grown'.grows e.source b (
                carried k e (incoming_edges_complete v k e c w h tv) h x a b hm
                  (subst (λ q. holds T b (pre_at_source c e a q) ≡ true) st hs))
        ],
      )
