-- ===== src/Backward/Cover.antt =====
-- src/analysis/backward/mod.rs: the preliminary pass against the paths to a violation.
use may_must_rs.Base.{List, ap₂, false, refl, some, some-eq, subst, sym, true, ℕ, ◌&&◌, ◌∙◌, ◌≡◌}
use may_must_rs.Backward.Grown.{state_at}
use may_must_rs.Backward.Pass.{AssertionSite, preliminary_states}
use may_must_rs.Backward.Rules.{Engine, done, pre_at_source}
use may_must_rs.Backward.Seeded.{seeded-IsReady}
use may_must_rs.Backward.States.{AllCarried, pull_all-Grown}
use may_must_rs.Base.Map.{get, member}
use may_must_rs.Cfg.Built.{known-member}
use may_must_rs.Cfg.Graph.{AbstractCfg, AbstractEdge, AbstractNode, known}
use may_must_rs.Cfg.KahnStart.{IsFullOrder}
use may_must_rs.Cfg.Run.{Run}
use may_must_rs.Cfg.Transfer.{wp}
use may_must_rs.Cfg.WellFormed.{IsWellFormed}
use may_must_rs.Cfg.WpSound.{AreFramed, wp_sound}
use may_must_rs.Formula.Build.{mk_and}
use may_must_rs.Formula.Data.{Formula, not}
use may_must_rs.Formula.Meaning.{holds-mk_and}
use may_must_rs.Formula.Theory.{State, Theory, holds}

-- A path from a node, in a state before its block, to a violation of the assertion: each step runs
-- the node's block, meets the edge's guard and runs the edge's effects.
pub data Violates (c : AbstractCfg) (site : AssertionSite) (ex : List ℕ) (T : Theory)
    : ℕ → State T → Type 0 where
  at_site :
      (n : AbstractNode) (s t : State T)
      → get site.site_node c.nodes ≡ some n
      → Run T n.transfer s t
      → holds T t site.obligation ≡ false
      → Violates c site ex T site.site_node s
  along :
      (k : ℕ) (e : AbstractEdge) (n : AbstractNode) (s t u : State T)
      → get k c.edges ≡ some e
      → member k ex ≡ false
      → get e.source c.nodes ≡ some n
      → Run T n.transfer s t
      → holds T t e.guard ≡ true
      → Run T e.effects t u
      → Violates c site ex T e.target u
      → Violates c site ex T e.source s

-- What an effect may change behind the back of `wp` is not read by the formula behind it, for
-- every formula that the states are carried through.
abbrev pub StatesAreFramed : AbstractCfg → AssertionSite → (ℕ → Formula) → Type 0
StatesAreFramed c site states_of =
    ((n : AbstractNode)
      → get site.site_node c.nodes ≡ some n
      → AreFramed n.transfer (not site.obligation))
    × ((k : ℕ) (e : AbstractEdge) (n : AbstractNode)
        → get k c.edges ≡ some e
        → get e.source c.nodes ≡ some n
        → AreFramed e.effects (states_of e.target)
          × AreFramed n.transfer (mk_and e.guard (wp e.effects (states_of e.target))))

module _ (c : AbstractCfg) (site : AssertionSite) (ex reversed : List ℕ) (T : Theory)
    (w : IsWellFormed c) where
  record Covered (d : Engine) : Type 0 where
    run : preliminary_states c site ex reversed ≡ done d
    seeds :
        (n : AbstractNode) (s : State T)
        → get site.site_node c.nodes ≡ some n
        → holds T s (wp n.transfer (not site.obligation)) ≡ true
        → holds T s (state_at site.site_node d) ≡ true
    carried : AllCarried c ex w T reversed d

  states-Covered :
      known site.site_node c ≡ true → IsFullOrder c ex reversed → (d : Engine) × Covered d
  unfolding preliminary_states
  states-Covered h (l, all) =
      let (g, n, hn, run, r, st) = seeded-IsReady c site ex h in
      let (d, run', grown, carried) = pull_all-Grown c ex w T reversed g r l in
      (
        d,
        record {
          run = rw (run, preliminary_states) run';
          seeds = λ m s hm hs. grown.grows site.site_node s (
              subst (λ f. holds T s f ≡ true) (sym st)
                (subst
                  (λ (q : AbstractNode). holds T s (wp q.transfer (not site.obligation)) ≡ true)
                  (some-eq (sym hm ∙ hn)) hs));
          carried = carried;
        },
      )

  module _ (o : IsFullOrder c ex reversed) (d : Engine) (x : Covered d)
      (keep : StatesAreFramed c site (λ v. state_at v d)) where
    covers : (v : ℕ) (s : State T) → Violates c site ex T v s → holds T s (state_at v d) ≡ true
    unfolding pre_at_source holds
    covers _ _ (at_site n s t hn r f) =
        x.seeds n s hn (wp_sound T n.transfer (not site.obligation) s t (keep.0 n hn) r (rw f refl))
    covers _ _ (along k e n s t u he a hn r hg r' v) =
        x.carried k e (o.1 e.target (known-member e.target c (w.target_known k e he))) he a n s hn (
          wp_sound T n.transfer (mk_and e.guard (wp e.effects (state_at e.target d))) s t
            (keep.1 k e n he hn).1 r
            (holds-mk_and T t e.guard (wp e.effects (state_at e.target d))
              ∙ ap₂ ◌&&◌ hg (
                  wp_sound T e.effects (state_at e.target d) t u (keep.1 k e n he hn).0 r'
                    (covers e.target u v))))

-- Whether the pass ends does not depend on the structure.
abbrev one_value : Theory
one_value = record {
  Value = Unit;
  Array = Unit;
  of_int = λ n. tt;
  of_real = λ q. tt;
  of_bool = λ b. tt;
  plus = λ a b. tt;
  minus = λ a b. tt;
  times = λ a b. tt;
  quotient = λ a b. tt;
  remainder = λ a b. tt;
  negate = λ a. tt;
  read = λ a i. tt;
  write = λ a i x. tt;
  same = λ a b. true;
  below = λ a b. false;
  at_most = λ a b. true;
  same_array = λ a b. true;
}

done_eq : {A : Type 0} {x y : A} → done x ≡ done y → x ≡ y
done_eq h = cc

-- On a well-formed graph that has the assertion's node, over an order that holds every node behind
-- the sources of the edges into it that are not excluded, the pass ends without an error.
pub preliminary_states_total :
    (c : AbstractCfg) (site : AssertionSite) (ex reversed : List ℕ)
    → IsWellFormed c
    → known site.site_node c ≡ true
    → IsFullOrder c ex reversed
    → (d : Engine) × (preliminary_states c site ex reversed ≡ done d)
preliminary_states_total c site ex reversed w h o =
    let (d, x) = states-Covered c site ex reversed one_value w h o in (d, x.run)

-- Under the same conditions, and where no Boolean assignment changes a variable that a term of the
-- formula behind it reads, the state formula that the pass gives a node holds in every state from
-- which some path that avoids the excluded edges leads to a violation of the assertion.
pub preliminary_states_cover :
    (c : AbstractCfg) (site : AssertionSite) (ex reversed : List ℕ) (T : Theory) (d : Engine)
    (v : ℕ) (s : State T)
    → IsWellFormed c
    → known site.site_node c ≡ true
    → IsFullOrder c ex reversed
    → preliminary_states c site ex reversed ≡ done d
    → StatesAreFramed c site (λ v. state_at v d)
    → Violates c site ex T v s
    → holds T s (state_at v d) ≡ true
preliminary_states_cover c site ex reversed T d v s w h o run keep p =
    let (f, x) = states-Covered c site ex reversed T w h o in
    covers c site ex reversed T w o d
      (subst (Covered c site ex reversed T w) (done_eq (sym x.run ∙ run)) x) keep v s p
