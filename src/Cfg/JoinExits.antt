-- ===== src/Cfg/JoinExits.antt =====
-- src/cfg/abstract_cfg.rs: the loop of `ensure_single_exit` that joins the marked exits.
use may_must_rs.Base.{
  ==_iff, Bool-cases, List, [], arith, if◌then◌else◌, inl, inr, refl, some, subst, true, ℕ, ◌+◌,
  ◌==◌, ◌∙◌, ◌∷◌, ◌≡◌,
}
use may_must_rs.Base.Map.{get, get-insert, insert, member}
use may_must_rs.Cfg.EdgeLaws.{StaysWellFormedWith, add_edge-IsWellFormed}
use may_must_rs.Cfg.Graph.{AbstractCfg, AbstractEdge, add_edge, join_exits, known, ok}
use may_must_rs.Cfg.WellFormed.{IsWellFormed}
use may_must_rs.Formula.Data.{verum}

-- An unconditional edge with no effect.
abbrev pub Link : AbstractCfg → ℕ → ℕ → Type 0
Link c a b =
    (i : ℕ) × (e : AbstractEdge) × (get i c.edges ≡ some e)
    × ((e.source ≡ a) × (e.target ≡ b) × (e.guard ≡ verum) × (e.effects ≡ []))

-- The graph after a loop over `xs` that adds edges to `x`.
pub record Joined (xs : List ℕ) (x : ℕ) (c d : AbstractCfg) : Type 0 where
  pub well_formed : IsWellFormed d
  pub same_nodes : d.nodes ≡ c.nodes
  pub same_exits : d.concrete_exits ≡ c.concrete_exits
  pub links : (k : ℕ) → member k xs ≡ true → Link d k x
  pub kept : (i : ℕ) (e : AbstractEdge) → get i c.edges ≡ some e → get i d.edges ≡ some e

abbrev JoinEdge : AbstractCfg → ℕ → ℕ → AbstractEdge
JoinEdge c a b = record { id = c.next_edge; source = a; target = b; guard = verum; effects = [] }

abbrev with_edge : AbstractCfg → ℕ → ℕ → AbstractCfg
with_edge c a b = record c {
  edges = insert c.next_edge (JoinEdge c a b) c.edges;
  next_edge = c.next_edge + 1;
}

pub add_edge-ok :
    (c : AbstractCfg) (a b : ℕ)
    → known a c ≡ true
    → known b c ≡ true
    → add_edge a b verum [] c ≡ ok (with_edge c a b, c.next_edge)
unfolding add_edge
add_edge-ok c a b ha hb = rw (ha, hb)

pub get-with_edge :
    (c : AbstractCfg) (a b i : ℕ) (e : AbstractEdge)
    → IsWellFormed c
    → get i c.edges ≡ some e
    → get i (with_edge c a b).edges ≡ some e
get-with_edge c a b i e w h =
    ground (arith, get-insert c.next_edge i (JoinEdge c a b) c.edges, w.new_edge i e)

pub with_edge-IsWellFormed :
    (c : AbstractCfg) (a b : ℕ)
    → known a c ≡ true
    → known b c ≡ true
    → IsWellFormed c
    → IsWellFormed (with_edge c a b)
with_edge-IsWellFormed c a b ha hb w =
    subst StaysWellFormedWith (add_edge-ok c a b ha hb) (add_edge-IsWellFormed a b verum [] c w)

pub known-same : (c d : AbstractCfg) (k : ℕ) → d.nodes ≡ c.nodes → known k d ≡ known k c
unfolding known
known-same c d k e = rw e

pub join_exits-Joined :
    (xs : List ℕ) (x : ℕ) (c : AbstractCfg)
    → IsWellFormed c
    → known x c ≡ true
    → ((k : ℕ) → member k xs ≡ true → known k c ≡ true)
    → (d : AbstractCfg) × (join_exits xs x c ≡ ok d) × Joined xs x c d
unfolding join_exits member
join_exits-Joined [] x c w hx h = (
  c,
  refl,
  record {
    well_formed = w;
    same_nodes = refl;
    same_exits = refl;
    links = λ k m. cc;
    kept = λ i e g. g;
  },
)
join_exits-Joined (a ∷ xs) x c w hx h =
    let ha : known a c ≡ true = h a (ground arith) in
    let c1 = with_edge c a x in
    let w1 = with_edge-IsWellFormed c a x ha hx w in
    let (d, run, j) =
      join_exits-Joined xs x c1 w1 (known-same c c1 x refl ∙ hx)
        (λ k m. known-same c c1 k refl ∙ h k (ground arith)) in
    (
      d,
      rw (add_edge-ok c a x ha hx, join_exits) run,
      record {
        well_formed = j.well_formed;
        same_nodes = j.same_nodes;
        same_exits = j.same_exits;
        links = λ k m. linked c1 d j k m;
        kept = λ i e g. j.kept i e (get-with_edge c a x i e w g);
      },
    )
  where
    first : (d : AbstractCfg) → Joined xs x (with_edge c a x) d → Link d a x
    first d j = (
      c.next_edge,
      JoinEdge c a x,
      j.kept c.next_edge (JoinEdge c a x)
          (ground (arith, get-insert c.next_edge c.next_edge (JoinEdge c a x) c.edges)),
      (refl, refl, refl, refl),
    )

    linked :
        (c1 d : AbstractCfg)
        → Joined xs x (with_edge c a x) d
        → (k : ℕ) → (if a == k then true else member k xs) ≡ true
        → Link d k x
    linked c1 d j k m = elim (Bool-cases (a == k)) [
      | inl y ↦ subst (λ (z : ℕ). Link d z x) ((==_iff a k).0 y) (first d j)
      | inr n ↦ j.links k (rw n at m)
    ]
