-- ===== src/Cfg/Kahn.antt =====
-- Kahn's algorithm never panics, ends, and orders every edge that is not excluded.
use may_must_rs.Base.{
  ==_iff, Bool, Bool-cases, List, [], arith, bool_not, false, if◌then◌else◌, inl, inr, length, refl,
  some, some-eq, suc, sym, true, zero, ℕ, ◌&&◌, ◌+◌, ◌-◌, ◌==◌, ◌∙◌, ◌∷◌, ◌≡◌, ◌≤◌, ◌⊎◌,
}
use may_must_rs.Base.Distinct.{Distinct}
use may_must_rs.Base.Map.{Map, get, get-insert, insert, member}
use may_must_rs.Cfg.Graph.{AbstractEdge, node}
use may_must_rs.Cfg.Order.{drain, ordered, release}

abbrev pub counts_for : List ℕ → List ℕ → AbstractEdge → ℕ → Bool
counts_for ex order e v =
    e.target == v && bool_not (member e.id ex) && bool_not (member e.source order)

-- The edges into `v`, not excluded, whose source is not yet ordered.
unfoldable pub uncounted : List ℕ → List ℕ → List AbstractEdge → ℕ → ℕ
uncounted ex order [] v = 0
uncounted ex order (e ∷ es) v =
    if counts_for ex order e v then suc (uncounted ex order es v) else uncounted ex order es v

-- In a reversed order, the sources of the edges into a node stand behind it, and no node twice.
unfoldable pub IsLayered : List ℕ → List AbstractEdge → List ℕ → Type 0
IsLayered ex es [] = Unit
IsLayered ex es (v ∷ rest) =
    (uncounted ex rest es v ≡ 0) × (member v rest ≡ false) × IsLayered ex es rest

abbrev pub IsKey : ℕ → Map ℕ → Type 0
IsKey v m = (d : ℕ) × (get v m ≡ some d)

abbrev pub TargetsAreKeys : List AbstractEdge → Map ℕ → Type 0
TargetsAreKeys [] m = Unit
TargetsAreKeys (e ∷ es) m = IsKey e.target m × TargetsAreKeys es m

-- The edges from `node` to `v`, not excluded.
leaving : List ℕ → ℕ → List AbstractEdge → ℕ → ℕ
leaving ex node [] v = 0
leaving ex node (e ∷ es) v =
    if e.source == node && bool_not (member e.id ex) && (e.target == v)
    then suc (leaving ex node es v)
    else leaving ex node es v

-- Ordering a node settles the edges that leave it.
uncounted-split :
    (ex order : List ℕ) (node : ℕ) (es : List AbstractEdge) (v : ℕ)
    → member node order ≡ false
    → uncounted ex order es v ≡ uncounted ex (node ∷ order) es v + leaving ex node es v
unfolding uncounted leaving member
uncounted-split ex order node [] v n = omega arith
uncounted-split ex order node (e ∷ es) v n =
    ground (arith, uncounted-split ex order node es v, ==_iff e.source node)

-- The state of the loop over the edges `es` of a released node; `k` counts what stays, and
-- `behind` are the nodes that are ordered.
record Inv (k : ℕ → ℕ) (ex : List ℕ) (node : ℕ) (behind : List ℕ) (es : List AbstractEdge)
    (m : Map ℕ) (stack : List ℕ) : Type 0 where
  counts : (v d : ℕ) → get v m ≡ some d → d ≡ k v + leaving ex node es v
  in_stack : (v : ℕ) → member v stack ≡ true → get v m ≡ some 0
  in_order : (v : ℕ) → member v behind ≡ true → get v m ≡ some 0
  apart : (v : ℕ) → member v stack ≡ true → member v behind ≡ false
  distinct : Distinct stack

-- What has degree 0 is not the target whose degree is positive.
not-member :
    (vs : List ℕ) (v d : ℕ) (m : Map ℕ)
    → ((u : ℕ) → member u vs ≡ true → get u m ≡ some 0)
    → get v m ≡ some (suc d)
    → member v vs ≡ false
not-member vs v d m h g = elim (Bool-cases (member v vs)) [
  | inr f ↦ f
  | inl t ↦ absurd (omega (arith, some-eq (sym (h v t) ∙ g)))
]

-- An edge of the released node: its target loses one, and is pushed at 0.
Inv-edge :
    (k : ℕ → ℕ) (ex : List ℕ) (node : ℕ) (behind : List ℕ) (e : AbstractEdge)
    (es : List AbstractEdge) (m : Map ℕ) (stack : List ℕ) (d : ℕ)
    → e.source ≡ node
    → member e.id ex ≡ false
    → get e.target m ≡ some (suc d)
    → Inv k ex node behind (e ∷ es) m stack
    → Inv k ex node behind es (insert e.target d m) (if d == 0 then e.target ∷ stack else stack)
unfolding leaving member
Inv-edge k ex node behind e es m stack d s x g i =
    let f = not-member stack e.target d m i.in_stack g in
    let b = not-member behind e.target d m i.in_order g in
    record {
      counts = λ v c h. ground (arith, get-insert e.target v d m, i.counts v (suc d), i.counts v c);
      in_stack = λ v h. ground (arith, get-insert e.target v d m, i.in_stack v);
      in_order = λ v h. ground (arith, get-insert e.target v d m, i.in_order v h);
      apart = λ v h. ground (arith, i.apart v);
      distinct = distinct_or f;
    }
  where
    distinct_or :
        member e.target stack ≡ false → Distinct (if d == 0 then e.target ∷ stack else stack)
    distinct_or f = elim (Bool-cases (d == 0)) [
      | inl y ↦ rw y (f, i.distinct)
      | inr n ↦ rw n i.distinct
    ]

-- Another edge changes nothing.
Inv-skip :
    (k : ℕ → ℕ) (ex : List ℕ) (node : ℕ) (behind : List ℕ) (e : AbstractEdge)
    (es : List AbstractEdge) (m : Map ℕ) (stack : List ℕ)
    → (e.source == node && bool_not (member e.id ex)) ≡ false
    → Inv k ex node behind (e ∷ es) m stack
    → Inv k ex node behind es m stack
unfolding leaving
Inv-skip k ex node behind e es m stack h i = record {
  counts = λ v d g. ground (arith, i.counts v d);
  in_stack = i.in_stack;
  in_order = i.in_order;
  apart = i.apart;
  distinct = i.distinct;
}

pub TargetsAreKeys-insert :
    (es : List AbstractEdge) (w d : ℕ) (m : Map ℕ)
    → TargetsAreKeys es m
    → TargetsAreKeys es (insert w d m)
TargetsAreKeys-insert [] w d m t = tt
TargetsAreKeys-insert (e ∷ es) w d m t =
    (key (Bool-cases (w == e.target)), TargetsAreKeys-insert es w d m t.1)
  where
    key : ((w == e.target) ≡ true) ⊎ ((w == e.target) ≡ false) → IsKey e.target (insert w d m)
    key (inl y) = (d, get-insert w e.target d m ∙ ground arith)
    key (inr n) = (t.0.0, get-insert w e.target d m ∙ ground arith)

positive :
    (k : ℕ → ℕ) (ex : List ℕ) (node : ℕ) (behind : List ℕ) (e : AbstractEdge)
    (es : List AbstractEdge) (m : Map ℕ) (stack : List ℕ) (c : ℕ)
    → get e.target m ≡ some c
    → Inv k ex node behind (e ∷ es) m stack
    → (e.source == node && bool_not (member e.id ex)) ≡ true
    → (get e.target m ≡ some (suc (c - 1))) × (e.source ≡ node) × (member e.id ex ≡ false)
unfolding leaving
positive k ex node behind e es m stack c g i y =
    let count = i.counts e.target c g in (ground arith, ground arith, ground arith)

-- The edges that leave a node, and those that leave nodes not yet ordered: the work that is left.
out_edges : List ℕ → ℕ → List AbstractEdge → ℕ
out_edges ex node [] = 0
out_edges ex node (e ∷ es) =
    if e.source == node && bool_not (member e.id ex)
    then suc (out_edges ex node es)
    else out_edges ex node es

pub open_edges : List ℕ → List ℕ → List AbstractEdge → ℕ
open_edges ex order [] = 0
open_edges ex order (e ∷ es) =
    if bool_not (member e.id ex) && bool_not (member e.source order)
    then suc (open_edges ex order es)
    else open_edges ex order es

open_edges-split :
    (ex order : List ℕ) (node : ℕ) (es : List AbstractEdge)
    → member node order ≡ false
    → open_edges ex order es ≡ open_edges ex (node ∷ order) es + out_edges ex node es
unfolding open_edges out_edges member
open_edges-split ex order node [] n = omega arith
open_edges-split ex order node (e ∷ es) n =
    ground (arith, open_edges-split ex order node es, ==_iff e.source node)

pub open_edges-le :
    (ex order : List ℕ) (es : List AbstractEdge) → open_edges ex order es ≤ length es
unfolding open_edges
open_edges-le ex order [] = omega arith
open_edges-le ex order (e ∷ es) = ground (arith, open_edges-le ex order es)

release-Inv :
    (k : ℕ → ℕ) (ex : List ℕ) (node : ℕ) (behind : List ℕ) (all es : List AbstractEdge) (m : Map ℕ)
    (stack : List ℕ)
    → TargetsAreKeys es m
    → TargetsAreKeys all m
    → Inv k ex node behind es m stack
    → (m' : Map ℕ) × (stack' : List ℕ) × (release node ex es m stack ≡ some (m', stack'))
      × (length stack' ≤ length stack + out_edges ex node es)
      × TargetsAreKeys all m'
      × Inv k ex node behind [] m' stack'
unfolding release out_edges
release-Inv k ex node behind all [] m stack t ta i = (m, stack, refl, omega arith, ta, i)
release-Inv k ex node behind all (e ∷ es) m stack t ta i =
    elim (Bool-cases (e.source == node && bool_not (member e.id ex))) [
      | inr n ↦
          let (m', stack', run, bound, ta', i') =
            release-Inv k ex node behind all es m stack t.1 ta
              (Inv-skip k ex node behind e es m stack n i) in
          (m', stack', rw (n, release) run, rw (n, out_edges) bound, ta', i')
      | inl y ↦
          let d = t.0.0 - 1 in
          let (g, s, x) = positive k ex node behind e es m stack t.0.0 t.0.1 i y in
          let (m', stack', run, bound, ta', i') =
            release-Inv k ex node behind all es (insert e.target d m)
              (if d == 0 then e.target ∷ stack else stack)
              (TargetsAreKeys-insert es e.target d m t.1)
              (TargetsAreKeys-insert all e.target d m ta)
              (Inv-edge k ex node behind e es m stack d s x g i) in
          (m', stack', rw (y, g, release) run, rw (y, out_edges) (ground arith), ta', i')
    ]

-- Between two rounds of the outer loop.
pub record Ready (ex order : List ℕ) (es : List AbstractEdge) (m : Map ℕ) (stack : List ℕ)
    : Type 0 where
  pub counts : (v d : ℕ) → get v m ≡ some d → d ≡ uncounted ex order es v
  pub in_stack : (v : ℕ) → member v stack ≡ true → get v m ≡ some 0
  pub in_order : (v : ℕ) → member v order ≡ true → get v m ≡ some 0
  pub apart : (v : ℕ) → member v stack ≡ true → member v order ≡ false
  pub distinct : Distinct stack
  pub layered : IsLayered ex es order

Ready-pop :
    (ex order : List ℕ) (es : List AbstractEdge) (m : Map ℕ) (node : ℕ) (stack : List ℕ)
    → Ready ex order es m (node ∷ stack)
    → Inv (uncounted ex (node ∷ order) es) ex node (node ∷ order) es m stack
unfolding member
Ready-pop ex order es m node stack r =
    let n : member node order ≡ false = r.apart node (ground arith) in
    record {
      counts = λ v d g. r.counts v d g ∙ uncounted-split ex order node es v n;
      in_stack = λ v h. r.in_stack v (ground arith);
      in_order = λ v h. ground (arith, r.in_order v, r.in_stack node);
      apart = λ v h. ground (arith, r.apart v, r.distinct.0);
      distinct = r.distinct.1;
    }

pub drain-IsLayered :
    (fuel : ℕ) (ex : List ℕ) (es : List AbstractEdge) (m : Map ℕ) (stack order : List ℕ)
    → length stack + open_edges ex order es ≤ fuel
    → TargetsAreKeys es m
    → Ready ex order es m stack
    → (result : List ℕ) × (drain fuel ex es m stack order ≡ ordered result) × IsLayered ex es result
unfolding drain member leaving IsLayered
drain-IsLayered zero ex es m [] order f t r = (order, refl, r.layered)
drain-IsLayered (suc fuel) ex es m [] order f t r = (order, refl, r.layered)
drain-IsLayered zero ex es m (node ∷ stack) order f t r = absurd (omega arith)
drain-IsLayered (suc fuel) ex es m (node ∷ stack) order f t r =
    let n : member node order ≡ false = r.apart node (ground arith) in
    let (m', stack', run, bound, t', i) =
      release-Inv (uncounted ex (node ∷ order) es) ex node (node ∷ order) es es m stack t t
        (Ready-pop ex order es m node stack r) in
    let next : Ready ex (node ∷ order) es m' stack' = record {
      counts = λ v d g. omega (arith, i.counts v d g);
      in_stack = i.in_stack;
      in_order = i.in_order;
      apart = i.apart;
      distinct = i.distinct;
      layered = (sym (r.counts node 0 (r.in_stack node (ground arith))), n, r.layered);
    } in
    let (result, ends, layers) =
      drain-IsLayered fuel ex es m' stack' (node ∷ order)
        (omega (arith, open_edges-split ex order node es n)) t' next in
    (result, rw (run, drain) ends, layers)
