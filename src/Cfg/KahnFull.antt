-- ===== src/Cfg/KahnFull.antt =====
-- src/cfg/abstract_cfg.rs: which nodes the topological sort orders.
use may_must_rs.Base.{
  ==_iff, Bool-cases, List, Option-cases, [], arith, bool_not, if◌then◌else◌, inl, inr, none, some,
  some-eq, subst, suc, true, zero, ℕ, ◌&&◌, ◌==◌, ◌∷◌, ◌≡◌,
}
use may_must_rs.Base.Distinct.{AreIn, Distinct}
use may_must_rs.Base.Map.{Map, get, insert, member}
use may_must_rs.Cfg.Graph.{AbstractEdge, node}
use may_must_rs.Cfg.Kahn.{IsLayered}
use may_must_rs.Cfg.Order.{drain, ordered, panics, release}

-- Every edge ends at a node of the list.
abbrev pub TargetsIn : List AbstractEdge → List ℕ → Type 0
TargetsIn [] ids = Unit
TargetsIn (e ∷ es) ids = (member e.target ids ≡ true) × TargetsIn es ids

pub IsLayered-Distinct :
    (ex : List ℕ) (es : List AbstractEdge) (xs : List ℕ) → IsLayered ex es xs → Distinct xs
unfolding IsLayered
IsLayered-Distinct ex es [] l = tt
IsLayered-Distinct ex es (x ∷ xs) (p, n, l) = (n, IsLayered-Distinct ex es xs l)

-- A round over an edge that is followed.
release-inside :
    (ex : List ℕ) (node : ℕ) (e : AbstractEdge) (es : List AbstractEdge) (m : Map ℕ)
    (stack : List ℕ) (p : Map ℕ × List ℕ)
    → (e.source == node && bool_not (member e.id ex)) ≡ true
    → release node ex (e ∷ es) m stack ≡ some p
    → (d : ℕ) × (release node ex es
          (insert e.target d m)
          (if d == 0 then e.target ∷ stack else stack)
        ≡ some p)
unfolding release
release-inside ex node e es m stack p y h = elim (Option-cases (get e.target m)) [
  | inl n ↦ absurd (none_ne (rw (y, n, release) at h))
  | inr (d, g) ↦ by_degree d g
]
  where
    none_ne : none ≡ some p → ⊥
    none_ne q = cc

    by_degree :
        (d : ℕ)
        → get e.target m ≡ some d
        → (d : ℕ) × (release node ex es
              (insert e.target d m)
              (if d == 0 then e.target ∷ stack else stack)
            ≡ some p)
    by_degree zero g = absurd (none_ne (rw (y, g, release) at h))
    by_degree (suc d) g = (d, rw (y, g, release) at h)

pushed-AreIn :
    (d x : ℕ) (stack ids : List ℕ)
    → member x ids ≡ true
    → AreIn stack ids
    → AreIn (if d == 0 then x ∷ stack else stack) ids
unfolding member
pushed-AreIn d x stack ids h i v m = ground (arith, i v, ==_iff x v)

release-AreIn :
    (ids ex : List ℕ) (node : ℕ) (es : List AbstractEdge) (m : Map ℕ) (stack : List ℕ)
    (p : Map ℕ × List ℕ)
    → TargetsIn es ids
    → AreIn stack ids
    → release node ex es m stack ≡ some p
    → AreIn p.1 ids
unfolding release
release-AreIn ids ex node [] m stack p t i h =
    subst (λ (q : Map ℕ × List ℕ). AreIn q.1 ids) (some-eq h) i
release-AreIn ids ex node (e ∷ es) m stack p t i h =
    elim (Bool-cases (e.source == node && bool_not (member e.id ex))) [
      | inr n ↦ release-AreIn ids ex node es m stack p t.1 i (rw (n, release) at h)
      | inl y ↦
          let (d, run) = release-inside ex node e es m stack p y h in
          release-AreIn ids ex node es (insert e.target d m)
            (if d == 0 then e.target ∷ stack else stack) p t.1
            (pushed-AreIn d e.target stack ids t.0 i) run
    ]

panics_ne : {r : List ℕ} → panics ≡ ordered r → ⊥
panics_ne h = cc

ordered_eq : {q r : List ℕ} → ordered q ≡ ordered r → q ≡ r
ordered_eq h = cc

pub drain-AreIn :
    (fuel : ℕ) (ids ex : List ℕ) (es : List AbstractEdge) (m : Map ℕ) (stack order r : List ℕ)
    → TargetsIn es ids
    → AreIn stack ids
    → AreIn order ids
    → drain fuel ex es m stack order ≡ ordered r
    → AreIn r ids
unfolding drain member
drain-AreIn zero ids ex es m [] order r t s o h = subst (λ q. AreIn q ids) (ordered_eq h) o
drain-AreIn (suc fuel) ids ex es m [] order r t s o h = subst (λ q. AreIn q ids) (ordered_eq h) o
drain-AreIn zero ids ex es m (node ∷ stack) order r t s o h = absurd (panics_ne h)
drain-AreIn (suc fuel) ids ex es m (node ∷ stack) order r t s o h =
    elim (Option-cases (release node ex es m stack)) [
      | inl n ↦ absurd (panics_ne (rw (n, drain) at h))
      | inr (p, run) ↦
          drain-AreIn fuel ids ex es p.0 p.1 (node ∷ order) r t
            (release-AreIn ids ex node es m stack p t (λ v k. s v (ground arith)) run)
            (λ v k. ground (arith, o v, s node, ==_iff node v)) (rw (run, drain) at h)
    ]
