-- ===== src/Cfg/Incoming.antt =====
-- src/cfg/abstract_cfg.rs: `incoming_edges`.
use may_must_rs.Base.{
  Bool-cases, List, [], arith, false, inl, inr, map, some, some-eq, subst, sym, true, ℕ, ◌==◌, ◌∷◌,
  ◌≡◌,
}
use may_must_rs.Base.Map.{IsAscending, Map, get, get-tail, member}
use may_must_rs.Cfg.Graph.{AbstractCfg, AbstractEdge, edge_values, incoming_edges, into}
use may_must_rs.Cfg.Kahn.{uncounted}
use may_must_rs.Cfg.WellFormed.{IsWellFormed}

-- An edge is stored under its own id.
abbrev pub OwnIds : Map AbstractEdge → Type 0
OwnIds m = (k : ℕ) (e : AbstractEdge) → get k m ≡ some e → e.id ≡ k

OwnIds-tail :
    (j : ℕ) (f : AbstractEdge) (m : Map AbstractEdge)
    → IsAscending ((j, f) ∷ m)
    → OwnIds ((j, f) ∷ m)
    → OwnIds m
OwnIds-tail j f m a o k e h = o k e (get-tail k j e f m a.0 h)

ids_into : ℕ → Map AbstractEdge → List ℕ
ids_into v m = map (λ e. e.id) (into v (edge_values m))

ids_into_sound :
    (v k : ℕ) (m : Map AbstractEdge)
    → IsAscending m
    → OwnIds m
    → member k (ids_into v m) ≡ true
    → (e : AbstractEdge) × (get k m ≡ some e) × (e.target ≡ v)
unfolding ids_into into edge_values member get
ids_into_sound v k [] a o h = cc
ids_into_sound v k ((j, f) ∷ m) a o h = elim (Bool-cases (f.target == v)) [
  | inr n ↦ deeper (ids_into_sound v k m a.1 (OwnIds-tail j f m a o) (rw n at h))
  | inl y ↦ elim (Bool-cases (f.id == k)) [
    | inr n ↦ deeper (ids_into_sound v k m a.1 (OwnIds-tail j f m a o) (rw n at (rw y at h)))
    | inl z ↦ (f, ground (arith, o j f), ground arith)
  ]
]
  where
    deeper :
        (e : AbstractEdge) × (get k m ≡ some e) × (e.target ≡ v)
        → (e : AbstractEdge) × (get k ((j, f) ∷ m) ≡ some e) × (e.target ≡ v)
    deeper r = (r.0, get-tail k j r.0 f m a.0 r.1, r.2)

ids_into_complete :
    (v k : ℕ) (e : AbstractEdge) (m : Map AbstractEdge)
    → OwnIds m
    → IsAscending m
    → get k m ≡ some e
    → e.target ≡ v
    → member k (ids_into v m) ≡ true
unfolding ids_into into edge_values member get
ids_into_complete v k e [] o a h t = cc
ids_into_complete v k e ((j, f) ∷ m) o a h t = elim (Bool-cases (j == k)) [
  | inl y ↦ first y (subst (λ g. g.target ≡ v) (sym (some-eq (rw y at h))) t)
  | inr n ↦ skip (ids_into_complete v k e m (OwnIds-tail j f m a o) a.1 (rw n at h) t)
]
  where
    first : (j == k) ≡ true → f.target ≡ v → member k (ids_into v ((j, f) ∷ m)) ≡ true
    first y z = ground (arith, o j f)

    skip : member k (ids_into v m) ≡ true → member k (ids_into v ((j, f) ∷ m)) ≡ true
    skip y = ground arith

pub incoming_edges_sound :
    (v k : ℕ) (c : AbstractCfg)
    → IsWellFormed c
    → member k (incoming_edges v c) ≡ true
    → (e : AbstractEdge) × (get k c.edges ≡ some e) × (e.target ≡ v)
unfolding incoming_edges ids_into
incoming_edges_sound v k c w h = ids_into_sound v k c.edges w.listed w.own_id h

pub incoming_edges_complete :
    (v k : ℕ) (e : AbstractEdge) (c : AbstractCfg)
    → IsWellFormed c
    → get k c.edges ≡ some e
    → e.target ≡ v
    → member k (incoming_edges v c) ≡ true
unfolding incoming_edges ids_into
incoming_edges_complete v k e c w h t = ids_into_complete v k e c.edges w.own_id w.listed h t

-- Where nothing is uncounted for `v`, the source of each edge into it that is not excluded is ordered.
pub source_ordered :
    (ex order : List ℕ) (v k : ℕ) (e : AbstractEdge) (m : Map AbstractEdge)
    → OwnIds m
    → IsAscending m
    → uncounted ex order (edge_values m) v ≡ 0
    → get k m ≡ some e
    → e.target ≡ v
    → member k ex ≡ false
    → member e.source order ≡ true
unfolding uncounted edge_values get
source_ordered ex order v k e [] o a p h t x = cc
source_ordered ex order v k e ((j, f) ∷ m) o a p h t x = elim (Bool-cases (j == k)) [
  | inl y ↦ here y (some-eq (rw y at h))
  | inr n ↦
      source_ordered ex order v k e m (OwnIds-tail j f m a o) a.1 (none_here p) (rw n at h) t x
]
  where
    here : (j == k) ≡ true → f ≡ e → member e.source order ≡ true
    here y q =
        subst (λ g. member g.source order ≡ true) q (at_f y (subst (λ g. g.target ≡ v) (sym q) t))
      where
        at_f : (j == k) ≡ true → f.target ≡ v → member f.source order ≡ true
        at_f y z = ground (arith, o j f)

    none_here :
        uncounted ex order (edge_values ((j, f) ∷ m)) v ≡ 0
        → uncounted ex order (edge_values m) v ≡ 0
    none_here q = ground arith
