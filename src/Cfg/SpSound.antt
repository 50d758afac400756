-- ===== src/Cfg/SpSound.antt =====
-- src/cfg/abstract_cfg.rs: `sp` against the runs of a block.
use may_must_rs.Base.{
  Bool, List, String, String-discrete, [], arith, false, refl, test, test_iff, true, ◌∙◌, ◌∷◌, ◌≡◌,
}
use may_must_rs.Cfg.Effect.{
  TransferEffect, TransferFn, assign, assume, call, havoc_memory, havoc_regions, indirect_call,
  load, memory_store, obligation, predicate, ptr_to_int, store_through, term, type_bound,
}
use may_must_rs.Cfg.Frame.{IgnoresMemory, IgnoresVar, holds-IgnoresMemory, holds-IgnoresVar, is_var}
use may_must_rs.Cfg.Mention.{formula_mentions_region}
use may_must_rs.Cfg.MentionLaws.{holds-not_mentioned}
use may_must_rs.Cfg.Run.{
  Run, Step, after, assigned, assigns, assumes, bounded, casts, havocs, havocs_none, loads, meets,
  overwrites, passes, stop, writes,
}
use may_must_rs.Cfg.Transfer.{sp, sp_one}
use may_must_rs.Formula.Build.{mk_and, mk_implies}
use may_must_rs.Formula.Data.{Formula, Var, Var-discrete, eq, prop, var}
use may_must_rs.Formula.Meaning.{holds-mk_and, holds-mk_implies}
use may_must_rs.Formula.Occurs.{Agree, holds-Agree, nowhere, occurs, occurs_term, value-Agree}
use may_must_rs.Formula.Theory.{State, Theory, holds, set_number, set_truth, value}

abbrev is_region : String → String → Bool
is_region target name = test (String-discrete name target)

abbrev AreUnmentioned : List String → Formula → Type 0
AreUnmentioned [] pre = Unit
AreUnmentioned (r ∷ rs) pre = (formula_mentions_region r pre ≡ false) × AreUnmentioned rs pre

-- An assigned variable occurs neither in what is known nor in what is assigned, as in SSA form, nor
-- does the target of an unresolved load or cast; a region that is written or havocked does not
-- occur in what is known, and no region does where an effect may write any.
abbrev pub IsNew : TransferEffect → Formula → Type 0
IsNew (assign v (term e)) pre =
    (occurs (is_var v) nowhere nowhere pre ≡ false)
    × (occurs_term (is_var v) nowhere nowhere e ≡ false)
IsNew (assign v (predicate p)) pre =
    (occurs nowhere (is_var v) nowhere pre ≡ false) × (occurs nowhere (is_var v) nowhere p ≡ false)
IsNew (memory_store r _ _) pre = formula_mentions_region r pre ≡ false
IsNew (havoc_regions rs) pre = AreUnmentioned rs pre
IsNew (load v _) pre = IgnoresVar v pre
IsNew (ptr_to_int v _) pre = IgnoresVar v pre
IsNew (store_through _ _) pre = IgnoresMemory pre
IsNew (call _ havoc_memory) pre = IgnoresMemory pre
IsNew (indirect_call _ havoc_memory) pre = IgnoresMemory pre
IsNew _ pre = Unit

abbrev pub AreNew : TransferFn → Formula → Type 0
AreNew [] pre = Unit
AreNew (e ∷ es) pre = IsNew e pre × AreNew es (sp_one e pre)

module _ (T : Theory) where
  Agree-number :
      (s : State T) (v : Var) (x : T.Value)
      → Agree T (is_var v) nowhere nowhere (set_number s v x) s
  unfolding set_number
  Agree-number s v x = record {
    numbers = λ u h. rw h;
    truths = λ u h. refl;
    memories = λ u h. refl;
  }

  Agree-truth :
      (s : State T) (v : Var) (x : Bool) → Agree T nowhere (is_var v) nowhere (set_truth s v x) s
  unfolding set_truth
  Agree-truth s v x = record { numbers = λ u h. refl; truths = λ u h. rw h; memories = λ u h. refl }

  number-set_number : (s : State T) (v : Var) (x : T.Value) → (set_number s v x).number v ≡ x
  unfolding set_number
  number-set_number s v x = ground (arith, test_iff (Var-discrete v v))

  truth-set_truth : (s : State T) (v : Var) (x : Bool) → (set_truth s v x).truth v ≡ x
  unfolding set_truth
  truth-set_truth s v x = ground (arith, test_iff (Var-discrete v v))

  holds-havocked :
      (rs : List String) (pre : Formula) {s t : State T}
      → AreUnmentioned rs pre
      → Step T (havoc_regions rs) s t
      → holds T s pre ≡ true
      → holds T t pre ≡ true
  holds-havocked [] pre n (havocs_none s) h = h
  holds-havocked [] pre n (passes _ s e) h = cc
  holds-havocked [] pre n (overwrites _ m s e) h = cc
  holds-havocked (r ∷ rs) pre n (havocs _ _ a s t st) h =
      holds-not_mentioned t r a pre n.0 ∙ holds-havocked rs pre n.1 st h
  holds-havocked (r ∷ rs) pre n (passes _ s e) h = cc
  holds-havocked (r ∷ rs) pre n (overwrites _ m s e) h = cc

  module _ (same_refl : (x : T.Value) → T.same x x ≡ true) where
    sp_one-Step :
        (e : TransferEffect) (pre : Formula) {s t : State T}
        → IsNew e pre
        → Step T e s t
        → holds T s pre ≡ true
        → holds T t (sp_one e pre) ≡ true
    unfolding sp_one assigned holds
    sp_one-Step (assign v (term e)) pre n (assigns _ _ s) h =
        let t = set_number s v (value T s e) in
        ground (
          arith,
          holds-mk_and T t pre (eq (var v) e),
          holds-Agree T (is_var v) nowhere nowhere t s (Agree-number s v (value T s e)) pre n.0,
          value-Agree T (is_var v) nowhere nowhere t s (Agree-number s v (value T s e)) e n.1,
          number-set_number s v (value T s e),
          same_refl (value T s e),
        )
    sp_one-Step (assign v (predicate p)) pre n (assigns _ _ s) h =
        let t = set_truth s v (holds T s p) in
        ground (
          arith,
          holds-mk_and T t pre (mk_and (mk_implies (prop v) p) (mk_implies p (prop v))),
          holds-mk_and T t (mk_implies (prop v) p) (mk_implies p (prop v)),
          holds-mk_implies T t (prop v) p,
          holds-mk_implies T t p (prop v),
          holds-Agree T nowhere (is_var v) nowhere t s (Agree-truth s v (holds T s p)) pre n.0,
          holds-Agree T nowhere (is_var v) nowhere t s (Agree-truth s v (holds T s p)) p n.1,
          truth-set_truth s v (holds T s p),
        )
    sp_one-Step (assume c) pre n (assumes _ s hc) h = ground (arith, holds-mk_and T s pre c)
    sp_one-Step (obligation c) pre n (meets _ s hc) h = ground (arith, holds-mk_and T s pre c)
    sp_one-Step (type_bound c) pre n (bounded _ s hc) h = ground (arith, holds-mk_and T s pre c)
    sp_one-Step (memory_store r o v) pre n (writes _ _ _ s) h =
        holds-not_mentioned s r (T.write (s.memory r) (value T s o) (value T s v)) pre n ∙ h
    sp_one-Step (havoc_regions rs) pre n st h = holds-havocked rs pre n st h
    sp_one-Step (load v p) pre n (loads _ _ x b s) h = holds-IgnoresVar T s v x b pre n ∙ h
    sp_one-Step (ptr_to_int v p) pre n (casts _ _ x b s) h = holds-IgnoresVar T s v x b pre n ∙ h
    sp_one-Step (store_through t v) pre n (overwrites _ m s e) h =
        holds-IgnoresMemory T s m pre n ∙ h
    sp_one-Step (call f havoc_memory) pre n (overwrites _ m s e) h =
        holds-IgnoresMemory T s m pre n ∙ h
    sp_one-Step (indirect_call f havoc_memory) pre n (overwrites _ m s e) h =
        holds-IgnoresMemory T s m pre n ∙ h
    sp_one-Step _ pre n (overwrites _ m s e) h = ground arith
    sp_one-Step _ pre n (passes _ s e) h = ground arith

    sp-Run :
        (es : TransferFn) (pre : Formula) {s t : State T}
        → AreNew es pre
        → Run T es s t
        → holds T s pre ≡ true
        → holds T t (sp es pre) ≡ true
    unfolding sp
    sp-Run [] pre n (stop s) h = h
    sp-Run (e ∷ es) pre n (after _ _ _ _ _ st r) h =
        sp-Run es (sp_one e pre) n.1 r (sp_one-Step e pre n.0 st h)

-- In a structure whose equality test is reflexive, a run of the block from a state that satisfies
-- `pre` ends in a state that satisfies the strongest postcondition, if each variable that the block
-- assigns is new (it occurs neither in what is known before nor in the assigned value), as is the
-- target of an unresolved load or cast, each region that it writes or havocs is not mentioned
-- before, and no region is mentioned before an unresolved store or a call with HavocMemory.
pub sp_sound :
    (T : Theory) (es : TransferFn) (pre : Formula) (s t : State T)
    → ((x : T.Value) → T.same x x ≡ true)
    → AreNew es pre
    → Run T es s t
    → holds T s pre ≡ true
    → holds T t (sp es pre) ≡ true
sp_sound T es pre s t same_refl n r h = sp-Run T same_refl es pre n r h
