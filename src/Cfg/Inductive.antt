-- ===== src/Cfg/Inductive.antt =====
-- src/cfg/abstract_cfg.rs: `wp_inductive` against the runs of a block.
use may_must_rs.Base.{[], arith, sym, true, ◌∙◌, ◌∷◌, ◌≡◌}
use may_must_rs.Cfg.BoolSubstitute.{holds-substitute_bool_var}
use may_must_rs.Cfg.Effect.{
  TransferEffect, TransferFn, assign, assume, call, havoc_memory, havoc_regions, indirect_call,
  load, memory_store, obligation, predicate, ptr_to_int, store_through, term, type_bound,
}
use may_must_rs.Cfg.Frame.{IsFramed, holds-IgnoresMemory, holds-IgnoresVar}
use may_must_rs.Cfg.Run.{
  Run, Step, after, assigned, assigns, assumes, bounded, casts, loads, meets, overwrites, passes,
  stop, writes,
}
use may_must_rs.Cfg.SubstituteMeaning.{holds-substitute_region, holds-substitute_var}
use may_must_rs.Cfg.Transfer.{wp_inductive, wp_one, wp_one_inductive}
use may_must_rs.Formula.Data.{Formula, region, store}
use may_must_rs.Formula.Meaning.{holds-mk_and, holds-mk_implies}
use may_must_rs.Formula.Theory.{State, Theory, holds}

-- Every effect but `havoc_regions`, whose conjuncts `wp_one_inductive` drops.
abbrev pub HavocsNothing : TransferFn → Type 0
HavocsNothing [] = Unit
HavocsNothing (havoc_regions _ ∷ es) = ⊥
HavocsNothing (e ∷ es) = HavocsNothing es

abbrev pub AreFramedInductively : TransferFn → Formula → Type 0
AreFramedInductively [] post = Unit
AreFramedInductively (e ∷ es) post =
    IsFramed e (wp_inductive es post) × AreFramedInductively es post

module _ (T : Theory) where
  wp_one_inductive-Step :
      (e : TransferEffect) (post : Formula) {s t : State T}
      → HavocsNothing (e ∷ [])
      → IsFramed e post
      → Step T e s t
      → holds T s (wp_one_inductive e post) ≡ true
      → holds T t post ≡ true
  unfolding wp_one_inductive wp_one assigned holds
  wp_one_inductive-Step (assign v (term x)) post n k (assigns _ _ s) h =
      sym (holds-substitute_var T s v x post) ∙ h
  wp_one_inductive-Step (assign v (predicate p)) post n k (assigns _ _ s) h =
      sym (holds-substitute_bool_var T s v p post k) ∙ h
  wp_one_inductive-Step (assume c) post n k (assumes _ s hc) h =
      ground (arith, holds-mk_implies T s c post)
  wp_one_inductive-Step (obligation c) post n k (meets _ s hc) h =
      ground (arith, holds-mk_and T s c post)
  wp_one_inductive-Step (type_bound c) post n k (bounded _ s hc) h = h
  wp_one_inductive-Step (memory_store r o v) post n k (writes _ _ _ s) h =
      sym (holds-substitute_region T s r (store (region r) o v) post) ∙ h
  wp_one_inductive-Step (havoc_regions rs) post n k st h = absurd n
  wp_one_inductive-Step (load v p) post n k (loads _ _ x b s) h =
      holds-IgnoresVar T s v x b post k ∙ h
  wp_one_inductive-Step (ptr_to_int v p) post n k (casts _ _ x b s) h =
      holds-IgnoresVar T s v x b post k ∙ h
  wp_one_inductive-Step (store_through t v) post n k (overwrites _ m s e) h =
      holds-IgnoresMemory T s m post k ∙ h
  wp_one_inductive-Step (call f havoc_memory) post n k (overwrites _ m s e) h =
      holds-IgnoresMemory T s m post k ∙ h
  wp_one_inductive-Step (indirect_call f havoc_memory) post n k (overwrites _ m s e) h =
      holds-IgnoresMemory T s m post k ∙ h
  wp_one_inductive-Step _ post n k (overwrites _ m s e) h = ground arith
  wp_one_inductive-Step _ post n k (passes _ s e) h = ground arith

  pub head_free :
      (e : TransferEffect) (es : TransferFn)
      → HavocsNothing (e ∷ es)
      → HavocsNothing (e ∷ []) × HavocsNothing es
  head_free (havoc_regions _) es h = absurd h
  head_free (assign _ _) es h = (tt, h)
  head_free _ es h = (tt, h)

  wp_inductive-Run :
      (es : TransferFn) (post : Formula) {s t : State T}
      → HavocsNothing es
      → AreFramedInductively es post
      → Run T es s t
      → holds T s (wp_inductive es post) ≡ true
      → holds T t post ≡ true
  unfolding wp_inductive
  wp_inductive-Run [] post n k (stop s) h = h
  wp_inductive-Run (e ∷ es) post n k (after _ _ _ _ _ st r) h =
      wp_inductive-Run es post (head_free e es n).1 k.1 r
        (wp_one_inductive-Step e (wp_inductive es post) (head_free e es n).0 k.0 st h)

-- In a block that havocs no region, every run from a state that satisfies the inductiveness
-- precondition ends where `post` holds; the formula behind a Boolean assignment reads the variable
-- in no term, that behind an unresolved load or cast does not read the target, and that behind an
-- unresolved store or a call with HavocMemory reads no memory.
pub wp_inductive_sound :
    (T : Theory) (es : TransferFn) (post : Formula) (s t : State T)
    → HavocsNothing es
    → AreFramedInductively es post
    → Run T es s t
    → holds T s (wp_inductive es post) ≡ true
    → holds T t post ≡ true
wp_inductive_sound T es post s t n k r h = wp_inductive-Run T es post n k r h
