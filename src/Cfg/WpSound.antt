-- ===== src/Cfg/WpSound.antt =====
-- src/cfg/abstract_cfg.rs: `wp` against the runs of a block.
use may_must_rs.Base.{List, String, [], arith, refl, sym, true, ◌∙◌, ◌∷◌, ◌≡◌}
use may_must_rs.Cfg.BoolSubstitute.{holds-substitute_bool_var}
use may_must_rs.Cfg.Effect.{
  TransferEffect, TransferFn, assign, assume, call, havoc_memory, havoc_regions, indirect_call,
  load, memory_store, obligation, predicate, ptr_to_int, store_through, term, type_bound,
}
use may_must_rs.Cfg.Frame.{IsFramed, holds-IgnoresMemory, holds-IgnoresVar}
use may_must_rs.Cfg.MentionLaws.{holds-not_mentioned}
use may_must_rs.Cfg.Run.{
  Run, Step, after, assigned, assigns, assumes, bounded, casts, havocs, havocs_none, loads, meets,
  overwrites, passes, stop, writes,
}
use may_must_rs.Cfg.SubstituteMeaning.{holds-substitute_region, holds-substitute_var}
use may_must_rs.Cfg.Transfer.{drop_mentions, havoc_all, havoc_mentioned, havoc_region, wp, wp_one}
use may_must_rs.Formula.Data.{Formula, Formulas, and, cons, nil, region, store}
use may_must_rs.Formula.Meaning.{holds-mk_and, holds-mk_and_many}
use may_must_rs.Formula.Theory.{State, Theory, all_hold, holds, set_memory}

abbrev pub AreFramed : TransferFn → Formula → Type 0
AreFramed [] post = Unit
AreFramed (e ∷ es) post = IsFramed e (wp es post) × AreFramed es post

module _ (T : Theory) where
  -- The conjuncts that are kept do not depend on the region.
  all_hold-drop_mentions :
      (s : State T) (r : String) (a : T.Array) (items : Formulas)
      → all_hold T (set_memory s r a) items ≡ true
      → all_hold T s (drop_mentions r items) ≡ true
  unfolding drop_mentions holds
  all_hold-drop_mentions s r a nil h = refl
  all_hold-drop_mentions s r a (cons item items) h =
      ground (arith, all_hold-drop_mentions s r a items, holds-not_mentioned s r a item)

  holds-havoc_mentioned :
      (s : State T) (r : String) (a : T.Array) (f : Formula)
      → holds T (set_memory s r a) f ≡ true
      → holds T s (havoc_mentioned r f) ≡ true
  unfolding havoc_mentioned holds
  holds-havoc_mentioned s r a (and items) h =
      holds-mk_and_many T s (drop_mentions r items) ∙ all_hold-drop_mentions s r a items h
  holds-havoc_mentioned s r a _ h = refl

  -- What holds after a region took any contents is kept by `havoc_region`.
  pub holds-havoc_region :
      (s : State T) (r : String) (a : T.Array) (f : Formula)
      → holds T (set_memory s r a) f ≡ true
      → holds T s (havoc_region r f) ≡ true
  unfolding havoc_region
  holds-havoc_region s r a f h =
      ground (arith, holds-havoc_mentioned s r a f, holds-not_mentioned s r a f)

  holds-havoc_all :
      (rs : List String) (post : Formula) {s t : State T}
      → Step T (havoc_regions rs) s t
      → holds T t post ≡ true
      → holds T s (havoc_all rs post) ≡ true
  unfolding havoc_all
  holds-havoc_all [] post (havocs_none s) h = h
  holds-havoc_all [] post (passes _ s e) h = cc
  holds-havoc_all [] post (overwrites _ m s e) h = cc
  holds-havoc_all (r ∷ rs) post (havocs _ _ a s t st) h =
      holds-havoc_all rs (havoc_region r post) st (holds-havoc_region t r a post h)
  holds-havoc_all (r ∷ rs) post (passes _ s e) h = cc
  holds-havoc_all (r ∷ rs) post (overwrites _ m s e) h = cc

  wp_one-Step :
      (e : TransferEffect) (post : Formula) {s t : State T}
      → IsFramed e post
      → Step T e s t
      → holds T t post ≡ true
      → holds T s (wp_one e post) ≡ true
  unfolding wp_one assigned holds
  wp_one-Step (assign v (term x)) post k (assigns _ _ s) h = holds-substitute_var T s v x post ∙ h
  wp_one-Step (assign v (predicate p)) post k (assigns _ _ s) h =
      holds-substitute_bool_var T s v p post k ∙ h
  wp_one-Step (assume c) post k (assumes _ s hc) h = ground (arith, holds-mk_and T s c post)
  wp_one-Step (obligation c) post k (meets _ s hc) h = ground (arith, holds-mk_and T s c post)
  wp_one-Step (type_bound c) post k (bounded _ s hc) h = h
  wp_one-Step (memory_store r o v) post k (writes _ _ _ s) h =
      holds-substitute_region T s r (store (region r) o v) post ∙ h
  wp_one-Step (havoc_regions rs) post k st h = holds-havoc_all rs post st h
  wp_one-Step (load v p) post k (loads _ _ x b s) h = sym (holds-IgnoresVar T s v x b post k) ∙ h
  wp_one-Step (ptr_to_int v p) post k (casts _ _ x b s) h =
      sym (holds-IgnoresVar T s v x b post k) ∙ h
  wp_one-Step (store_through t v) post k (overwrites _ m s e) h =
      sym (holds-IgnoresMemory T s m post k) ∙ h
  wp_one-Step (call f havoc_memory) post k (overwrites _ m s e) h =
      sym (holds-IgnoresMemory T s m post k) ∙ h
  wp_one-Step (indirect_call f havoc_memory) post k (overwrites _ m s e) h =
      sym (holds-IgnoresMemory T s m post k) ∙ h
  wp_one-Step _ post k (overwrites _ m s e) h = ground arith
  wp_one-Step _ post k (passes _ s e) h = ground arith

  wp-Run :
      (es : TransferFn) (post : Formula) {s t : State T}
      → AreFramed es post
      → Run T es s t
      → holds T t post ≡ true
      → holds T s (wp es post) ≡ true
  unfolding wp
  wp-Run [] post k (stop s) h = h
  wp-Run (e ∷ es) post k (after _ _ _ _ _ st r) h =
      wp_one-Step e (wp es post) k.0 st (wp-Run es post k.1 r h)

-- The effects that stop or move a run in one way only, and no fact on a type's range.
abbrev pub IsExact : TransferEffect → Type 0
IsExact (havoc_regions _) = ⊥
IsExact (type_bound _) = ⊥
IsExact (load _ _) = ⊥
IsExact (ptr_to_int _ _) = ⊥
IsExact (store_through _ _) = ⊥
IsExact (call _ havoc_memory) = ⊥
IsExact (indirect_call _ havoc_memory) = ⊥
IsExact _ = Unit

abbrev pub AreExact : TransferFn → Type 0
AreExact [] = Unit
AreExact (e ∷ es) = IsExact e × AreExact es

module _ (T : Theory) where
  Step-wp_one :
      (e : TransferEffect) (post : Formula) (s : State T)
      → IsExact e
      → IsFramed e post
      → holds T s (wp_one e post) ≡ true
      → (t : State T) × Step T e s t × (holds T t post ≡ true)
  unfolding wp_one assigned holds
  Step-wp_one (assign v (term x)) post s x' k h =
      (_, assigns v (term x) s, sym (holds-substitute_var T s v x post) ∙ h)
  Step-wp_one (assign v (predicate p)) post s x' k h =
      (_, assigns v (predicate p) s, sym (holds-substitute_bool_var T s v p post k) ∙ h)
  Step-wp_one (assume c) post s x' k h = (
    s,
    assumes c s (ground (arith, holds-mk_and T s c post)),
    ground (arith, holds-mk_and T s c post),
  )
  Step-wp_one (obligation c) post s x' k h = (
    s,
    meets c s (ground (arith, holds-mk_and T s c post)),
    ground (arith, holds-mk_and T s c post),
  )
  Step-wp_one (memory_store r o v) post s x' k h =
      (_, writes r o v s, sym (holds-substitute_region T s r (store (region r) o v) post) ∙ h)
  Step-wp_one (havoc_regions rs) post s x' k h = absurd x'
  Step-wp_one (type_bound c) post s x' k h = absurd x'
  Step-wp_one (load _ _) post s x' k h = absurd x'
  Step-wp_one (ptr_to_int _ _) post s x' k h = absurd x'
  Step-wp_one (store_through _ _) post s x' k h = absurd x'
  Step-wp_one (call _ havoc_memory) post s x' k h = absurd x'
  Step-wp_one (indirect_call _ havoc_memory) post s x' k h = absurd x'
  Step-wp_one _ post s x' k h = (s, passes _ s refl, h)

  Run-wp :
      (es : TransferFn) (post : Formula) (s : State T)
      → AreExact es
      → AreFramed es post
      → holds T s (wp es post) ≡ true
      → (t : State T) × Run T es s t × (holds T t post ≡ true)
  unfolding wp
  Run-wp [] post s x k h = (s, stop s, h)
  Run-wp (e ∷ es) post s x k h =
      let (t, st, ht) = Step-wp_one e (wp es post) s x.0 k.0 h in
      let (u, r, hu) = Run-wp es post t x.1 k.1 ht in (u, after e es s t u st r, hu)

-- If a run of the block from `s` ends where `post` holds, then `s` satisfies the weakest
-- precondition; the block may store to memory, assume, assert and havoc regions. The formula behind
-- a Boolean assignment reads the variable in no term, that behind an unresolved load or cast does
-- not read the target, and that behind an unresolved store or a call with HavocMemory reads no
-- memory.
pub wp_sound :
    (T : Theory) (es : TransferFn) (post : Formula) (s t : State T)
    → AreFramed es post
    → Run T es s t
    → holds T t post ≡ true
    → holds T s (wp es post) ≡ true
wp_sound T es post s t k r h = wp-Run T es post k r h

-- For a block without `havoc_regions`, type bounds, unresolved loads, stores and casts, and calls
-- with HavocMemory, and under the same condition on Boolean assignments, every state that satisfies
-- the weakest precondition starts a run of the block that ends where `post` holds.
pub wp_complete :
    (T : Theory) (es : TransferFn) (post : Formula) (s : State T)
    → AreExact es
    → AreFramed es post
    → holds T s (wp es post) ≡ true
    → (t : State T) × Run T es s t × (holds T t post ≡ true)
wp_complete T es post s x k h = Run-wp T es post s x k h
