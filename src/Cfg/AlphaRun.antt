-- ===== src/Cfg/AlphaRun.antt =====
-- src/formula/alpha_rename.rs: the runs of a renamed block.
use may_must_rs.Base.{
  Bool, String, String-discrete, [], ap, ap₂, arith, if◌then◌else◌, refl, subst, sym, test,
  test_iff, ◌∙◌, ◌∷◌, ◌≡◌,
}
use may_must_rs.Cfg.AlphaEffect.{rename_effect, rename_transfer_fn, rename_value}
use may_must_rs.Cfg.Effect.{
  TransferEffect, TransferFn, assign, assume, call, havoc_memory, havoc_regions, indirect_call,
  load, memory_store, obligation, predicate, ptr_to_int, store_through, term, type_bound,
}
use may_must_rs.Cfg.Run.{
  Run, Step, after, assigned, assigns, assumes, bounded, meets, overwrites, passes, stop, writes,
}
use may_must_rs.Formula.AlphaMeaning.{holds-rename_formula, pulled_back, value-rename_term}
use may_must_rs.Formula.AlphaRename.{rename_formula, rename_term, rename_var}
use may_must_rs.Formula.Data.{Var, Var-discrete}
use may_must_rs.Formula.Theory.{State, Theory, holds, set_memory, set_number, set_truth, value}

-- The effects whose names `rename_effect` renames, or that name neither a variable nor a region:
-- not havoc_regions, nor the unresolved loads and casts, which are copied with their targets.
abbrev pub IsRenamed : TransferEffect → Type 0
IsRenamed (havoc_regions _) = ⊥
IsRenamed (load _ _) = ⊥
IsRenamed (ptr_to_int _ _) = ⊥
IsRenamed _ = Unit

abbrev pub AreRenamed : TransferFn → Type 0
AreRenamed [] = Unit
AreRenamed (e ∷ es) = IsRenamed e × AreRenamed es

-- No two names get one image.
abbrev pub IsInjective : (String → String) → Type 0
IsInjective f = (a b : String) → f a ≡ f b → a ≡ b

module _ (vr mr : String → String) (vi : IsInjective vr) where
  rename_var-IsInjective : (v w : Var) → rename_var vr mr v ≡ rename_var vr mr w → v ≡ w
  unfolding rename_var
  rename_var-IsInjective v w p =
      λ i. record { name = vi v.name w.name (ap (λ u. u.name) p) i; sort = (p i).sort }

  test-rename_var :
      (v w : Var)
      → test (Var-discrete (rename_var vr mr v) (rename_var vr mr w)) ≡ test (Var-discrete v w)
  test-rename_var v w = grind (arith, rename_var-IsInjective v w, ap (rename_var vr mr), test_iff)

test-image :
    (f : String → String)
    → IsInjective f
    → (a b : String) → test (String-discrete (f a) (f b)) ≡ test (String-discrete a b)
test-image f fi a b = grind (arith, fi a b, ap f, test_iff)

module _ (T : Theory) (vr mr : String → String) (vi : IsInjective vr) (mi : IsInjective mr) where
  set_number-pulled_back :
      (s : State T) (v : Var) (x : T.Value)
      → set_number (pulled_back T vr mr s) v x
        ≡ pulled_back T vr mr (set_number s (rename_var vr mr v) x)
  unfolding set_number pulled_back
  set_number-pulled_back s v x = λ i. record {
    number = λ u. if sym (test-rename_var vr mr vi u v) i then x else s.number (rename_var vr mr u);
    truth = λ u. s.truth (rename_var vr mr u);
    memory = λ u. s.memory (mr u);
  }

  set_truth-pulled_back :
      (s : State T) (v : Var) (x : Bool)
      → set_truth (pulled_back T vr mr s) v x
        ≡ pulled_back T vr mr (set_truth s (rename_var vr mr v) x)
  unfolding set_truth pulled_back
  set_truth-pulled_back s v x = λ i. record {
    number = λ u. s.number (rename_var vr mr u);
    truth = λ u. if sym (test-rename_var vr mr vi u v) i then x else s.truth (rename_var vr mr u);
    memory = λ u. s.memory (mr u);
  }

  set_memory-pulled_back :
      (s : State T) (r : String) (a : T.Array)
      → set_memory (pulled_back T vr mr s) r a ≡ pulled_back T vr mr (set_memory s (mr r) a)
  unfolding set_memory pulled_back
  set_memory-pulled_back s r a = λ i. record {
    number = λ u. s.number (rename_var vr mr u);
    truth = λ u. s.truth (rename_var vr mr u);
    memory = λ u. if sym (test-image mr mi u r) i then a else s.memory (mr u);
  }

  Step-rename_effect :
      (e : TransferEffect) {s t : State T}
      → IsRenamed e
      → Step T (rename_effect vr mr e) s t
      → Step T e (pulled_back T vr mr s) (pulled_back T vr mr t)
  unfolding rename_effect rename_value assigned pulled_back
  Step-rename_effect (assign v (term x)) n (assigns _ _ s) =
      subst (Step T (assign v (term x)) (pulled_back T vr mr s))
        (ap (set_number (pulled_back T vr mr s) v) (sym (value-rename_term T vr mr s x))
          ∙ set_number-pulled_back s v (value T s (rename_term vr mr x)))
        (assigns v (term x) (pulled_back T vr mr s))
  Step-rename_effect (assign v (predicate p)) n (assigns _ _ s) =
      subst (Step T (assign v (predicate p)) (pulled_back T vr mr s))
        (ap (set_truth (pulled_back T vr mr s) v) (sym (holds-rename_formula T vr mr s p))
          ∙ set_truth-pulled_back s v (holds T s (rename_formula vr mr p)))
        (assigns v (predicate p) (pulled_back T vr mr s))
  Step-rename_effect (assume c) n (assumes _ s h) =
      assumes c (pulled_back T vr mr s) (sym (holds-rename_formula T vr mr s c) ∙ h)
  Step-rename_effect (obligation c) n (meets _ s h) =
      meets c (pulled_back T vr mr s) (sym (holds-rename_formula T vr mr s c) ∙ h)
  Step-rename_effect (type_bound c) n (bounded _ s h) =
      bounded c (pulled_back T vr mr s) (sym (holds-rename_formula T vr mr s c) ∙ h)
  Step-rename_effect (memory_store r o v) n (writes _ _ _ s) =
      subst (Step T (memory_store r o v) (pulled_back T vr mr s))
        (ap₂ (λ x y. set_memory (pulled_back T vr mr s) r (T.write (s.memory (mr r)) x y))
            (sym (value-rename_term T vr mr s o)) (sym (value-rename_term T vr mr s v))
          ∙ set_memory-pulled_back s r (
              T.write (s.memory (mr r)) (value T s (rename_term vr mr o))
                (value T s (rename_term vr mr v))))
        (writes r o v (pulled_back T vr mr s))
  Step-rename_effect (havoc_regions _) n st = absurd n
  Step-rename_effect (load _ _) n st = absurd n
  Step-rename_effect (ptr_to_int _ _) n st = absurd n
  Step-rename_effect (call f havoc_memory) n (overwrites _ m s h) =
      overwrites (call f havoc_memory) (λ r. m (mr r)) (pulled_back T vr mr s) refl
  Step-rename_effect (indirect_call f havoc_memory) n (overwrites _ m s h) =
      overwrites (indirect_call f havoc_memory) (λ r. m (mr r)) (pulled_back T vr mr s) refl
  Step-rename_effect (store_through t v) n (overwrites _ m s h) =
      overwrites (store_through t v) (λ r. m (mr r)) (pulled_back T vr mr s) refl
  Step-rename_effect _ n (overwrites _ m s h) = cc
  Step-rename_effect e n (passes _ s h) = passes e (pulled_back T vr mr s) h

  -- Where distinct names get distinct images and a block havocs no region and has no unresolved
  -- load or cast, each run of the renamed block is a run of the block between the states in which
  -- each variable and each region has what its image has.
  pub Run-rename_transfer_fn :
      (es : TransferFn) {s t : State T}
      → AreRenamed es
      → Run T (rename_transfer_fn vr mr es) s t
      → Run T es (pulled_back T vr mr s) (pulled_back T vr mr t)
  unfolding rename_transfer_fn
  Run-rename_transfer_fn [] n (stop s) = stop (pulled_back T vr mr s)
  Run-rename_transfer_fn (e ∷ es) n (after _ _ _ _ _ st r) =
      after _ _ _ _ _ (Step-rename_effect e n.0 st) (Run-rename_transfer_fn es n.1 r)
