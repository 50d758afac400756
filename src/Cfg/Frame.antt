-- ===== src/Cfg/Frame.antt =====
-- What an effect may change behind the back of `wp` and `sp`, and formulas that do not read it.
use may_must_rs.Base.{Bool, String, false, refl, test, true, ◌≡◌}
use may_must_rs.Cfg.BoolSubstitute.{in_terms}
use may_must_rs.Cfg.Effect.{
  TransferEffect, assign, call, havoc_memory, indirect_call, load, predicate, ptr_to_int,
  store_through,
}
use may_must_rs.Formula.Data.{Formula, Var, Var-discrete}
use may_must_rs.Formula.Occurs.{holds-Agree, nowhere, occurs}
use may_must_rs.Formula.Theory.{State, Theory, holds, set_number, set_truth}

abbrev pub is_var : Var → Var → Bool
is_var target v = test (Var-discrete v target)

abbrev pub everywhere : String → Bool
everywhere r = true

-- No region occurs in the formula.
abbrev pub IgnoresMemory : Formula → Type 0
IgnoresMemory f = occurs nowhere nowhere everywhere f ≡ false

-- The variable does not occur in the formula, neither as a number nor as a truth value.
abbrev pub IgnoresVar : Var → Formula → Type 0
IgnoresVar v f = occurs (is_var v) (is_var v) nowhere f ≡ false

-- Where an effect assigns a Boolean variable, no term of the formula behind it reads the variable;
-- where it is an unresolved load or a cast, the formula does not read the target; where it may
-- write any region, the formula reads no region.
abbrev pub IsFramed : TransferEffect → Formula → Type 0
IsFramed (assign target (predicate p)) post = in_terms target post ≡ false
IsFramed (load target source) post = IgnoresVar target post
IsFramed (ptr_to_int target source) post = IgnoresVar target post
IsFramed (store_through target v) post = IgnoresMemory post
IsFramed (call callee havoc_memory) post = IgnoresMemory post
IsFramed (indirect_call callee havoc_memory) post = IgnoresMemory post
IsFramed _ post = Unit

module _ (T : Theory) where
  pub holds-IgnoresMemory :
      (s : State T) (m : String → T.Array) (f : Formula)
      → IgnoresMemory f
      → holds T (record s { memory = m }) f ≡ holds T s f
  holds-IgnoresMemory s m f h =
      holds-Agree T nowhere nowhere everywhere (record s { memory = m }) s
        (record { numbers = λ u k. refl; truths = λ u k. refl; memories = λ u k. absurd (ne k) }) f
        h
    where
      ne : true ≡ false → ⊥
      ne p = cc

  pub holds-IgnoresVar :
      (s : State T) (v : Var) (x : T.Value) (b : Bool) (f : Formula)
      → IgnoresVar v f
      → holds T (set_truth (set_number s v x) v b) f ≡ holds T s f
  unfolding set_number set_truth
  holds-IgnoresVar s v x b f h =
      holds-Agree T (is_var v) (is_var v) nowhere (set_truth (set_number s v x) v b) s
        (record { numbers = λ u k. rw k; truths = λ u k. rw k; memories = λ u k. refl }) f h
