-- ===== src/Cfg/Run.antt =====
-- What a block does to a state: the semantics that the comments of src/cfg/abstract_cfg.rs give to
-- the effects. `assume` and `obligation` stop a run that does not satisfy them; `havoc_regions`
-- may change the listed regions to anything; an unresolved store and a call with HavocMemory may
-- change all of memory; an unresolved load or cast leaves its target any value; pointer
-- bookkeeping and a call with PreservesMemory leave the state as it is.
use may_must_rs.Base.{Bool, List, String, [], bool_not, false, true, ◌∷◌, ◌≡◌}
use may_must_rs.Cfg.Effect.{
  AssignValue, TransferEffect, TransferFn, assign, assume, call, havoc_memory, havoc_regions,
  indirect_call, load, memory_store, obligation, predicate, ptr_to_int, store_through, term,
  type_bound,
}
use may_must_rs.Formula.Data.{Formula, Term, Var}
use may_must_rs.Formula.Theory.{State, Theory, holds, set_memory, set_number, set_truth, value}

-- The effects with HavocMemory, and the stores that were not resolved.
abbrev pub may_write : TransferEffect → Bool
may_write (store_through _ _) = true
may_write (call _ havoc_memory) = true
may_write (indirect_call _ havoc_memory) = true
may_write _ = false

-- Pointer bookkeeping, and calls that preserve memory.
abbrev pub is_transparent : TransferEffect → Bool
is_transparent (assign _ _) = false
is_transparent (memory_store _ _ _) = false
is_transparent (assume _) = false
is_transparent (type_bound _) = false
is_transparent (obligation _) = false
is_transparent (havoc_regions _) = false
is_transparent (load _ _) = false
is_transparent (ptr_to_int _ _) = false
is_transparent e = bool_not (may_write e)

module _ (T : Theory) where
  unfoldable pub assigned : State T → Var → AssignValue → State T
  assigned s target (term e) = set_number s target (value T s e)
  assigned s target (predicate p) = set_truth s target (holds T s p)

  pub data Step : TransferEffect → State T → State T → Type 0 where
    assigns :
        (target : Var) (v : AssignValue) (s : State T)
        → Step (assign target v) s (assigned s target v)
    assumes : (c : Formula) (s : State T) → holds T s c ≡ true → Step (assume c) s s
    meets : (c : Formula) (s : State T) → holds T s c ≡ true → Step (obligation c) s s
    bounded : (c : Formula) (s : State T) → holds T s c ≡ true → Step (type_bound c) s s
    writes :
        (r : String) (offset v : Term) (s : State T)
        → Step
            (memory_store r offset v)
            s
            (set_memory s r (T.write (s.memory r) (value T s offset) (value T s v)))
    havocs_none : (s : State T) → Step (havoc_regions []) s s
    havocs :
        (r : String) (rs : List String) (a : T.Array) (s t : State T)
        → Step (havoc_regions rs) s t
        → Step (havoc_regions (r ∷ rs)) s (set_memory t r a)
    loads :
        (target : Var) (source : String) (x : T.Value) (b : Bool) (s : State T)
        → Step (load target source) s (set_truth (set_number s target x) target b)
    casts :
        (target : Var) (source : String) (x : T.Value) (b : Bool) (s : State T)
        → Step (ptr_to_int target source) s (set_truth (set_number s target x) target b)
    overwrites :
        (e : TransferEffect) (m : String → T.Array) (s : State T)
        → may_write e ≡ true
        → Step e s (record s { memory = m })
    passes : (e : TransferEffect) (s : State T) → is_transparent e ≡ true → Step e s s

  pub data Run : TransferFn → State T → State T → Type 0 where
    stop : (s : State T) → Run [] s s
    after :
        (e : TransferEffect) (es : TransferFn) (s t u : State T)
        → Step e s t
        → Run es t u
        → Run (e ∷ es) s u
