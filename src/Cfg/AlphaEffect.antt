-- ===== src/Cfg/AlphaEffect.antt =====
-- src/formula/alpha_rename.rs: renaming of the effects of a block.
use may_must_rs.Base.{String, map}
use may_must_rs.Cfg.Effect.{
  AssignValue, TransferEffect, TransferFn, assign, assume, memory_store, obligation, predicate,
  term, type_bound,
}
use may_must_rs.Formula.AlphaRename.{rename_formula, rename_term, rename_var}

module _ (var_rename region_rename : String → String) where
  unfoldable pub rename_value : AssignValue → AssignValue
  rename_value (term t) = term (rename_term var_rename region_rename t)
  rename_value (predicate f) = predicate (rename_formula var_rename region_rename f)

  -- The last clause is the source's `other => other.clone()`.
  unfoldable pub rename_effect : TransferEffect → TransferEffect
  unfolding rename_value
  rename_effect (assign target v) =
      assign (rename_var var_rename region_rename target) (rename_value v)
  rename_effect (memory_store r offset v) =
      memory_store (region_rename r) (rename_term var_rename region_rename offset)
        (rename_term var_rename region_rename v)
  rename_effect (assume f) = assume (rename_formula var_rename region_rename f)
  rename_effect (type_bound f) = type_bound (rename_formula var_rename region_rename f)
  rename_effect (obligation f) = obligation (rename_formula var_rename region_rename f)
  rename_effect other = other

  unfoldable pub rename_transfer_fn : TransferFn → TransferFn
  unfolding rename_effect
  rename_transfer_fn effects = map rename_effect effects
