-- ===== src/Cfg/Effect.antt =====
-- src/cfg/abstract_cfg.rs: the atomic effects of a block.
use may_must_rs.Base.{List, String, ℕ}
use may_must_rs.Formula.Data.{Formula, Term, Var}

pub data CallMemoryEffect : Type 0 where
  preserves_memory havoc_memory : CallMemoryEffect

pub data AssignValue : Type 0 where
  term : Term → AssignValue
  predicate : Formula → AssignValue

-- The fields stand in the source's order; `store_through` is the source's Store.
pub data TransferEffect : Type 0 where
  assign : Var → AssignValue → TransferEffect
  alloca : String → String → TransferEffect
  get_element_ptr : String → String → Term → TransferEffect
  load : Var → String → TransferEffect
  store_through : String → Term → TransferEffect
  memory_store : String → Term → Term → TransferEffect
  pointer_store : String → String → TransferEffect
  pointer_load : String → String → TransferEffect
  pointer_alias : String → String → TransferEffect
  struct_field_gep : String → String → ℕ → TransferEffect
  assume type_bound obligation : Formula → TransferEffect
  nop : TransferEffect
  ptr_to_int : Var → String → TransferEffect
  int_to_ptr : String → String → TransferEffect
  call : String → CallMemoryEffect → TransferEffect
  havoc_regions : List String → TransferEffect
  heap_alloc : String → String → TransferEffect
  indirect_call : String → CallMemoryEffect → TransferEffect

-- A transfer function is its list of effects, in program order.
abbrev pub TransferFn : Type 0
TransferFn = List TransferEffect
