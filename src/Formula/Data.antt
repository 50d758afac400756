-- ===== src/Formula/Data.antt =====
-- src/formula/mod.rs: sorts, variables, memory, terms and formulas.
use may_must_rs.Base.{String, String-discrete}
use may_must_rs.Base.Int.{ℤ, ℤ-discrete}

-- The value domains.
pub data Sort : Type 0 where
  bool int real : Sort

unfoldable pub Sort-discrete : Discrete Sort
Sort-discrete = hlevel

-- A reduced fraction.
pub record Rational : Type 0 where
  pub num : ℤ
  pub den : ℤ

unfoldable pub Rational-discrete : Discrete Rational
Rational-discrete = hlevel ℤ-discrete

-- A named and sorted variable: both parts tell two variables apart.
pub record Var : Type 0 where
  pub name : String
  pub sort : Sort

unfoldable pub Var-discrete : Discrete Var
Var-discrete = hlevel (String-discrete, Sort-discrete)

-- `verum` and `falsum` are the source's True and False, `prop` is Formula::Var, `region` is
-- Memory::Var; a `Vec<Formula>` is `Formulas`.
mutual
  pub data Formula : Type 0 where
    verum falsum : Formula
    prop : Var → Formula
    not : Formula → Formula
    and or : Formulas → Formula
    implies : Formula → Formula → Formula
    eq : Term → Term → Formula
    memory_eq : Memory → Memory → Formula
    lt le gt ge : Term → Term → Formula

  pub data Formulas : Type 0 where
    nil : Formulas
    cons : Formula → Formulas → Formulas

  pub data Term : Type 0 where
    var : Var → Term
    int_lit : ℤ → Term
    real_lit : Rational → Term
    bool_to_int : Formula → Term
    select : Memory → Term → Term
    add sub mul div rem : Term → Term → Term
    neg : Term → Term

  pub data Memory : Type 0 where
    region : String → Memory
    store : Memory → Term → Term → Memory

-- The derived `PartialEq` of the four types.
unfoldable pub Formula-discrete : Discrete Formula
Formula-discrete = hlevel (Var-discrete, String-discrete, ℤ-discrete, Rational-discrete)

unfoldable pub Term-discrete : Discrete Term
Term-discrete = hlevel (Var-discrete, String-discrete, ℤ-discrete, Rational-discrete)

unfoldable pub Memory-discrete : Discrete Memory
Memory-discrete = hlevel (Var-discrete, String-discrete, ℤ-discrete, Rational-discrete)
