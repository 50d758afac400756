-- ===== src/Tests/Renamed.antt =====
-- A renamed block at a concrete input.
use may_must_rs.Base.{
  String, String-discrete, [], ap, arith, if◌then◌else◌, refl, sym, test, test_iff, ℕ_discrete, ◌∙◌,
  ◌∷◌, ◌≡◌,
}
use may_must_rs.Base.Int.{pos, ℤ-discrete, ◌+ℤ◌}
use may_must_rs.Cfg.AlphaEffect.{rename_effect, rename_transfer_fn, rename_value}
use may_must_rs.Cfg.AlphaRun.{IsInjective, Run-rename_transfer_fn}
use may_must_rs.Cfg.Effect.{TransferFn, assign, assume, memory_store, term}
use may_must_rs.Cfg.Run.{Run, after, assigned, assigns, assumes, stop, writes}
use may_must_rs.Formula.AlphaMeaning.{pulled_back}
use may_must_rs.Formula.AlphaRename.{rename_formula, rename_var}
use may_must_rs.Formula.Data.{Sort-discrete, Var-discrete, add, int_lit, le, var}
use may_must_rs.Formula.Theory.{State, holds, set_memory, set_number}
use may_must_rs.Tests.Model.{int_var, integers, threes}

abbrev swap : String → String
swap n =
    if test (String-discrete n "x") then "y" else if test (String-discrete n "y") then "x" else n

swap-swap : (n : String) → swap (swap n) ≡ n
unfolding String-discrete
swap-swap n = grind (arith, test_iff)

swap-IsInjective : IsInjective swap
swap-IsInjective a b p = sym (swap-swap a) ∙ (ap swap p ∙ swap-swap b)

-- assume x <= 5; x := x + 1; m[x] := 2
abbrev x_block : TransferFn
x_block =
    assume (le (var (int_var "x")) (int_lit (pos 5)))
    ∷ assign (int_var "x") (term (add (var (int_var "x")) (int_lit (pos 1))))
    ∷ memory_store "m" (var (int_var "x")) (int_lit (pos 2))
    ∷ []

abbrev y_four : State integers
y_four = set_number threes (int_var "y") (pos 4)

abbrev y_done : State integers
y_done = set_memory y_four "m" ((pos 4, pos 2) ∷ [])

renamed-Run : Run integers (rename_transfer_fn swap swap x_block) threes y_done
unfolding rename_transfer_fn rename_effect rename_value rename_formula rename_var holds assigned
    set_number set_memory Var-discrete String-discrete Sort-discrete ◌+ℤ◌ ℤ-discrete ℕ_discrete
renamed-Run =
    after _ _ _ _ _ (assumes _ threes refl)
      (after _ _ _ _ _ (assigns _ _ threes) (after _ _ _ _ _ (writes _ _ _ y_four) (stop y_done)))

Run-rename_transfer_fn_example :
    Run integers x_block
      (pulled_back integers swap swap threes)
      (pulled_back integers swap swap y_done)
Run-rename_transfer_fn_example =
    Run-rename_transfer_fn integers swap swap swap-IsInjective swap-IsInjective x_block
      (tt, (tt, (tt, tt))) renamed-Run
