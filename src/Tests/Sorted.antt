-- ===== src/Tests/Sorted.antt =====
-- Runs of validation at concrete inputs.
use may_must_rs.Base.{[], refl, ◌∷◌, ◌≡◌}
use may_must_rs.Base.Int.{pos}
use may_must_rs.Cfg.Effect.{TransferFn, assign, assume, havoc_regions, memory_store, term}
use may_must_rs.Cfg.Substitute.{substitute_var}
use may_must_rs.Cfg.SubstituteSorts.{substitute_var-IsValid}
use may_must_rs.Cfg.Transfer.{wp}
use may_must_rs.Cfg.WpSorts.{wp-IsValid}
use may_must_rs.Formula.Data.{Formula, Sort-discrete, add, bool, int, int_lit, lt, prop, var}
use may_must_rs.Formula.SortLaws.{IsValid}
use may_must_rs.Formula.Sorts.{sort_of}
use may_must_rs.Smt.Oracle.{ill_sorted, mixed_sorts}
use may_must_rs.Tests.Model.{bool_var, int_var}

abbrev x_below : Formula
x_below = lt (var (int_var "x")) (int_lit (pos 5))

-- x := x + 1; havoc m; m[x] := 2; assume b
abbrev sorted_block : TransferFn
sorted_block =
    assign (int_var "x") (term (add (var (int_var "x")) (int_lit (pos 1))))
    ∷ havoc_regions ("m" ∷ [])
    ∷ memory_store "m" (var (int_var "x")) (int_lit (pos 2))
    ∷ assume (prop (bool_var "b"))
    ∷ []

-- A sum of a Boolean and an integer is refused.
mixed_sum : sort_of (add (var (bool_var "b")) (int_lit (pos 1))) ≡ ill_sorted (mixed_sorts bool int)
unfolding sort_of Sort-discrete
mixed_sum = refl

substitute_var-IsValid_example :
    IsValid (substitute_var (int_var "x") (add (var (int_var "y")) (int_lit (pos 1))) x_below)
unfolding sort_of Sort-discrete
substitute_var-IsValid_example =
    substitute_var-IsValid (int_var "x") (add (var (int_var "y")) (int_lit (pos 1))) refl x_below
      refl

wp-IsValid_example : IsValid (wp sorted_block x_below)
unfolding sort_of Sort-discrete
wp-IsValid_example = wp-IsValid sorted_block x_below (refl, (tt, (refl, (refl, tt)))) refl
