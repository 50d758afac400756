-- ===== src/Tests/Blocks.antt =====
-- Blocks at concrete inputs.
use may_must_rs.Base.{String-discrete, [], false, refl, true, ℕ_discrete, ◌∷◌, ◌≡◌}
use may_must_rs.Base.Int.{pos, ℤ-discrete, ◌+ℤ◌}
use may_must_rs.Cfg.Effect.{
  TransferFn, assign, assume, call, havoc_memory, load, memory_store, obligation, term,
}
use may_must_rs.Cfg.Inductive.{wp_inductive_sound}
use may_must_rs.Cfg.Mention.{formula_mentions_region}
use may_must_rs.Cfg.Run.{
  Run, after, assigned, assigns, assumes, loads, meets, overwrites, stop, writes,
}
use may_must_rs.Cfg.SpSound.{sp_sound}
use may_must_rs.Cfg.Transfer.{sp, sp_one, wp, wp_inductive, wp_one, wp_one_inductive}
use may_must_rs.Cfg.WpSound.{wp_complete, wp_sound}
use may_must_rs.Formula.Build.{mk_and, mk_and_many, mk_implies, simplify}
use may_must_rs.Formula.Data.{
  Formula, Formula-discrete, Sort-discrete, Term, Var, Var-discrete, add, int_lit, le, region,
  select, var, verum,
}
use may_must_rs.Formula.Occurs.{occurs}
use may_must_rs.Formula.Theory.{State, holds, set_memory, set_number, set_truth}
use may_must_rs.Tests.Model.{Writes, int_var, integers, same_integers, threes}

abbrev x_var : Var
x_var = int_var "x"

abbrev y_var : Var
y_var = int_var "y"

abbrev x_plus_1 : Term
x_plus_1 = add (var x_var) (int_lit (pos 1))

-- assume x <= 5; y := x + 1; m[x] := y; assert y <= 6
abbrev block : TransferFn
block =
    assume (le (var x_var) (int_lit (pos 5)))
    ∷ assign y_var (term x_plus_1)
    ∷ memory_store "m" (var x_var) (var y_var)
    ∷ obligation (le (var y_var) (int_lit (pos 6)))
    ∷ []

abbrev after_block : Formula
after_block = le (select (region "m") (int_lit (pos 3))) (int_lit (pos 4))

abbrev y_four : State integers
y_four = set_number threes y_var (pos 4)

abbrev final : State integers
final = set_memory y_four "m" ((pos 3, pos 4) ∷ [])

pub block-Run : Run integers block threes final
unfolding holds assigned set_number set_memory Var-discrete String-discrete Sort-discrete ◌+ℤ◌
    ℤ-discrete ℕ_discrete
block-Run = after _ _ _ _ _ (assumes _ threes refl) (
    after _ _ _ _ _ (assigns _ _ threes)
      (after _ _ _ _ _ (writes _ _ _ y_four) (after _ _ _ _ _ (meets _ final refl) (stop final))))

final-after_block : holds integers final after_block ≡ true
unfolding holds set_number set_memory Var-discrete String-discrete Sort-discrete ℤ-discrete
    ℕ_discrete
final-after_block = refl

wp_sound_example : holds integers threes (wp block after_block) ≡ true
wp_sound_example =
    wp_sound integers block after_block threes final (tt, (tt, (tt, (tt, tt)))) block-Run
      final-after_block

wp_complete_example :
    (t : State integers) × Run integers block threes t × (holds integers t after_block ≡ true)
wp_complete_example =
    wp_complete integers block after_block threes (tt, (tt, (tt, (tt, tt))))
      (tt, (tt, (tt, (tt, tt)))) wp_sound_example

-- f(); z := *p; assume x <= 5, where f may write any region and p is not resolved
abbrev opaque_block : TransferFn
opaque_block =
    call "f" havoc_memory ∷ load (int_var "z") "p" ∷ assume (le (var x_var) (int_lit (pos 5))) ∷ []

abbrev x_small : Formula
x_small = le (var x_var) (int_lit (pos 6))

abbrev nine : Writes
nine = (pos 3, pos 9) ∷ []

abbrev nines : State integers
nines = record threes { memory = λ r. nine }

abbrev opaque_end : State integers
opaque_end = set_truth (set_number nines (int_var "z") (pos 8)) (int_var "z") false

opaque-Run : Run integers opaque_block threes opaque_end
unfolding holds set_number set_truth Var-discrete String-discrete Sort-discrete ℤ-discrete
    ℕ_discrete
opaque-Run = after _ _ _ _ _ (overwrites (call "f" havoc_memory) (λ r. nine) threes refl) (
    after _ _ _ _ _ (loads (int_var "z") "p" (pos 8) false nines)
      (after _ _ _ _ _ (assumes _ opaque_end refl) (stop opaque_end)))

wp_opaque : holds integers threes (wp_inductive opaque_block x_small) ≡ true
unfolding wp_inductive wp_one_inductive wp_one mk_implies mk_and_many mk_and simplify holds
    Formula-discrete
wp_opaque = refl

wp_inductive_sound_example : holds integers opaque_end x_small ≡ true
unfolding occurs wp_inductive wp_one_inductive wp_one mk_implies simplify Var-discrete
    String-discrete Sort-discrete Formula-discrete
wp_inductive_sound_example =
    wp_inductive_sound integers opaque_block x_small threes opaque_end tt (refl, (refl, (tt, tt)))
      opaque-Run wp_opaque

sp_sound_example : holds integers final (sp block verum) ≡ true
unfolding sp_one occurs formula_mentions_region mk_and simplify Var-discrete String-discrete
    Sort-discrete Formula-discrete holds
sp_sound_example =
    sp_sound integers block verum threes final same_integers (tt, ((refl, refl), (refl, (tt, tt))))
      block-Run refl
