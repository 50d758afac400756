-- ===== src/Tests/Formulas.antt =====
-- Formulas at concrete inputs.
use may_must_rs.Base.{String-discrete, [], refl, true, ◌↔◌, ◌∷◌, ◌≡◌}
use may_must_rs.Base.Int.{pos}
use may_must_rs.Cfg.BoolSubstitute.{holds-substitute_bool_var, in_terms}
use may_must_rs.Cfg.Mention.{formula_mentions_region}
use may_must_rs.Cfg.MentionLaws.{holds-not_mentioned}
use may_must_rs.Cfg.Substitute.{substitute_bool_var, substitute_region, substitute_var}
use may_must_rs.Cfg.SubstituteMeaning.{holds-substitute_region, holds-substitute_var}
use may_must_rs.Formula.AlphaMeaning.{holds-rename_formula, pulled_back}
use may_must_rs.Formula.AlphaRename.{rename_formula}
use may_must_rs.Formula.Build.{mk_iff, simplify}
use may_must_rs.Formula.Data.{
  Formula, Formula-discrete, Formulas, Memory, Sort-discrete, Term, Var-discrete, and, cons, falsum,
  int_lit, le, nil, prop, region, select, store, var, verum,
}
use may_must_rs.Formula.Meaning.{holds-mk_iff, holds-simplify}
use may_must_rs.Formula.Occurs.{occurs}
use may_must_rs.Formula.Rename.{lookup_var, substitute}
use may_must_rs.Formula.RenameMeaning.{holds-substitute, renamed}
use may_must_rs.Formula.Theory.{contents, holds, set_memory, set_number, set_truth, value}
use may_must_rs.Tests.Model.{bool_var, int_var, integers, threes}

abbrev x_term : Term
x_term = var (int_var "x")

abbrev b_prop : Formula
b_prop = prop (bool_var "b")

abbrev conjunction : Formulas
conjunction = cons b_prop (cons (and (cons b_prop (cons verum nil))) (cons verum nil))

-- The nested list's True is pushed as it is.
simplify_nested : simplify (and conjunction) ≡ and (cons b_prop (cons verum nil))
unfolding simplify Formula-discrete Var-discrete String-discrete Sort-discrete
simplify_nested = refl

simplify_false : simplify (and (cons b_prop (cons falsum nil))) ≡ falsum
unfolding simplify
simplify_false = refl

holds-simplify_example :
    holds integers threes (simplify (and conjunction)) ≡ holds integers threes (and conjunction)
holds-simplify_example = holds-simplify integers threes (and conjunction)

holds-mk_iff_example :
    (holds integers threes (mk_iff b_prop (le x_term (int_lit (pos 5)))) ≡ true)
    ↔ (holds integers threes b_prop ≡ holds integers threes (le x_term (int_lit (pos 5))))
holds-mk_iff_example = holds-mk_iff integers threes b_prop (le x_term (int_lit (pos 5)))

holds-substitute_example :
    holds integers threes (substitute ((int_var "x", int_var "y") ∷ []) (le x_term x_term))
    ≡ holds integers
        (renamed integers (lookup_var ((int_var "x", int_var "y") ∷ [])) threes)
        (le x_term x_term)
holds-substitute_example =
    holds-substitute integers threes ((int_var "x", int_var "y") ∷ []) (le x_term x_term)

holds-substitute_var_example :
    holds integers threes
      (substitute_var (int_var "x") (int_lit (pos 7)) (le x_term (int_lit (pos 5))))
    ≡ holds integers
        (set_number threes (int_var "x") (value integers threes (int_lit (pos 7))))
        (le x_term (int_lit (pos 5)))
holds-substitute_var_example =
    holds-substitute_var integers threes (int_var "x") (int_lit (pos 7))
      (le x_term (int_lit (pos 5)))

abbrev cell : Formula
cell = le (select (region "m") x_term) (int_lit (pos 5))

abbrev stored : Memory
stored = store (region "m") x_term (int_lit (pos 9))

holds-substitute_region_example :
    holds integers threes (substitute_region "m" stored cell)
    ≡ holds integers (set_memory threes "m" (contents integers threes stored)) cell
holds-substitute_region_example = holds-substitute_region integers threes "m" stored cell

holds-substitute_bool_var_example :
    holds integers threes
      (substitute_bool_var (bool_var "b") falsum (and (cons b_prop (cons cell nil))))
    ≡ holds integers
        (set_truth threes (bool_var "b") (holds integers threes falsum))
        (and (cons b_prop (cons cell nil)))
unfolding in_terms occurs
holds-substitute_bool_var_example =
    holds-substitute_bool_var integers threes (bool_var "b") falsum
      (and (cons b_prop (cons cell nil))) refl

holds-not_mentioned_example :
    holds integers (set_memory threes "k" ((pos 3, pos 9) ∷ [])) cell ≡ holds integers threes cell
unfolding formula_mentions_region String-discrete
holds-not_mentioned_example = holds-not_mentioned threes "k" ((pos 3, pos 9) ∷ []) cell refl

-- x becomes y, and the region m becomes k.
holds-rename_formula_example :
    holds integers threes (rename_formula (λ n. "y") (λ n. "k") cell)
    ≡ holds integers (pulled_back integers (λ n. "y") (λ n. "k") threes) cell
holds-rename_formula_example = holds-rename_formula integers (λ n. "y") (λ n. "k") threes cell
