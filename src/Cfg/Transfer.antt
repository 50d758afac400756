-- ===== src/Cfg/Transfer.antt =====
-- src/cfg/abstract_cfg.rs: weakest precondition and strongest postcondition of a block.
use may_must_rs.Base.{List, String, [], if◌then◌else◌, ◌∷◌}
use may_must_rs.Cfg.Effect.{
  TransferEffect, TransferFn, assign, assume, havoc_regions, memory_store, obligation, predicate,
  term, type_bound,
}
use may_must_rs.Cfg.Mention.{formula_mentions_region}
use may_must_rs.Cfg.Substitute.{substitute_bool_var, substitute_region, substitute_var}
use may_must_rs.Formula.Build.{mk_and, mk_and_many, mk_implies}
use may_must_rs.Formula.Data.{
  Formula, Formulas, and, cons, eq, nil, prop, region, store, var, verum,
}

-- The `And` arm's filter drops the items that mention the region.
unfoldable pub drop_mentions : String → Formulas → Formulas
drop_mentions target nil = nil
drop_mentions target (cons item items) =
    if formula_mentions_region target item
    then drop_mentions target items
    else cons item (drop_mentions target items)

unfoldable pub havoc_mentioned : String → Formula → Formula
unfolding drop_mentions
havoc_mentioned target (and items) = mk_and_many (drop_mentions target items)
havoc_mentioned target _ = verum

-- havoc_region_in_formula.
unfoldable pub havoc_region : String → Formula → Formula
unfolding havoc_mentioned
havoc_region target f = if formula_mentions_region target f then havoc_mentioned target f else f

-- The loop over `regions` in the `HavocRegions` arm.
unfoldable pub havoc_all : List String → Formula → Formula
havoc_all [] result = result
havoc_all (r ∷ rs) result = havoc_all rs (havoc_region r result)

unfoldable pub wp_one : TransferEffect → Formula → Formula
wp_one (havoc_regions rs) post = havoc_all rs post
wp_one (assign target (term e)) post = substitute_var target e post
wp_one (assign target (predicate p)) post = substitute_bool_var target p post
wp_one (assume c) post = mk_and c post
wp_one (obligation c) post = mk_and c post
wp_one (memory_store r offset v) post = substitute_region r (store (region r) offset v) post
wp_one _ post = post

-- The fold over the reversed effects: the last effect is applied first.
unfoldable pub wp : TransferFn → Formula → Formula
wp [] post = post
wp (e ∷ es) post = wp_one e (wp es post)

unfoldable pub wp_one_inductive : TransferEffect → Formula → Formula
wp_one_inductive (assume c) post = mk_implies c post
wp_one_inductive other post = wp_one other post

unfoldable pub wp_inductive : TransferFn → Formula → Formula
wp_inductive [] post = post
wp_inductive (e ∷ es) post = wp_one_inductive e (wp_inductive es post)

unfoldable pub sp_one : TransferEffect → Formula → Formula
sp_one (assign target (term e)) pre = mk_and pre (eq (var target) e)
sp_one (assign target (predicate p)) pre =
    mk_and pre (mk_and (mk_implies (prop target) p) (mk_implies p (prop target)))
sp_one (assume c) pre = mk_and pre c
sp_one (type_bound c) pre = mk_and pre c
sp_one (obligation c) pre = mk_and pre c
sp_one _ pre = pre

unfoldable pub sp : TransferFn → Formula → Formula
sp [] pre = pre
sp (e ∷ es) pre = sp es (sp_one e pre)
