-- ===== src/Interproc/Smash.antt =====
-- src/analysis/interproc/smash.rs: one run of the two directions for an assertion. What
-- `analyze_with_tables` and `dart_explore` answer is a parameter, with the projections to an
-- interface; labels, source locations and debug names, which only
-- describe results, are left out.
use may_must_rs.Base.{Bool, List, Option, String, false, if◌then◌else◌, none, some, true, ℕ}
use may_must_rs.Backward.Pass.{AssertionSite}
use may_must_rs.Backward.Summary.{NodeSummary, unreachable}
use may_must_rs.Cfg.Graph.{AbstractCfg}
use may_must_rs.Formula.Data.{Formula, verum}
use may_must_rs.Smt.Oracle.{SmtModel}
use may_must_rs.Summaries.Table.{
  ContextualMustSummary, ContextualSummaryTable, NotMaySummary, Query,
}

pub data Judgement : Type 0 where
  judged_verified : Judgement
  judged_bug_found : Option SmtModel → Judgement
  judged_unknown : Judgement

pub record AssertionResult : Type 0 where
  pub site_id : ℕ
  pub judgement : Judgement
  pub entry_summary : NodeSummary
  pub assertion_summary : NodeSummary

pub data VerdictEngine : Type 0 where
  may_invariant_analysis must_dart inconclusive : VerdictEngine

pub record SmashRunResult : Type 0 where
  pub assertion : AssertionResult
  pub engine : VerdictEngine

-- `Result<AssertionResult, BackwardError>`; the rule and the oracle errors are handled alike.
pub data Analyzed : Type 0 where
  analyzed : AssertionResult → Analyzed
  cyclic_unsupported analysis_failed : Analyzed

pub record ProcedureInterface : Type 0 where
  pub procedure : String
  pub formals : List String

-- The engines below the orchestrator.
pub record Engines : Type 0 where
  pub analyze : AbstractCfg → String → AssertionSite → ContextualSummaryTable → Analyzed
  pub explore : AbstractCfg → AssertionSite → Option AssertionResult
  pub notmay_summary : Query → ProcedureInterface → Option NotMaySummary
  pub must_summary : Formula → Formula → ProcedureInterface → Option ContextualMustSummary

unfoldable pub empty_unknown_result : AssertionSite → AssertionResult
unfolding unreachable
empty_unknown_result site =
    let empty = record (unreachable site.site_node) { reach = verum; state = verum } in
    record {
      site_id = site.site_id;
      judgement = judged_unknown;
      entry_summary = empty;
      assertion_summary = empty;
    }

-- `may_unknown_or_error.unwrap_or_else(...)`
unfoldable pub or_empty : AssertionSite → Option AssertionResult → AssertionResult
unfolding empty_unknown_result
or_empty site none = empty_unknown_result site
or_empty site (some r) = r

-- The forward direction, with the answer of the other one.
unfoldable pub after_may :
    AssertionSite → Option AssertionResult → Option AssertionResult → SmashRunResult
unfolding or_empty
after_may site may (some r) = record { assertion = r; engine = must_dart }
after_may site may none = record { assertion = or_empty site may; engine = inconclusive }

-- `matches!(result.judgement, Judgement::Verified | Judgement::BugFound { .. })`
unfoldable pub is_decided : Judgement → Bool
is_decided judged_unknown = false
is_decided _ = true

unfoldable pub orchestrate : AssertionSite → Option AssertionResult → Analyzed → SmashRunResult
unfolding after_may is_decided empty_unknown_result
orchestrate site dart (analyzed r) =
    if is_decided r.judgement
    then record { assertion = r; engine = may_invariant_analysis }
    else after_may site (some r) dart
orchestrate site dart cyclic_unsupported = after_may site none dart
orchestrate site dart analysis_failed = record {
  assertion = empty_unknown_result site;
  engine = inconclusive;
}

unfoldable pub run_smash :
    Engines → AbstractCfg → String → AssertionSite → ContextualSummaryTable → SmashRunResult
unfolding orchestrate
run_smash engines cfg name site tables =
    orchestrate site (engines.explore cfg site) (engines.analyze cfg name site tables)
