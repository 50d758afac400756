-- ===== src/Backward/Summary.antt =====
-- src/analysis/backward/node_summary.rs: the pair of formulas at a node.
use may_must_rs.Base.{arith, if◌then◌else◌, test, test_iff, ℕ, ◌&&◌, ◌||◌, ◌≡◌}
use may_must_rs.Formula.Build.{mk_and, mk_or}
use may_must_rs.Formula.Data.{Formula, Formula-discrete, falsum, verum}
use may_must_rs.Formula.Meaning.{holds-mk_and}
use may_must_rs.Formula.Theory.{State, Theory, holds}

pub record NodeSummary : Type 0 where
  pub node : ℕ
  pub reach : Formula
  pub state : Formula

unfoldable pub unreachable : ℕ → NodeSummary
unreachable n = record { node = n; reach = falsum; state = falsum }

unfoldable pub entry_summary : ℕ → NodeSummary
entry_summary n = record { node = n; reach = verum; state = falsum }

unfoldable pub combined : NodeSummary → Formula
combined s =
    if test (Formula-discrete s.reach falsum) || test (Formula-discrete s.state falsum)
    then falsum
    else mk_and s.reach s.state

unfoldable pub join_reach : Formula → NodeSummary → NodeSummary
join_reach incoming s = record s { reach = mk_or s.reach incoming }

unfoldable pub join_state : Formula → NodeSummary → NodeSummary
join_state incoming s = record s { state = mk_or s.state incoming }

-- The short cut of `combined` does not change the meaning of `reach ∧ state`.
pub holds-combined :
    (T : Theory) (x : State T) (s : NodeSummary)
    → holds T x (combined s) ≡ (holds T x s.reach && holds T x s.state)
unfolding combined holds
holds-combined T x s = ground (
  arith,
  test_iff (Formula-discrete s.reach falsum),
  test_iff (Formula-discrete s.state falsum),
  holds-mk_and T x s.reach s.state,
)
