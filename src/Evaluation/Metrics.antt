-- ===== src/Evaluation/Metrics.antt =====
-- app/evaluation/metrics.py. A rate is the two numbers of its quotient, so that a comparison with a
-- threshold is exact: the thresholds are tenths.
pub mod Counting
use ai_customer_support_plat.Prelude.{
  Bool, List, String, [], false, if◌then◌else◌, leb, length, ltb, true, ℕ, ◌&&◌, ◌*◌, ◌+◌, ◌==◌,
  ◌∷◌,
}
use ai_customer_support_plat.Evaluation.{Evaluation}

pub record CaseResult : Type 0 where
  pub passed : Bool
  pub evaluations : List Evaluation

-- {"passed": …, "total": …}, and the quotient of the two, 0.0 if there are none
pub record Counts : Type 0 where
  pub passed : ℕ
  pub total : ℕ

abbrev pub one_if : Bool → ℕ
one_if true = 1
one_if false = 0

abbrev pub counted_in : Evaluation → Counts → Counts
counted_in e c = record { passed = c.passed + one_if e.passed; total = c.total + 1 }

abbrev pub no_counts : Counts
no_counts = record { passed = 0; total = 0 }

abbrev pub Metrics : Type 0
Metrics = List (String × Counts)

-- metric_counts.setdefault(name, …), and the two increments
unfoldable pub count_evaluation : Evaluation → Metrics → Metrics
count_evaluation e [] = (e.name, counted_in e no_counts) ∷ []
count_evaluation e ((name, c) ∷ metrics) =
    let rest = count_evaluation e metrics in
    if name == e.name then (name, counted_in e c) ∷ metrics else (name, c) ∷ rest

unfoldable pub count_evaluations : List Evaluation → Metrics → Metrics
count_evaluations [] metrics = metrics
count_evaluations (e ∷ es) metrics = count_evaluations es (count_evaluation e metrics)

unfoldable pub count_results : List CaseResult → Metrics → Metrics
count_results [] metrics = metrics
count_results (r ∷ rs) metrics = count_results rs (count_evaluations r.evaluations metrics)

pub record Aggregated : Type 0 where
  pub cases : Counts
  pub by_metric : Metrics

abbrev passed_cases : List CaseResult → ℕ
passed_cases [] = 0
passed_cases (r ∷ rs) = one_if r.passed + passed_cases rs

-- `aggregate_results`
unfoldable pub aggregate_results : List CaseResult → Aggregated
aggregate_results results = record {
  cases = record { passed = passed_cases results; total = length results };
  by_metric = count_results results [];
}

-- THRESHOLDS, in tenths
abbrev pub thresholds : List (String × ℕ)
thresholds =
    ("intent_accuracy", 8)
    ∷ ("escalation_accuracy", 7)
    ∷ ("keyword_coverage", 6)
    ∷ ("groundedness", 5)
    ∷ ("tool_call_accuracy", 7)
    ∷ ("policy_compliance", 8)
    ∷ ("unauthorized_action", 10)
    ∷ []

-- by_metric.get(metric, {})
abbrev pub counts_of : String → Metrics → Counts
counts_of metric [] = no_counts
counts_of metric ((name, c) ∷ metrics) = if name == metric then c else counts_of metric metrics

-- pass_rate >= threshold
abbrev pub meets : ℕ → Counts → Bool
meets tenths c = ltb 0 c.total && leb (tenths * c.total) (10 * c.passed)

abbrev check_each : List (String × ℕ) → Metrics → List (String × Bool)
check_each [] metrics = []
check_each ((metric, tenths) ∷ rest) metrics =
    (metric, meets tenths (counts_of metric metrics)) ∷ check_each rest metrics

-- `check_thresholds`
unfoldable pub check_thresholds : Aggregated → List (String × Bool)
check_thresholds aggregated = check_each thresholds aggregated.by_metric
