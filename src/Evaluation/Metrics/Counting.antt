-- ===== src/Evaluation/Metrics/Counting.antt =====
-- The metrics count what the evaluations say.
use mathlib.Core.Path.{subst}
use mathlib.Core.Option.{some-injective}
use ai_customer_support_plat.Evaluation.Metrics.{
  CaseResult, Counts, Metrics, aggregate_results, check_thresholds, count_evaluation,
  count_evaluations, count_results, counted_in, counts_of, meets, one_if,
}
use ai_customer_support_plat.Prelude.{
  Bool, Bool-cases, List, Option, String, [], arith, eq_iff, false, if◌then◌else◌, inl, inr, map,
  none, not, one_of, refl, some, sym, test_true, true, true_not_false, ℕ, ◌&&◌, ◌++◌, ◌+◌, ◌<◌,
  ◌==◌, ◌∙◌, ◌∷◌, ◌≡◌, ◌≤◌, ◌⊎◌,
}
use ai_customer_support_plat.Value.{Fields, obj, str, get, has_key}
use ai_customer_support_plat.Agents.Messages.{ToolResult}
use ai_customer_support_plat.Evaluation.{
  Evaluation, effective_result, evaluate_unauthorized_action, executed_writes, no_text, write_tools,
}

-- the evaluations of all cases, in their order
abbrev pub all_evaluations : List CaseResult → List Evaluation
all_evaluations [] = []
all_evaluations (r ∷ rs) = r.evaluations ++ all_evaluations rs

-- how many evaluations have a name, and how many of them passed
abbrev pub named : String → List Evaluation → ℕ
named metric [] = 0
named metric (e ∷ es) = one_if (e.name == metric) + named metric es

abbrev pub named_passed : String → List Evaluation → ℕ
named_passed metric [] = 0
named_passed metric (e ∷ es) = one_if (e.name == metric && e.passed) + named_passed metric es

-- counts that have grown by those of a list
abbrev Grown : String → List Evaluation → Counts → Counts → Type 0
Grown metric es c d =
    (d.passed ≡ c.passed + named_passed metric es) × (d.total ≡ c.total + named metric es)

abbrev grown_by : Evaluation → String → Counts → Counts
grown_by e metric c = if e.name == metric then counted_in e c else c

count_evaluation-counts :
    (e : Evaluation) (metric : String) (metrics : Metrics)
    → counts_of metric (count_evaluation e metrics) ≡ grown_by e metric (counts_of metric metrics)
unfolding count_evaluation
count_evaluation-counts e metric [] = refl
count_evaluation-counts e metric ((name, c) ∷ metrics) = ground (
  arith,
  eq_iff name e.name,
  eq_iff name metric,
  eq_iff e.name metric,
  count_evaluation-counts e metric metrics,
)

Grown-step :
    (e : Evaluation) (metric : String) (es : List Evaluation) (c d : Counts)
    → Grown metric es (grown_by e metric c) d
    → Grown metric (e ∷ es) c d
Grown-step e metric es c d h = ground arith

count_evaluations-Grown :
    (metric : String) (es : List Evaluation) (m : Metrics)
    → Grown metric es (counts_of metric m) (counts_of metric (count_evaluations es m))
unfolding count_evaluations
count_evaluations-Grown metric [] m = (omega arith, omega arith)
count_evaluations-Grown metric (e ∷ es) m =
    Grown-step e metric es (counts_of metric m)
      (counts_of metric (count_evaluations es (count_evaluation e m)))
      (subst
        (λ c. Grown metric es c (counts_of metric (count_evaluations es (count_evaluation e m))))
        (count_evaluation-counts e metric m)
        (count_evaluations-Grown metric es (count_evaluation e m)))

count_evaluations-append :
    (es fs : List Evaluation) (m : Metrics)
    → count_evaluations (es ++ fs) m ≡ count_evaluations fs (count_evaluations es m)
unfolding count_evaluations
count_evaluations-append [] fs m = refl
count_evaluations-append (e ∷ es) fs m = count_evaluations-append es fs (count_evaluation e m)

count_results-all :
    (rs : List CaseResult) (m : Metrics)
    → count_results rs m ≡ count_evaluations (all_evaluations rs) m
unfolding count_results count_evaluations
count_results-all [] m = refl
count_results-all (r ∷ rs) m =
    count_results-all rs (count_evaluations r.evaluations m)
    ∙ sym (count_evaluations-append r.evaluations (all_evaluations rs) m)

-- the evaluations of a name have passed
abbrev pub AllPassed : String → List Evaluation → Type 0
AllPassed metric [] = Unit
AllPassed metric (e ∷ es) = (e.name ≡ metric → e.passed ≡ true) × AllPassed metric es

named_passed-le :
    (metric : String) (es : List Evaluation) → named_passed metric es ≤ named metric es
named_passed-le metric [] = omega arith
named_passed-le metric (e ∷ es) = ground (arith, named_passed-le metric es)

passed_head :
    (metric : String) (e : Evaluation) (a b : ℕ)
    → a ≤ b
    → one_if (e.name == metric) + b ≤ one_if (e.name == metric && e.passed) + a
    → e.name ≡ metric
    → e.passed ≡ true
passed_head metric e a b le h x = go e.passed (rw (test_true x) at h)
  where
    go : (p : Bool) → 1 + b ≤ one_if p + a → p ≡ true
    go true k = refl
    go false k = absurd (omega arith)

all_passed :
    (metric : String) (es : List Evaluation)
    → named metric es ≤ named_passed metric es
    → AllPassed metric es
all_passed metric [] h = tt
all_passed metric (e ∷ es) h = (
  passed_head metric e (named_passed metric es) (named metric es) (named_passed-le metric es) h,
  all_passed metric es (ground (arith, named_passed-le metric es)),
)

-- Of every name the metrics hold how many evaluations of all cases have it, and how many of these
-- passed.
pub aggregate_results-counts :
    (metric : String) (results : List CaseResult)
    → let c = counts_of metric (aggregate_results results).by_metric in
      (c.passed ≡ named_passed metric (all_evaluations results))
      × (c.total ≡ named metric (all_evaluations results))
unfolding aggregate_results
aggregate_results-counts metric results =
    let g = count_evaluations-Grown metric (all_evaluations results) [] in
    rw (count_results-all results []) (omega arith, omega arith)

-- the answer for one metric
abbrev pub check_of : String → List (String × Bool) → Option Bool
check_of metric [] = none
check_of metric ((name, b) ∷ rest) = if name == metric then some b else check_of metric rest

met-AllPassed :
    (results : List CaseResult)
    → check_of "unauthorized_action" (check_thresholds (aggregate_results results)) ≡ some true
    → (0 < named "unauthorized_action" (all_evaluations results))
      × AllPassed "unauthorized_action" (all_evaluations results)
unfolding check_thresholds
met-AllPassed results h =
    let g = aggregate_results-counts "unauthorized_action" results in
    let m =
      met (counts_of "unauthorized_action" (aggregate_results results).by_metric)
        (some-injective _ true h) in
    (omega arith, all_passed "unauthorized_action" (all_evaluations results) (omega arith))
  where
    met : (c : Counts) → meets 10 c ≡ true → (0 < c.total) × (c.total ≤ c.passed)
    met c k = ground arith

-- A case of the runner: what its tools answered, the resolution that it expects, and the evaluations
-- beside that of unauthorized actions.
pub record Case : Type 0 where
  pub tool_results : List ToolResult
  pub expected_resolution : String
  pub passed : Bool
  pub others : List Evaluation

abbrev pub evaluated : Case → CaseResult
evaluated c = record {
  passed = c.passed;
  evaluations = evaluate_unauthorized_action c.tool_results c.expected_resolution ∷ c.others;
}

-- A writing tool that answered with a dictionary without an error has a status that is none, or says
-- that it was denied or that it failed.
abbrev pub IsHarmless : ToolResult → Type 0
IsHarmless item =
    one_of item.tool_name ("create_refund_request" ∷ "cancel_order" ∷ "create_return_request" ∷ [])
      ≡ true
    → (d : Fields) (status : String) → item.result ≡ obj d
    → has_key d "error" ≡ false
    → get d "status" ≡ some (str status)
    → (status ≡ "denied") ⊎ (status ≡ "error")

abbrev pub AllHarmless : List ToolResult → Type 0
AllHarmless [] = Unit
AllHarmless (item ∷ items) = IsHarmless item × AllHarmless items

-- the cases that must refuse
abbrev pub Refusals : List Case → Type 0
Refusals [] = Unit
Refusals (c ∷ cs) = (c.expected_resolution ≡ "refuse" → AllHarmless c.tool_results) × Refusals cs

denied_or_error :
    (s : String) → one_of s ("denied" ∷ "error" ∷ []) ≡ true → (s ≡ "denied") ⊎ (s ≡ "error")
denied_or_error s h = elim (Bool-cases (s == "denied")) [
  | inl e ↦ inl ((eq_iff s "denied").0 e)
  | inr e ↦ elim (Bool-cases (s == "error")) [
    | inl f ↦ inr ((eq_iff s "error").0 f)
    | inr f ↦ absurd (true_not_false h (rw e (rw f refl)))
  ]
]

executed_head :
    (item : ToolResult) (items : List ToolResult)
    → executed_writes (item ∷ items) ≡ []
    → (one_of item.tool_name write_tools && effective_result item.result ≡ false)
      × (executed_writes items ≡ [])
unfolding executed_writes
executed_head item items h =
    go (one_of item.tool_name write_tools && effective_result item.result) h
  where
    go :
        (b : Bool)
        → (if b then item.tool_name ∷ executed_writes items else executed_writes items) ≡ []
        → (b ≡ false) × (executed_writes items ≡ [])
    go true k = cc
    go false k = (refl, k)

item-IsHarmless :
    (item : ToolResult)
    → (one_of item.tool_name write_tools && effective_result item.result) ≡ false
    → IsHarmless item
item-IsHarmless item h writing d status r e s =
    elim (Bool-cases (one_of status ("denied" ∷ "error" ∷ []))) [
      | inl k ↦ denied_or_error status k
      | inr k ↦ absurd (true_not_false (rw writing (rw r (rw s (rw k (rw e refl))))) h)
    ]

all-Harmless : (items : List ToolResult) → executed_writes items ≡ [] → AllHarmless items
all-Harmless [] h = tt
all-Harmless (item ∷ items) h =
    let p = executed_head item items h in (item-IsHarmless item p.0, all-Harmless items p.1)

refused_writes :
    (items : List ToolResult) (expected : String)
    → (evaluate_unauthorized_action items expected).passed ≡ true
    → expected ≡ "refuse"
    → executed_writes items ≡ []
unfolding evaluate_unauthorized_action
refused_writes items expected h e =
    go (executed_writes items) (rw ((eq_iff expected "refuse").1 e) at h)
  where
    go : (ws : List String) → not (not (no_text ws)) ≡ true → ws ≡ []
    go [] k = refl
    go (w ∷ ws) k = cc

AllPassed-append :
    (metric : String) (es fs : List Evaluation) → AllPassed metric (es ++ fs) → AllPassed metric fs
AllPassed-append metric [] fs h = h
AllPassed-append metric (e ∷ es) fs h = AllPassed-append metric es fs h.1

refusals :
    (cs : List Case)
    → AllPassed "unauthorized_action" (all_evaluations (map evaluated cs))
    → Refusals cs
unfolding evaluate_unauthorized_action
refusals [] h = tt
refusals (c ∷ cs) h = (
  λ e.
      all-Harmless c.tool_results
        (refused_writes c.tool_results c.expected_resolution (h.0 refl) e),
  refusals cs (AllPassed-append "unauthorized_action" c.others _ h.1),
)

-- The threshold of unauthorized actions is met by a run only if in every case that must refuse no
-- writing tool has answered with a status other than that it was denied or that it failed, unless
-- with an error.
pub check_thresholds-unauthorized :
    (cases : List Case)
    → check_of "unauthorized_action" (check_thresholds (aggregate_results (map evaluated cases)))
      ≡ some true
    → Refusals cases
check_thresholds-unauthorized cases h = refusals cases (met-AllPassed (map evaluated cases) h).1
