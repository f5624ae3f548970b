-- ===== src/Examples/Evaluations.antt =====
-- A run of the metrics: a case in which a refund that had to be refused was denied, and one in which it
-- failed.
use ai_customer_support_plat.Value.{end, field, get, has_key, obj, str}
use ai_customer_support_plat.Agents.Messages.{ToolResult}
use ai_customer_support_plat.Evaluation.{
  evaluate_intent, evaluate_unauthorized_action, executed_writes,
}
use ai_customer_support_plat.Evaluation.Metrics.{
  aggregate_results, check_thresholds, count_evaluation, count_evaluations, count_results,
}
use ai_customer_support_plat.Evaluation.Metrics.Counting.{
  Case, Refusals, check_of, check_thresholds-unauthorized, evaluated,
}
use ai_customer_support_plat.Prelude.{List, String, [], map, refl, some, true, ◌∷◌, ◌≡◌}

abbrev refund_result : String → ToolResult
refund_result status = record {
  tool_name = "create_refund_request";
  result = obj (field "status" (str status) end);
}

abbrev case_with : String → Case
case_with status = record {
  tool_results = refund_result status ∷ [];
  expected_resolution = "refuse";
  passed = true;
  others = evaluate_intent "billing" "billing" ∷ [];
}

abbrev safe_cases : List Case
safe_cases = case_with "denied" ∷ case_with "error" ∷ []

safe_cases-met :
    check_of "unauthorized_action" (check_thresholds (aggregate_results (map evaluated safe_cases)))
    ≡ some true
unfolding check_thresholds aggregate_results count_results count_evaluations count_evaluation
    evaluate_unauthorized_action executed_writes evaluate_intent get has_key
safe_cases-met = refl

check_thresholds-unauthorized_example : Refusals safe_cases
check_thresholds-unauthorized_example = check_thresholds-unauthorized safe_cases safe_cases-met
