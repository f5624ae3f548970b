-- ===== src/Examples/Graph.antt =====
-- Runs of the graph's routes and nodes.
use ai_customer_support_plat.Value.{bool, end, field, get, has_key, put}
use ai_customer_support_plat.Policy.Types.{company_config}
use ai_customer_support_plat.Policy.Escalation.{escalation_from_facts, should_escalate}
use ai_customer_support_plat.Security.Authorization.{authorize_tool, required_scopes}
use ai_customer_support_plat.Agents.Messages.{human}
use ai_customer_support_plat.Agents.Facts.{facts_from_tool_results}
use ai_customer_support_plat.Agents.ToolLoop.{
  call_tool, conclude, find_tool, handle_call, handle_calls, note_payload, note_value, rounds,
  run_tool_loop,
}
use ai_customer_support_plat.Tools.Account.{evaluate_escalation}
use ai_customer_support_plat.Tools.Workers.{Worker, account}
use ai_customer_support_plat.Graph.State.{SupportState}
use ai_customer_support_plat.Graph.Edges.{escalation, route_after_worker}
use ai_customer_support_plat.Graph.Nodes.{
  bind_ticket_customer, last_user_message, run_worker, worker_node,
}
use ai_customer_support_plat.Graph.Routing.{worker_node_escalates}
use ai_customer_support_plat.Examples.Data.{fraud_model, search_kb, uuids, world}
use ai_customer_support_plat.Prelude.{String, [], none, refl, some, true, ◌∷◌, ◌≡◌}
use ai_customer_support_plat.Graph.Workflow.{Node}

-- the state of a ticket behind the first message of its customer
abbrev pub opened : SupportState
opened = record {
  ticket_id = "TCK-1";
  customer_id = some "00000000-0000-0000-0000-000000000001";
  customer_public_id = some "CUS-0007";
  customer_tier = some "standard";
  account_status = some "active";
  order_public_id = none;
  order_status = none;
  order_total = none;
  customer_name = some "Ana";
  orders_summary = none;
  messages = human "My card was used by somebody else." ∷ [];
  intent = some "account";
  confidence = none;
  retrieved_context = none;
  tool_results = none;
  policy_decision = none;
  needs_human = none;
  draft_answer = none;
  refund_tool_success = none;
  refund_executed = none;
  principal_scopes = some ("read" ∷ []);
}

-- the same ticket after a worker has found that a human is needed
abbrev pub handed_over : SupportState
handed_over = record opened {
  policy_decision = some (field "requires_human" (bool true) end);
  needs_human = some true;
  draft_answer = some "One moment.";
}

abbrev pub prompt : Worker → SupportState → String
prompt k s = "You represent TechStore."

fraud_reported :
    (escalation_from_facts (
      facts_from_tool_results
        (run_worker uuids [] company_config search_kb fraud_model prompt account opened
          world).tool_results)).escalate
    ≡ true
unfolding run_tool_loop conclude rounds handle_calls handle_call call_tool find_tool authorize_tool
    required_scopes escalation_from_facts facts_from_tool_results should_escalate
    evaluate_escalation get put has_key note_value note_payload run_worker last_user_message
    bind_ticket_customer
fraud_reported = refl

worker_node_escalates_example :
    route_after_worker
      (worker_node uuids [] company_config search_kb fraud_model prompt account (opened, world)).0
    ≡ escalation
worker_node_escalates_example =
    worker_node_escalates uuids [] company_config search_kb fraud_model prompt account opened world
      fraud_reported

-- every node leaves the opened ticket as it is
abbrev idle : Node → SupportState
idle n = opened
