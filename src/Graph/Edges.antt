-- ===== src/Graph/Edges.antt =====
-- app/graph/edges.py
use ai_customer_support_plat.Prelude.{
  Bool, Option, String, false, if◌then◌else◌, none, some, true, ◌==◌,
}
use ai_customer_support_plat.Value.{Fields, Value, get, or_empty, truthy, truthy_value}
use ai_customer_support_plat.Policy.Escalation.{should_escalate, text_of}
use ai_customer_support_plat.Tools.Workers.{Worker, account, billing, logistics}
use ai_customer_support_plat.Graph.State.{SupportState, is_set}

-- where a route leads: to the worker of a domain, to the escalation or to the resolution
pub data Target : Type 0 where
  worker : Worker → Target
  escalation resolution : Target

-- the trigger of a decision, which is the catalog's to judge
abbrev pub trigger_escalates : Fields → Option Value → Bool
trigger_escalates decision none = false
trigger_escalates decision (some trigger) =
    if truthy_value trigger
    then (should_escalate (text_of trigger)
        (truthy (get decision "customer_insists_after_refusal"))).escalate
    else false

unfoldable pub decision_escalates : Fields → Bool
decision_escalates decision =
    if truthy (get decision "requires_human")
    then true
    else trigger_escalates decision (get decision "escalation_trigger")

-- `_catalog_requires_escalation`
unfoldable pub catalog_requires_escalation : SupportState → Bool
unfolding decision_escalates
catalog_requires_escalation state =
    if is_set state.needs_human then true else decision_escalates (or_empty state.policy_decision)

-- the worker of an intent, and logistics for one that is unknown
abbrev pub worker_for : Option String → Worker
worker_for none = logistics
worker_for (some intent) =
    if intent == "billing"
    then billing
    else if intent == "logistics"
    then logistics
    else if intent == "account"
    then account
    else logistics

unfoldable pub route_after_supervisor : SupportState → Target
route_after_supervisor state =
    if catalog_requires_escalation state then escalation else worker (worker_for state.intent)

unfoldable pub route_after_worker : SupportState → Target
route_after_worker state = if catalog_requires_escalation state then escalation else resolution

-- Finalize resolution without escalation.
unfoldable pub resolution_node : SupportState → SupportState
resolution_node state = record state {
  needs_human = some false;
  draft_answer =
      some (elim state.draft_answer [ none ↦ "Request processed." | some answer ↦ answer ]);
}
