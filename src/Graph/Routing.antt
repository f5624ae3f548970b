-- ===== src/Graph/Routing.antt =====
-- Where the graph goes, and what the escalation leaves behind.
use ai_customer_support_plat.Value.{Fields, Value, get, or_empty, truthy, truthy_value}
use ai_customer_support_plat.Policy.Types.{CompanyConfig}
use ai_customer_support_plat.Policy.Escalation.{escalation_from_facts, should_escalate, text_of}
use ai_customer_support_plat.Agents.Messages.{Message, Outcome, Reply}
use ai_customer_support_plat.Agents.Facts.{facts_from_tool_results}
use ai_customer_support_plat.Agents.ToolLoop.Handoff.{run_tool_loop-catalog}
use ai_customer_support_plat.Services.OrderSummary.{Labels}
use ai_customer_support_plat.Tools.Database.{Uuids, World}
use ai_customer_support_plat.Tools.Workers.{Worker, worker_tools}
use ai_customer_support_plat.Graph.State.{SupportState, is_set}
use ai_customer_support_plat.Graph.Edges.{
  Target, catalog_requires_escalation, decision_escalates, escalation, resolution,
  route_after_supervisor, route_after_worker, trigger_escalates, worker, worker_for,
}
use ai_customer_support_plat.Graph.Nodes.{
  bind_ticket_customer, last_user_message, merge_result, run_worker, scopes_of, worker_node,
}
use ai_customer_support_plat.Prelude.{
  Bool, List, Option, String, ap, false, if◌then◌else◌, none, refl, some, true, ◌↔◌, ◌≡◌, ◌≢◌,
}

-- The reasons for a human, each by itself.
pub data NeedsEscalation (s : SupportState) : Type 0 where
  flagged : s.needs_human ≡ some true → NeedsEscalation s
  by_policy : truthy (get (or_empty s.policy_decision) "requires_human") ≡ true → NeedsEscalation s
  by_trigger :
      (v : Value)
      → get (or_empty s.policy_decision) "escalation_trigger" ≡ some v
      → truthy_value v ≡ true
      → (should_escalate
          (text_of v)
          (truthy (get (or_empty s.policy_decision) "customer_insists_after_refusal"))).escalate
        ≡ true
      → NeedsEscalation s

required_lem : (s : SupportState) → catalog_requires_escalation s ≡ true → NeedsEscalation s
unfolding catalog_requires_escalation decision_escalates
required_lem s h = by_flag s.needs_human refl h
  where
    decision : Fields
    decision = or_empty s.policy_decision

    insists : Bool
    insists = truthy (get decision "customer_insists_after_refusal")

    by_test :
        (v : Value) (b : Bool)
        → get decision "escalation_trigger" ≡ some v
        → truthy_value v ≡ b
        → (if b then (should_escalate (text_of v) insists).escalate else false) ≡ true
        → NeedsEscalation s
    by_test v true e t x = by_trigger v e t x
    by_test v false e t x = cc

    by_name :
        (o : Option Value)
        → get decision "escalation_trigger" ≡ o
        → trigger_escalates decision o ≡ true
        → NeedsEscalation s
    by_name none e x = cc
    by_name (some v) e x = by_test v (truthy_value v) e refl x

    by_decision :
        (b : Bool)
        → truthy (get decision "requires_human") ≡ b
        → (if b then true else trigger_escalates decision (get decision "escalation_trigger"))
          ≡ true
        → NeedsEscalation s
    by_decision true e x = by_policy e
    by_decision false e x = by_name (get decision "escalation_trigger") refl x

    by_flag :
        (n : Option Bool)
        → s.needs_human ≡ n
        → (if is_set n
            then true
            else (if truthy (get decision "requires_human")
                then true
                else trigger_escalates decision (get decision "escalation_trigger")))
          ≡ true
        → NeedsEscalation s
    by_flag none e x = by_decision (truthy (get decision "requires_human")) refl x
    by_flag (some true) e x = flagged e
    by_flag (some false) e x = by_decision (truthy (get decision "requires_human")) refl x

else_true : (b : Bool) {x : Bool} → x ≡ true → (if b then true else x) ≡ true
else_true true h = refl
else_true false h = h

by_decision :
    (s : SupportState)
    → decision_escalates (or_empty s.policy_decision) ≡ true
    → catalog_requires_escalation s ≡ true
unfolding catalog_requires_escalation
by_decision s h = else_true (is_set s.needs_human) h

required_if : (s : SupportState) → NeedsEscalation s → catalog_requires_escalation s ≡ true
unfolding catalog_requires_escalation decision_escalates
required_if s (flagged e) = rw e refl
required_if s (by_policy e) = by_decision s (rw e refl)
required_if s (by_trigger v e t x) =
    by_decision s
      (else_true (truthy (get (or_empty s.policy_decision) "requires_human")) (rw e (rw t x)))

tested :
    (b : Bool) (t : Target)
    → t ≢ escalation
    → ((if b then escalation else t) ≡ escalation) ↔ (b ≡ true)
tested true t n = (λ h. refl, λ h. refl)
tested false t n = (λ h. absurd (n h), λ h. cc)

-- Both routes lead to the escalation exactly when a human is asked for by the state's flag, by the
-- policy, or by a trigger of the catalog that the decision names.
pub routes_iff :
    (s : SupportState)
    → ((route_after_supervisor s ≡ escalation) ↔ NeedsEscalation s)
      × ((route_after_worker s ≡ escalation) ↔ NeedsEscalation s)
unfolding route_after_supervisor route_after_worker
routes_iff s =
    let a = tested (catalog_requires_escalation s) (worker (worker_for s.intent)) (λ e. cc) in
    let b = tested (catalog_requires_escalation s) resolution (λ e. cc) in
    (
      (λ h. required_lem s (a.0 h), λ n. a.1 (required_if s n)),
      (λ h. required_lem s (b.0 h), λ n. b.1 (required_if s n)),
    )

module _ (u : Uuids) (labels : Labels) (c : CompanyConfig) (search_kb : Fields → Outcome)
    (model : List Message → Reply) (prompt : Worker → SupportState → String) where
  -- After a worker whose tools have answered with Facts of the escalation catalog, the graph goes to
  -- the escalation, whatever the model has said.
  pub worker_node_escalates :
      (k : Worker) (s : SupportState) (w : World)
      → (escalation_from_facts (
          facts_from_tool_results
            (run_worker u labels c search_kb model prompt k s w).tool_results)).escalate
        ≡ true
      → route_after_worker (worker_node u labels c search_kb model prompt k (s, w)).0 ≡ escalation
  unfolding worker_node run_worker merge_result
  worker_node_escalates k s w h = (routes_iff _).1.1 (
      flagged (
        ap some (
          run_tool_loop-catalog model (worker_tools u labels c search_kb k) (scopes_of s)
            (prompt k s) (last_user_message s) s.messages ""
            (bind_ticket_customer u s.customer_id w) h)))
