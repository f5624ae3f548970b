-- ===== src/Graph/Journeys.antt =====
-- What a turn carries along the edges of the graph, from its input to the route of the supervisor, and
use ai_customer_support_plat.Prelude.{
  List, Option, String, ap, inl, inr, some, strip, true, ℕ, ◌++◌, ◌∙◌, ◌≡◌,
}
use ai_customer_support_plat.Value.{Value}
use ai_customer_support_plat.Tools.Database.{Uuids, World, Order}
use ai_customer_support_plat.Services.OrderSummary.{Labels}
use ai_customer_support_plat.Services.Tickets.{Ticket}
use ai_customer_support_plat.Security.Patterns.{Unicode, lower_text}
use ai_customer_support_plat.Security.Guardrails.{any_pattern, injection_patterns}
use ai_customer_support_plat.Agents.Messages.{Message}
use ai_customer_support_plat.Agents.ToolLoop.{asks_human}
use ai_customer_support_plat.Graph.State.{SupportState}
use ai_customer_support_plat.Graph.Edges.{route_after_supervisor, escalation}
use ai_customer_support_plat.Graph.Nodes.{
  HumanPayload, last_user_message, resume_escalation, supervisor_node,
}
use ai_customer_support_plat.Graph.Routing.{routes_iff}
use ai_customer_support_plat.Graph.Guards.{
  input_guardrails_node, input_guardrails_node-decision, input_guardrails_node-injected,
  output_guardrails_node, output_guardrails_node-decision,
}
use ai_customer_support_plat.Graph.Context.{load_customer_context_node}
use ai_customer_support_plat.Graph.Context.Flags.{
  AsksHuman, AsksHuman-required, load_customer_context_node-AsksHuman,
}

-- from one turn to the next.
-- The state that a new message finds: the input of `stream_customer_turn`, over what the
-- checkpoint keeps of the turn before.
unfoldable pub with_input :
    String → String → List Message → List String → SupportState → SupportState
with_input ticket_id customer_id messages scopes s = record s {
  ticket_id = ticket_id;
  customer_id = some customer_id;
  messages = s.messages ++ messages;
  principal_scopes = some scopes;
}

module _ (unicode : Unicode) (u : Uuids) (labels : Labels) (newest_first : List Order → List Order)
    (amount_text : ℕ → String) (tickets : ℕ → Option Ticket)
    (classify : String → String × Value) where
  -- the nodes in front of the first conditional edge
  abbrev pub supervised : SupportState → World → SupportState
  supervised s w = supervisor_node classify (
      load_customer_context_node u labels newest_first amount_text tickets
        (input_guardrails_node unicode s) w)

  supervised-escalation :
      (s : SupportState) (w : World)
      → AsksHuman (input_guardrails_node unicode s)
      → route_after_supervisor (supervised s w) ≡ escalation
  unfolding supervisor_node
  supervised-escalation s w h = (routes_iff _).0.1 (
      AsksHuman-required _ (
        load_customer_context_node-AsksHuman u labels newest_first amount_text tickets
          (input_guardrails_node unicode s) w h))

  -- A message in which an injection is found reaches no worker: behind the input guardrails, the
  -- loading of the customer's context and the supervisor, the turn goes to the escalation, whatever
  -- the database holds and the classifier says.
  pub injection_reaches_no_worker :
      (s : SupportState) (w : World)
      → any_pattern injection_patterns (lower_text unicode (strip (last_user_message s))) ≡ true
      → route_after_supervisor (supervised s w) ≡ escalation
  injection_reaches_no_worker s w h =
      supervised-escalation s w (inl (input_guardrails_node-injected unicode s h))

  -- A decision that requires a human outlives the human's answer: behind the answer and the output
  -- guardrails, the next message of the customer goes through the input guardrails, the loading of the
  -- context and the supervisor to the escalation once more, whatever it is about.
  pub resume_escalation-sticky :
      (payload : HumanPayload) (s : SupportState) (ticket_id customer_id : String)
      (messages : List Message) (scopes : List String) (w : World)
      → asks_human s.policy_decision ≡ true
      → route_after_supervisor (
          supervised
            (with_input ticket_id customer_id messages scopes
              (output_guardrails_node unicode (resume_escalation payload s)))
            w)
        ≡ escalation
  unfolding with_input resume_escalation
  resume_escalation-sticky payload s ticket_id customer_id messages scopes w h =
      supervised-escalation _ w (
        inr (
          ap asks_human (
            input_guardrails_node-decision unicode _
            ∙ output_guardrails_node-decision unicode (resume_escalation payload s))
          ∙ h))
