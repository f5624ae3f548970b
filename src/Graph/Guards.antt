-- ===== src/Graph/Guards.antt =====
-- The guardrail nodes of app/graph/nodes.py, and what they keep from the workers and the customer.
use mathlib.Core.Path.{subst}
use ai_customer_support_plat.Value.{Fields}
use ai_customer_support_plat.Policy.Types.{CompanyConfig}
use ai_customer_support_plat.Security.Patterns.{Unicode, lower_text}
use ai_customer_support_plat.Security.Guardrails.{
  Checked, any_pattern, injection_patterns, passed, sanitize_input, validate_output, violation,
}
use ai_customer_support_plat.Security.Guardrails.Outcomes.{IsAllowed, validate_output_iff}
use ai_customer_support_plat.Agents.Messages.{Message, Outcome, Reply, ai}
use ai_customer_support_plat.Agents.Escalation.{customer_escalation_reply, text_or_empty}
use ai_customer_support_plat.Services.OrderSummary.{Labels}
use ai_customer_support_plat.Tools.Database.{Uuids, World}
use ai_customer_support_plat.Tools.Workers.{Worker}
use ai_customer_support_plat.Tools.Writes.{worker_never_executes}
use ai_customer_support_plat.Graph.State.{SupportState, is_set}
use ai_customer_support_plat.Graph.Edges.{resolution_node}
use ai_customer_support_plat.Graph.Nodes.{
  HumanPayload, bind_ticket_customer, last_user_message, merge_result, resume_escalation,
  run_worker, scopes_of, worker_node,
}
use ai_customer_support_plat.Prelude.{
  Bool, Bool-cases, List, String, [], ap, false, if◌then◌else◌, inl, inr, none, nonempty, refl,
  some, strip, true, ◌++◌, ◌⁀◌, ◌∷◌, ◌≡◌,
}

block_input : Checked → SupportState → SupportState
block_input (passed cleaned) state = state
block_input (violation reason) state = record state {
  needs_human = some true;
  draft_answer = some ("Input blocked: " ⁀ reason);
}

unfoldable pub input_guardrails_node : Unicode → SupportState → SupportState
unfolding block_input
input_guardrails_node u state = block_input (sanitize_input u (last_user_message state)) state

-- the validated answer, or the update of `run_escalation_agent`, of which the state has three keys
release_output : Checked → SupportState → SupportState
release_output (passed cleaned) state = record state { draft_answer = some cleaned }
release_output (violation reason) state =
    let message = customer_escalation_reply none in
    record state {
      needs_human = some true;
      draft_answer = some message;
      messages = state.messages ++ ai (record { content = message; tool_calls = [] }) ∷ [];
    }

unfoldable pub output_guardrails_node : Unicode → SupportState → SupportState
unfolding release_output
output_guardrails_node u state =
    let answer = text_or_empty state.draft_answer in
    if nonempty answer
    then release_output (validate_output u answer (is_set state.refund_executed)) state
    else state

-- The draft that a turn ends with: none, one that passed the guardrail, or the handoff.
pub data Draft (u : Unicode) (refund_executed : Bool) : String → Type 0 where
  empty : Draft u refund_executed ""
  allowed : (text : String) → IsAllowed u refund_executed text → Draft u refund_executed text
  handoff : Draft u refund_executed (customer_escalation_reply none)

release_output-Draft :
    (u : Unicode) (s : SupportState) (answer : String) (r : Checked)
    → validate_output u answer (is_set s.refund_executed) ≡ r
    → Draft u (is_set s.refund_executed) (text_or_empty (release_output r s).draft_answer)
unfolding release_output
release_output-Draft u s answer (passed cleaned) e =
    allowed cleaned ((validate_output_iff u answer cleaned (is_set s.refund_executed)).0 e).1
release_output-Draft u s answer (violation reason) e = handoff

empty-Draft : (u : Unicode) (b : Bool) (s : String) → nonempty s ≡ false → Draft u b s
empty-Draft u b String.[] h = empty
empty-Draft u b (String.◌∷◌ c s) h = cc

-- Whatever draft a turn has come to, the customer gets nothing, a short answer that claims no refund
-- unless one was executed, or the text that hands over to a specialist.
pub output_guardrails_node-Draft :
    (u : Unicode) (s : SupportState)
    → Draft u (is_set s.refund_executed) (text_or_empty (output_guardrails_node u s).draft_answer)
unfolding output_guardrails_node
output_guardrails_node-Draft u s = elim (Bool-cases (nonempty (text_or_empty s.draft_answer))) [
  | inl e ↦ rw e (release_output-Draft u s (text_or_empty s.draft_answer) _ refl)
  | inr e ↦ rw e (empty-Draft u _ _ e)
]

unexecuted-Draft :
    (u : Unicode) (s : SupportState)
    → is_set s.refund_executed ≡ false
    → Draft u false (text_or_empty (output_guardrails_node u s).draft_answer)
unexecuted-Draft u s e =
    subst (λ b. Draft u b (text_or_empty (output_guardrails_node u s).draft_answer)) e
      (output_guardrails_node-Draft u s)

module _ (u : Uuids) (labels : Labels) (c : CompanyConfig) (search_kb : Fields → Outcome)
    (model : List Message → Reply) (prompt : Worker → SupportState → String) where
  worker_node-refund_executed :
      (k : Worker) (s : SupportState) (w : World)
      → (worker_node u labels c search_kb model prompt k (s, w)).0.refund_executed ≡ some false
  unfolding worker_node run_worker merge_result
  worker_node-refund_executed k s w = ap some (
      worker_never_executes u labels c search_kb k (scopes_of s) model (prompt k s)
        (last_user_message s) s.messages "" (bind_ticket_customer u s.customer_id w))

  -- After any worker, and whether the turn is resolved or a human answers, the draft that leaves the
  -- graph claims no refund, unless it is the handoff text, and is empty or at most 20,000 characters
  -- long otherwise.
  pub turn_claims_no_refund :
      (unicode : Unicode) (k : Worker) (s : SupportState) (w : World) (payload : HumanPayload)
      → let t = (worker_node u labels c search_kb model prompt k (s, w)).0 in
        Draft unicode false
          (text_or_empty (output_guardrails_node unicode (resolution_node t)).draft_answer)
        × Draft unicode false (
            text_or_empty
              (output_guardrails_node unicode (resume_escalation payload t)).draft_answer)
  unfolding resolution_node resume_escalation
  turn_claims_no_refund unicode k s w payload =
      let t : SupportState = (worker_node u labels c search_kb model prompt k (s, w)).0 in
      let e : is_set t.refund_executed ≡ false = ap is_set (worker_node-refund_executed k s w) in
      (
        unexecuted-Draft unicode (resolution_node t) e,
        unexecuted-Draft unicode (resume_escalation payload t) e,
      )

-- The guardrails leave the decision of the policy alone.
pub output_guardrails_node-decision :
    (u : Unicode) (s : SupportState)
    → (output_guardrails_node u s).policy_decision ≡ s.policy_decision
unfolding output_guardrails_node
output_guardrails_node-decision u s = elim (Bool-cases (nonempty (text_or_empty s.draft_answer))) [
  | inl e ↦
      rw e (released (validate_output u (text_or_empty s.draft_answer) (is_set s.refund_executed)))
  | inr e ↦ rw e refl
]
  where
    released : (r : Checked) → (release_output r s).policy_decision ≡ s.policy_decision
    released (passed cleaned) = unfold release_output in refl
    released (violation reason) = unfold release_output in refl

pub input_guardrails_node-decision :
    (u : Unicode) (s : SupportState)
    → (input_guardrails_node u s).policy_decision ≡ s.policy_decision
unfolding input_guardrails_node
input_guardrails_node-decision u s = blocked (sanitize_input u (last_user_message s))
  where
    blocked : (r : Checked) → (block_input r s).policy_decision ≡ s.policy_decision
    blocked (passed cleaned) = unfold block_input in refl
    blocked (violation reason) = unfold block_input in refl

pub input_guardrails_node-injected :
    (u : Unicode) (s : SupportState)
    → any_pattern injection_patterns (lower_text u (strip (last_user_message s))) ≡ true
    → (input_guardrails_node u s).needs_human ≡ some true
unfolding input_guardrails_node sanitize_input
input_guardrails_node-injected u s h = rw h (unfold block_input in refl)
