-- ===== src/Graph/Nodes.antt =====
-- The nodes of app/graph/nodes.py between the guardrails: the supervisor, the workers and the
-- escalation. A node's update is merged into the state; messages are added at the end.
use ai_customer_support_plat.Prelude.{
  List, Option, String, [], false, if◌then◌else◌, none, nonempty, some, ℕ, ◌++◌, ◌⁀◌, ◌∷◌,
}
use ai_customer_support_plat.Value.{
  Fields, Items, Value, end, field, get, nil, null, or_empty, str, truthy, value_or_null,
}
use ai_customer_support_plat.Policy.Types.{CompanyConfig}
use ai_customer_support_plat.Policy.Escalation.{text_of}
use ai_customer_support_plat.Agents.Messages.{Message, Outcome, Reply, ai, human}
use ai_customer_support_plat.Agents.ToolLoop.{LoopResult, payload, run_tool_loop}
use ai_customer_support_plat.Agents.Escalation.{
  customer_escalation_message, customer_escalation_reply, text_or_empty,
}
use ai_customer_support_plat.Services.OrderSummary.{Labels}
use ai_customer_support_plat.Tools.Database.{ToolContext, Uuids, World}
use ai_customer_support_plat.Tools.Workers.{Worker, billing, worker_tools}
use ai_customer_support_plat.Graph.State.{SupportState, is_set}

abbrev later_or : Option String → String → String
later_or none text = text
later_or (some later) text = later

last_human : List Message → Option String
last_human [] = none
last_human (human text ∷ ms) = some (later_or (last_human ms) text)
last_human (_ ∷ ms) = last_human ms

-- `_last_user_message`
unfoldable pub last_user_message : SupportState → String
unfolding last_human
last_user_message state = text_or_empty (last_human state.messages)

-- The classifier, a language model, gives an intent and its confidence.
unfoldable pub supervisor_node : (String → String × Value) → SupportState → SupportState
supervisor_node classify state =
    let (intent, confidence) = classify (last_user_message state) in
    record state { intent = some intent; confidence = some confidence }

-- principal_scopes, or ["read", "write"]
abbrev pub scopes_of : SupportState → List String
scopes_of state = elim state.principal_scopes [
  | none ↦ "read" ∷ "write" ∷ []
  | some scopes ↦ scopes
]

abbrev bind_key : Option ℕ → ToolContext → ToolContext
bind_key none context = context
bind_key (some key) context = record context { customer_id = some key }

abbrev bind_in : Uuids → Option String → Option ToolContext → Option ToolContext
bind_in u customer_id none = none
bind_in u none (some context) = some context
bind_in u (some customer_id) (some context) = some (bind_key (u.parse customer_id) context)

-- `bind_ticket_customer`; an empty text is no UUID
unfoldable pub bind_ticket_customer : Uuids → Option String → World → World
bind_ticket_customer u customer_id w = record w { context = bind_in u customer_id w.context }

-- the update of a worker, and for billing its knowledge, which the graph does not hand it
abbrev context_of : Worker → Option Items → Option Items
context_of billing old = some nil
context_of _ old = old

unfoldable pub merge_result : Worker → LoopResult World → SupportState → SupportState
merge_result k r state = record state {
  draft_answer = some r.draft_answer;
  tool_results = some r.tool_results;
  needs_human = some r.needs_human;
  policy_decision = r.policy_decision;
  refund_tool_success = some r.refund_tool_success;
  refund_executed = some r.refund_executed;
  messages = state.messages ++ ai (record { content = r.draft_answer; tool_calls = [] }) ∷ [];
  retrieved_context = context_of k state.retrieved_context;
}

-- `_human_answer` distinguishes the payloads with which a human resumes: none, a text, a form with
-- its fields "answer" and "draft_answer", and anything else, by its text.
pub data HumanPayload : Type 0 where
  nothing : HumanPayload
  text : String → HumanPayload
  form : Option String → Option String → HumanPayload
  other : String → HumanPayload

-- a text, if it is not empty
abbrev given : Option String → Option String
given none = none
given (some s) = if nonempty s then some s else none

abbrev first_given : Option String → Option String → Option String
first_given none b = given b
first_given (some a) b = if nonempty a then some a else given b

unfoldable pub human_answer : HumanPayload → Option String
human_answer nothing = none
human_answer (text s) = some s
human_answer (form answer draft_answer) = first_given answer draft_answer
human_answer (other s) = some s

-- _human_answer(human) or prepared.get("draft_answer") or CUSTOMER_ESCALATION_MESSAGE
abbrev answer_or : Option String → String → String
answer_or none prepared = if nonempty prepared then prepared else customer_escalation_message
answer_or (some s) prepared =
    if nonempty s then s else if nonempty prepared then prepared else customer_escalation_message

-- the first of the keys under which the decision gives a reason
abbrev reason_in : Fields → List String → Option String
reason_in decision [] = none
reason_in decision (key ∷ keys) =
    if truthy (get decision key)
    then some (text_of (value_or_null (get decision key)))
    else reason_in decision keys

abbrev reason_or : Option String → SupportState → Fields → String
reason_or (some reason) state decision = reason
reason_or none state decision =
    if truthy (get decision "requires_human")
    then "Policy requires human review"
    else if truthy (get decision "escalation_trigger")
    then "Escalation catalog: " ⁀ text_of (value_or_null (get decision "escalation_trigger"))
    else if is_set state.needs_human
    then "Worker requested human handoff"
    else "Low confidence or unresolved issue"

-- `_internal_escalation_reason`
unfoldable pub internal_escalation_reason : SupportState → String
internal_escalation_reason state =
    let decision = or_empty state.policy_decision in
    reason_or (reason_in decision ("reason" ∷ "denial_reason" ∷ "message" ∷ [])) state decision

abbrev text_or_null : Option String → Value
text_or_null none = null
text_or_null (some s) = str s

-- `escalation_node` until its interrupt: what the console gets
unfoldable pub escalation_payload_of : SupportState → Fields
escalation_payload_of state = field "ticket_id" (str state.ticket_id) (
    field "intent" (text_or_null state.intent) (
      field "confidence" (value_or_null state.confidence) (
        field "reason" (str (internal_escalation_reason state))
          (field "draft_answer" (str (customer_escalation_reply state.draft_answer)) end))))

-- `escalation_node` when it is resumed
unfoldable pub resume_escalation : HumanPayload → SupportState → SupportState
resume_escalation payload state =
    let answer = answer_or (human_answer payload) (customer_escalation_reply state.draft_answer) in
    record state {
      needs_human = some false;
      draft_answer = some answer;
      messages = state.messages ++ ai (record { content = answer; tool_calls = [] }) ∷ [];
    }

module _ (u : Uuids) (labels : Labels) (c : CompanyConfig) (search_kb : Fields → Outcome)
    (model : List Message → Reply) (prompt : Worker → SupportState → String) where
  unfoldable pub run_worker : Worker → SupportState → World → LoopResult World
  run_worker k state w =
      run_tool_loop model (worker_tools u labels c search_kb k) (scopes_of state) (prompt k state)
        (last_user_message state) state.messages "" (bind_ticket_customer u state.customer_id w)

  -- `billing_node`, `logistics_node` and `account_node`
  unfoldable pub worker_node : Worker → SupportState × World → SupportState × World
  unfolding run_worker merge_result
  worker_node k (state, w) = let r = run_worker k state w in (merge_result k r state, r.state)
