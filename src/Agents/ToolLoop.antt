-- ===== src/Agents/ToolLoop.antt =====
-- app/agents/tool_loop.py: the loop in which the language model calls the tools of a worker.
-- The model is a function from the conversation to its next message, as the third party may
-- answer anything; the tools act on a state `S`, and each returns a payload or raises.
pub mod Keeps
pub mod Handoff
pub mod Execution
use ai_customer_support_plat.Prelude.{
  Bool, List, Option, String, [], false, get_last?, if◌then◌else◌, length, lower, none, nonempty,
  some, suc, true, zero, ℕ, ◌++◌, ◌-◌, ◌==◌, ◌||◌, ◌⁀◌, ◌∷◌,
}
use ai_customer_support_plat.Value.{
  Fields, Value, as_dict, bool, get, is_text, or_empty, put, str, truthy,
}
use ai_customer_support_plat.Policy.Escalation.{escalation_from_facts}
use ai_customer_support_plat.Security.Authorization.{
  authorization_error, authorize_tool, required_scopes,
}
use ai_customer_support_plat.Agents.Messages.{
  Message, Outcome, Reply, Tool, ToolCall, ToolResult, ai, error_value, human, raised, returned,
  system, tool,
}
use ai_customer_support_plat.Agents.Facts.{facts_from_tool_results}

-- the local variables of `run_tool_loop`, and the state that the tools act on
pub record Turn (S : Type 0) : Type 0 where
  pub tool_results : List ToolResult
  pub policy_decision : Option Fields
  pub refund_tool_success : Bool
  pub refund_executed : Bool
  pub messages : List Message
  pub state : S

-- `merged = dict(policy_decision or {}); merged["requires_human"] = True`
abbrev pub require_human : Option Fields → Option Fields
require_human d = some (put (or_empty d) "requires_human" (bool true))

abbrev refund_decision : Option Fields → Option Fields → Option Fields
refund_decision (some eligibility) old = some eligibility
refund_decision none old = old

-- tool_call_id=call_id or name
abbrev call_id : ToolCall → String
call_id call = if nonempty call.id then call.id else call.name

-- messages[-1] after the last round, if it is no `ToolMessage`
abbrev spoken : Option Message → String
spoken (some (system text)) = text
spoken (some (human text)) = text
spoken (some (ai reply)) = reply.content
spoken (some (tool v id)) = ""
spoken none = ""

module _ {S : Type 0} where
  unfoldable pub find_tool : List (String × Tool S) → String → Option (Tool S)
  find_tool [] name = none
  find_tool ((n, f) ∷ tools) name = if n == name then some f else find_tool tools name

  abbrev pub payload : Outcome × S → Value × S
  payload (returned v, s) = (v, s)
  payload (raised text, s) = (error_value text, s)

  abbrev run_found : Option (Tool S) → ToolCall → S → Value × S
  run_found none call s = (error_value ("Unknown tool " ⁀ call.name), s)
  run_found (some f) call s = payload (f call.args s)

  -- the `try` of the loop: authorization, lookup and call, each failure as an error payload
  unfoldable pub call_tool : List (String × Tool S) → List String → ToolCall → S → Value × S
  unfolding find_tool
  call_tool tools scopes call s =
      if authorize_tool scopes call.name
      then run_found (find_tool tools call.name) call s
      else (error_value (authorization_error call.name (required_scopes call.name)), s)

  -- what a payload that is a dictionary changes
  unfoldable pub note_payload : String → Fields → Turn S → Turn S
  note_payload name result t =
      if name == "check_refund_eligibility" || name == "evaluate_escalation"
      then record t { policy_decision = some result }
      else if name == "create_refund_request"
      then (let decision = refund_decision (as_dict (get result "eligibility")) t.policy_decision in
          record t {
            policy_decision =
                if truthy (get result "requires_human") then require_human decision else decision;
            refund_tool_success =
                (is_text (get result "status") "requested"
                  || is_text (get result "status") "pending_approval")
                || t.refund_tool_success;
            refund_executed = truthy (get result "refund_executed") || t.refund_executed;
          })
      else t

  unfoldable pub note_value : String → Option Fields → Turn S → Turn S
  note_value name none t = t
  note_value name (some result) t = note_payload name result t

  -- the body of `for call in tool_calls`
  unfoldable pub handle_call : List (String × Tool S) → List String → ToolCall → Turn S → Turn S
  unfolding note_value note_payload
  handle_call tools scopes call t =
      let (v, s) = call_tool tools scopes call t.state in
      let t' = note_value call.name (as_dict (some v)) (record t {
        tool_results = t.tool_results ++ record { tool_name = call.name; result = v } ∷ [];
        state = s;
      }) in
      record t' { messages = t'.messages ++ tool v (call_id call) ∷ [] }

  unfoldable pub handle_calls :
      List (String × Tool S) → List String → List ToolCall → Turn S → Turn S
  handle_calls tools scopes [] t = t
  handle_calls tools scopes (call ∷ calls) t =
      handle_calls tools scopes calls (handle_call tools scopes call t)

  -- `for _ in range(MAX_TOOL_ITERATIONS)`, with its `else`: the rounds that are left
  abbrev round :
      List (String × Tool S)
      → List String
      → (Turn S → String × Turn S)
      → Reply
      → List ToolCall
      → Turn S
      → String × Turn S
  round tools scopes rest reply [] t = (reply.content, t)
  round tools scopes rest reply (call ∷ calls) t = rest (handle_calls tools scopes (call ∷ calls) t)

  unfoldable pub rounds :
      (List Message → Reply) → List (String × Tool S) → List String → ℕ → Turn S → String × Turn S
  rounds model tools scopes zero t = (spoken (get_last? t.messages), t)
  rounds model tools scopes (suc n) t =
      let reply = model t.messages in
      round tools scopes (rounds model tools scopes n) reply reply.tool_calls
        (record t { messages = t.messages ++ ai reply ∷ [] })

abbrev pub max_tool_iterations : ℕ
max_tool_iterations = 4

abbrev pub history_window : ℕ
history_window = 12

abbrev drop : ℕ → List Message → List Message
drop zero ms = ms
drop (suc n) [] = []
drop (suc n) (m ∷ ms) = drop n ms

-- list(history or [])[-HISTORY_WINDOW:]
abbrev pub window : List Message → List Message
window history = drop (length history - history_window) history

abbrev context_first : String → List Message → List Message
context_first extra_context ms = if nonempty extra_context then human extra_context ∷ ms else ms

-- the messages behind the system prompt
abbrev opening_turns : String → String → List Message → List Message
opening_turns user_message extra_context [] =
    human (
      if nonempty extra_context
      then extra_context ⁀ "\n\nCustomer: " ⁀ user_message
      else user_message)
    ∷ []
opening_turns user_message extra_context (m ∷ ms) = context_first extra_context (m ∷ ms)

pub record LoopResult (S : Type 0) : Type 0 where
  pub draft_answer : String
  pub tool_results : List ToolResult
  pub needs_human : Bool
  pub policy_decision : Option Fields
  pub refund_tool_success : Bool
  pub refund_executed : Bool
  pub state : S

abbrev name_trigger : List String → Option Fields → Option Fields
name_trigger [] d = d
name_trigger (reason ∷ _) d = some (put (or_empty d) "escalation_trigger" (str (lower reason)))

abbrev pub fallback_answer : String
fallback_answer = "I need more information to help with this request."

-- isinstance(policy_decision, dict) and policy_decision.get("requires_human")
abbrev pub asks_human : Option Fields → Bool
asks_human d = truthy (get (or_empty d) "requires_human")

module _ {S : Type 0} where
  -- the part of `run_tool_loop` behind its loop
  unfoldable pub conclude : String × Turn S → LoopResult S
  conclude (answer, t) =
      let catalog = escalation_from_facts (facts_from_tool_results t.tool_results) in
      record {
        draft_answer = if nonempty answer then answer else fallback_answer;
        tool_results = t.tool_results;
        needs_human = catalog.escalate || asks_human t.policy_decision;
        policy_decision =
            if catalog.escalate
            then name_trigger catalog.reasons (require_human t.policy_decision)
            else t.policy_decision;
        refund_tool_success = t.refund_tool_success;
        refund_executed = t.refund_executed;
        state = t.state;
      }

  unfoldable pub run_tool_loop :
      (List Message → Reply)
      → List (String × Tool S)
      → List String
      → String
      → String
      → List Message
      → String
      → S
      → LoopResult S
  unfolding conclude
  run_tool_loop model tools principal_scopes system_prompt user_message history extra_context s =
      conclude (
        rounds model tools principal_scopes max_tool_iterations (record {
          tool_results = [];
          policy_decision = none;
          refund_tool_success = false;
          refund_executed = false;
          messages =
              system system_prompt ∷ opening_turns user_message extra_context (window history);
          state = s;
        }))
