-- ===== src/Agents/ToolLoop/Handoff.antt =====
-- What the result of the loop says: the handoff to a human, and the answer.
use ai_customer_support_plat.Prelude.{
  Bool-cases, List, Option, String, [], get_last?, get_last?-append, if◌then◌else◌, inl, inr, refl,
  suc, sym, true, zero, ℕ, ◌++◌, ◌||◌, ◌∷◌, ◌≡◌, ◌≢◌,
}
use ai_customer_support_plat.Value.{Fields, get-put}
use ai_customer_support_plat.Policy.Types.{EscalationDecision}
use ai_customer_support_plat.Policy.Escalation.{escalation_from_facts}
use ai_customer_support_plat.Agents.Messages.{Message, Reply, Tool, ToolCall, ai}
use ai_customer_support_plat.Agents.Facts.{facts_from_tool_results}
use ai_customer_support_plat.Agents.ToolLoop.{
  Turn, asks_human, conclude, fallback_answer, handle_call, handle_calls, max_tool_iterations,
  name_trigger, require_human, round, rounds, run_tool_loop, spoken,
}

asks_human-require_human :
    (d : Option Fields) (reasons : List String)
    → asks_human (name_trigger reasons (require_human d)) ≡ true
asks_human-require_human d [] = rw get-put refl
asks_human-require_human d (reason ∷ _) = rw get-put (rw get-put refl)

module _ {S : Type 0} where
  needs_human-conclude :
      (r : String × Turn S) → (conclude r).needs_human ≡ asks_human (conclude r).policy_decision
  unfolding conclude
  needs_human-conclude (answer, t) =
      go (escalation_from_facts (facts_from_tool_results t.tool_results))
    where
      go :
          (c : EscalationDecision)
          → (c.escalate || asks_human t.policy_decision)
            ≡ asks_human (
                if c.escalate
                then name_trigger c.reasons (require_human t.policy_decision)
                else t.policy_decision)
      go c = elim (Bool-cases c.escalate) [
        | inl e ↦ rw e (sym (asks_human-require_human t.policy_decision c.reasons))
        | inr e ↦ rw e
      ]

  -- The loop asks for a human exactly when the decision that it returns requires one, so the flag
  -- and the decision that the graph routes by agree.
  pub run_tool_loop-needs_human :
      (model : List Message → Reply) (tools : List (String × Tool S)) (scopes : List String)
      (prompt message : String) (history : List Message) (extra : String) (s : S)
      → let r = run_tool_loop model tools scopes prompt message history extra s in
        r.needs_human ≡ asks_human r.policy_decision
  unfolding run_tool_loop
  run_tool_loop-needs_human model tools scopes prompt message history extra s =
      needs_human-conclude (rounds model tools scopes max_tool_iterations _)

  -- the catalog
  catalog-conclude :
      (r : String × Turn S)
      → (escalation_from_facts (facts_from_tool_results (conclude r).tool_results)).escalate ≡ true
      → (conclude r).needs_human ≡ true
  unfolding conclude
  catalog-conclude (answer, t) h = rw h

  -- Payloads that hit the escalation catalog always hand the conversation to a human.
  pub run_tool_loop-catalog :
      (model : List Message → Reply) (tools : List (String × Tool S)) (scopes : List String)
      (prompt message : String) (history : List Message) (extra : String) (s : S)
      → let r = run_tool_loop model tools scopes prompt message history extra s in
        (escalation_from_facts (facts_from_tool_results r.tool_results)).escalate ≡ true
        → r.needs_human ≡ true
  unfolding run_tool_loop
  run_tool_loop-catalog model tools scopes prompt message history extra s h =
      catalog-conclude (rounds model tools scopes max_tool_iterations _) h

  handle_call-silent :
      (tools : List (String × Tool S)) (scopes : List String) (call : ToolCall) (t : Turn S)
      → spoken (get_last? (handle_call tools scopes call t).messages) ≡ ""
  unfolding handle_call
  handle_call-silent tools scopes call t = rw get_last?-append

  handle_calls-silent :
      (tools : List (String × Tool S)) (scopes : List String) (call : ToolCall)
      (calls : List ToolCall) (t : Turn S)
      → spoken (get_last? (handle_calls tools scopes (call ∷ calls) t).messages) ≡ ""
  unfolding handle_calls
  handle_calls-silent tools scopes call [] t = handle_call-silent tools scopes call t
  handle_calls-silent tools scopes call (c ∷ calls) t =
      handle_calls-silent tools scopes c calls (handle_call tools scopes call t)

  -- the last rounds of a model that never stops calling
  restless :
      (model : List Message → Reply) (tools : List (String × Tool S)) (scopes : List String)
      → ((ms : List Message) → (model ms).tool_calls ≢ [])
      → (n : ℕ) (t : Turn S) → (rounds model tools scopes (suc n) t).0 ≡ ""
  unfolding rounds
  restless model tools scopes busy zero t = go (model t.messages).tool_calls refl
    where
      go :
          (calls : List ToolCall)
          → (model t.messages).tool_calls ≡ calls
          → (round tools scopes
              (rounds model tools scopes zero)
              (model t.messages)
              calls
              (record t { messages = t.messages ++ ai (model t.messages) ∷ [] })).0
            ≡ ""
      go [] e = absurd (busy t.messages e)
      go (call ∷ calls) e = handle_calls-silent tools scopes call calls _
  restless model tools scopes busy (suc n) t =
      go (model t.messages).tool_calls refl (restless model tools scopes busy n)
    where
      go :
          (calls : List ToolCall)
          → (model t.messages).tool_calls ≡ calls
          → ((u : Turn S) → (rounds model tools scopes (suc n) u).0 ≡ "")
          → (round tools scopes
              (rounds model tools scopes (suc n))
              (model t.messages)
              calls
              (record t { messages = t.messages ++ ai (model t.messages) ∷ [] })).0
            ≡ ""
      go [] e ih = absurd (busy t.messages e)
      go (call ∷ calls) e ih = ih _

  -- A model that never stops calling tools is cut off, and the customer gets the fixed fallback.
  pub run_tool_loop-restless :
      (model : List Message → Reply) (tools : List (String × Tool S)) (scopes : List String)
      (prompt message : String) (history : List Message) (extra : String) (s : S)
      → ((ms : List Message) → (model ms).tool_calls ≢ [])
      → (run_tool_loop model tools scopes prompt message history extra s).draft_answer
        ≡ fallback_answer
  unfolding run_tool_loop
  run_tool_loop-restless model tools scopes prompt message history extra s busy =
      rw (restless model tools scopes busy 3)
