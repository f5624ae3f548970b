-- ===== src/Agents/ToolLoop/Execution.antt =====
-- Whether the loop reports a refund as executed: only on the word of `create_refund_request`.
use ai_customer_support_plat.Prelude.{
  Bool, Bool-cases, List, Option, String, [], ap, arith, eq_iff, false, if◌then◌else◌, inl, inr,
  none, refl, some, suc, sym, true, zero, ℕ, ◌++◌, ◌==◌, ◌∙◌, ◌∷◌, ◌≡◌,
}
use ai_customer_support_plat.Value.{Fields, Value, as_dict, get, null, obj, or_empty, truthy}
use ai_customer_support_plat.Security.Authorization.{
  authorization_error, authorize_tool, required_scopes,
}
use ai_customer_support_plat.Agents.Messages.{Message, Reply, Tool, ToolCall, ai, error_value}
use ai_customer_support_plat.Agents.ToolLoop.{
  Turn, call_tool, find_tool, handle_call, handle_calls, max_tool_iterations, note_payload,
  note_value, payload, round, rounds, run_found, run_tool_loop,
}

-- the payload does not say `refund_executed`
abbrev pub NotExecuted : Value → Type 0
NotExecuted v = truthy (get (or_empty (as_dict (some v))) "refund_executed") ≡ false

abbrev NoRefund : {S : Type 0} → Turn S → Type 0
NoRefund t = t.refund_executed ≡ false

-- The tool that creates refund requests never reports an execution.
abbrev pub NeverExecutes : {S : Type 0} → List (String × Tool S) → Type 0
NeverExecutes {S} tools =
    (f : Tool S)
    → find_tool tools "create_refund_request" ≡ some f
    → (args : Fields) (s : S) → NotExecuted (payload (f args s)).0

NotExecuted-error : (text : String) → NotExecuted (error_value text)
unfolding get
NotExecuted-error text = refl

module _ {S : Type 0} (tools : List (String × Tool S)) (scopes : List String)
    (never : NeverExecutes tools) where
  NotExecuted-call_tool :
      (call : ToolCall) (s : S)
      → (call.name == "create_refund_request") ≡ true
      → NotExecuted (call_tool tools scopes call s).0
  unfolding call_tool
  NotExecuted-call_tool call s n = go (authorize_tool scopes call.name)
    where
      found :
          (o : Option (Tool S)) → find_tool tools call.name ≡ o → NotExecuted (run_found o call s).0
      found none e = NotExecuted-error _
      found (some f) e =
          never f (ap (find_tool tools) (sym ((eq_iff call.name "create_refund_request").0 n)) ∙ e)
            call.args s

      go :
          (b : Bool)
          → NotExecuted
              (if b
                then run_found (find_tool tools call.name) call s
                else (error_value (authorization_error call.name (required_scopes call.name)), s)).0
      go true = found (find_tool tools call.name) refl
      go false = NotExecuted-error _

  note_value-NoRefund :
      (name : String) (v : Value) (t : Turn S)
      → ((name == "create_refund_request") ≡ true → NotExecuted v)
      → NoRefund t
      → NoRefund (note_value name (as_dict (some v)) t)
  unfolding note_value note_payload
  note_value-NoRefund name (obj d) t q h = elim (Bool-cases (name == "create_refund_request")) [
    | inl n ↦ let e = q n in ground arith
    | inr n ↦ ground arith
  ]
  note_value-NoRefund name null t q h = h
  note_value-NoRefund name _ t q h = h

  handle_calls-NoRefund :
      (calls : List ToolCall) (t : Turn S)
      → NoRefund t
      → NoRefund (handle_calls tools scopes calls t)
  unfolding handle_calls handle_call
  handle_calls-NoRefund [] t h = h
  handle_calls-NoRefund (call ∷ calls) t h = handle_calls-NoRefund calls _ (
      note_value-NoRefund call.name (call_tool tools scopes call t.state).0 _
        (NotExecuted-call_tool call t.state) h)

  rounds-NoRefund :
      (model : List Message → Reply) (n : ℕ) (t : Turn S)
      → NoRefund t
      → NoRefund (rounds model tools scopes n t).1
  unfolding rounds
  rounds-NoRefund model zero t h = h
  rounds-NoRefund model (suc n) t h = go (model t.messages).tool_calls (rounds-NoRefund model n)
    where
      go :
          (calls : List ToolCall)
          → ((u : Turn S) → NoRefund u → NoRefund (rounds model tools scopes n u).1)
          → NoRefund
              (round tools scopes
                (rounds model tools scopes n)
                (model t.messages)
                calls
                (record t { messages = t.messages ++ ai (model t.messages) ∷ [] })).1
      go [] ih = h
      go (call ∷ calls) ih = ih _ (handle_calls-NoRefund (call ∷ calls) _ h)

  -- If the tool that creates refund requests never reports an execution, the loop never does.
  pub run_tool_loop-NoRefund :
      (model : List Message → Reply) (prompt message : String) (history : List Message)
      (extra : String) (s : S)
      → (run_tool_loop model tools scopes prompt message history extra s).refund_executed ≡ false
  unfolding run_tool_loop
  run_tool_loop-NoRefund model prompt message history extra s =
      rounds-NoRefund model max_tool_iterations _ refl
