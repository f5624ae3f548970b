-- ===== src/Agents/ToolLoop/Keeps.antt =====
-- What the tools of a worker cannot break, the loop cannot break either.
use mathlib.Core.Path.{subst₂}
use mathlib.Core.Option.{some-injective}
use ai_customer_support_plat.Prelude.{
  Bool, Bool-cases, List, Option, String, [], arith, eq_iff, false, if◌then◌else◌, inl, inr, none,
  refl, some, suc, true, zero, ℕ, ◌++◌, ◌==◌, ◌∷◌, ◌≡◌,
}
use ai_customer_support_plat.Value.{Fields}
use ai_customer_support_plat.Security.Authorization.{
  authorization_error, authorize_tool, required_scopes,
}
use ai_customer_support_plat.Agents.Messages.{
  Message, Outcome, Reply, Tool, ToolCall, ai, error_value, raised, returned,
}
use ai_customer_support_plat.Agents.ToolLoop.{
  Turn, call_tool, find_tool, handle_call, handle_calls, max_tool_iterations, note_payload,
  note_value, payload, round, rounds, run_found, run_tool_loop,
}

module _ {S : Type 0} where
  state-note_value :
      (name : String) (d : Option Fields) (t : Turn S) → (note_value name d t).state ≡ t.state
  unfolding note_value note_payload
  state-note_value name none t = refl
  state-note_value name (some d) t = ground arith

  -- A call changes the state by its tool alone.
  pub state-handle_call :
      (tools : List (String × Tool S)) (scopes : List String) (call : ToolCall) (t : Turn S)
      → (handle_call tools scopes call t).state ≡ (call_tool tools scopes call t.state).1
  unfolding handle_call
  state-handle_call tools scopes call t = rw state-note_value

-- Every tool that the scopes admit keeps `P`.
abbrev pub ToolsKeep : {S : Type 0} → (S → Type 0) → List (String × Tool S) → List String → Type 0
ToolsKeep {S} P tools scopes =
    (name : String) (f : Tool S)
    → authorize_tool scopes name ≡ true
    → find_tool tools name ≡ some f
    → (args : Fields) (s : S) → P s
    → P (f args s).1

module _ {S : Type 0} (P : S → Type 0) (tools : List (String × Tool S)) (scopes : List String)
    (keeps : ToolsKeep P tools scopes) where
  payload-keeps : (r : Outcome × S) → P r.1 → P (payload r).1
  payload-keeps (returned v, s) h = h
  payload-keeps (raised text, s) h = h

  call_tool-keeps : (call : ToolCall) (s : S) → P s → P (call_tool tools scopes call s).1
  unfolding call_tool
  call_tool-keeps call s h = go (authorize_tool scopes call.name) refl
    where
      found :
          (o : Option (Tool S))
          → find_tool tools call.name ≡ o
          → authorize_tool scopes call.name ≡ true
          → P (run_found o call s).1
      found none e a = h
      found (some f) e a = payload-keeps (f call.args s) (keeps call.name f a e call.args s h)

      go :
          (b : Bool)
          → authorize_tool scopes call.name ≡ b
          → P
              (if b
                then run_found (find_tool tools call.name) call s
                else (error_value (authorization_error call.name (required_scopes call.name)), s)).1
      go true a = found (find_tool tools call.name) refl a
      go false a = h

  handle_calls-keeps :
      (calls : List ToolCall) (t : Turn S) → P t.state → P (handle_calls tools scopes calls t).state
  unfolding handle_calls
  handle_calls-keeps [] t h = h
  handle_calls-keeps (call ∷ calls) t h =
      handle_calls-keeps calls (handle_call tools scopes call t)
        (rw state-handle_call (call_tool-keeps call t.state h))

  rounds-keeps :
      (model : List Message → Reply) (n : ℕ) (t : Turn S)
      → P t.state
      → P (rounds model tools scopes n t).1.state
  unfolding rounds
  rounds-keeps model zero t h = h
  rounds-keeps model (suc n) t h = go (model t.messages).tool_calls (rounds-keeps model n)
    where
      go :
          (calls : List ToolCall)
          → ((u : Turn S) → P u.state → P (rounds model tools scopes n u).1.state)
          → P
              (round tools scopes
                (rounds model tools scopes n)
                (model t.messages)
                calls
                (record t { messages = t.messages ++ ai (model t.messages) ∷ [] })).1.state
      go [] ih = h
      go (call ∷ calls) ih = ih _ (handle_calls-keeps (call ∷ calls) _ h)

  -- An invariant of the state that holds before the loop, and that every tool which the principal's
  -- scopes admit keeps, holds after the loop, whatever the model asks for.
  pub run_tool_loop-keeps :
      (model : List Message → Reply) (prompt message : String) (history : List Message)
      (extra : String) (s : S)
      → P s
      → P (run_tool_loop model tools scopes prompt message history extra s).state
  unfolding run_tool_loop
  run_tool_loop-keeps model prompt message history extra s h =
      rounds-keeps model max_tool_iterations _ h

-- A property of each tool under its name.
abbrev pub AllTools {ℓ} :
    {S : Type 0} → (String → Tool S → Type ℓ) → List (String × Tool S) → Type ℓ
AllTools R [] = Unit
AllTools R ((name, f) ∷ tools) = R name f × AllTools R tools

-- It holds of the tool that is found by a name.
pub AllTools-find_tool {ℓ} :
    {S : Type 0} (R : String → Tool S → Type ℓ) (tools : List (String × Tool S)) (name : String)
    (f : Tool S)
    → AllTools R tools
    → find_tool tools name ≡ some f
    → R name f
unfolding find_tool
AllTools-find_tool R [] name f h e = cc
AllTools-find_tool {S} R ((n, g) ∷ tools) name f h e = elim (Bool-cases (n == name)) [
  | inl y ↦ subst₂ R ((eq_iff n name).0 y) (some-injective g f (rw y at e)) h.0
  | inr y ↦ AllTools-find_tool R tools name f h.1 (rw y at e)
]
