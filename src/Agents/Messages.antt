-- ===== src/Agents/Messages.antt =====
-- The messages of a worker and the payloads of its tools: what app/agents/tool_loop.py passes about.
use ai_customer_support_plat.Prelude.{List, String}
use ai_customer_support_plat.Value.{Fields, Value, end, field, obj, str}

pub record ToolCall : Type 0 where
  pub name : String
  pub args : Fields
  pub id : String

-- AIMessage
pub record Reply : Type 0 where
  pub content : String
  pub tool_calls : List ToolCall

-- The content of a `ToolMessage` is the JSON text of its value.
pub data Message : Type 0 where
  system : String → Message
  human : String → Message
  ai : Reply → Message
  tool : Value → String → Message

pub record ToolResult : Type 0 where
  pub tool_name : String
  pub result : Value

pub data Outcome : Type 0 where
  returned : Value → Outcome
  raised : String → Outcome

abbrev pub Tool : Type 0 → Type 0
Tool S = Fields → S → Outcome × S

abbrev pub error_value : String → Value
error_value text = obj (field "error" (str text) end)
