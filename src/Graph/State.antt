-- ===== src/Graph/State.antt =====
-- app/graph/state.py. A key that need not be there is an option.
use ai_customer_support_plat.Prelude.{Bool, List, Option, String, false, none, some}
use ai_customer_support_plat.Value.{Fields, Items, Value}
use ai_customer_support_plat.Agents.Messages.{Message, ToolResult}

pub record SupportState : Type 0 where
  pub ticket_id : String
  pub customer_id : Option String
  pub customer_public_id : Option String
  pub customer_tier : Option String
  pub account_status : Option String
  pub order_public_id : Option String
  pub order_status : Option String
  pub order_total : Option String
  pub customer_name : Option String
  pub orders_summary : Option Items
  pub messages : List Message
  pub intent : Option String
  pub confidence : Option Value
  pub retrieved_context : Option Items
  pub tool_results : Option (List ToolResult)
  pub policy_decision : Option Fields
  pub needs_human : Option Bool
  pub draft_answer : Option String
  pub refund_tool_success : Option Bool
  pub refund_executed : Option Bool
  pub principal_scopes : Option (List String)

-- state.get(key), where a missing key counts as false
abbrev pub is_set : Option Bool → Bool
is_set none = false
is_set (some b) = b
