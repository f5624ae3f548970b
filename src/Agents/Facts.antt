-- ===== src/Agents/Facts.antt =====
-- `_facts_from_tool_results` of app/agents/tool_loop.py: the payloads of the tools as Facts of the
-- escalation catalog.
use ai_customer_support_plat.Prelude.{
  List, Option, String, [], if◌then◌else◌, none, not, one_of, some, true, ◌&&◌, ◌==◌, ◌∷◌,
}
use ai_customer_support_plat.Value.{
  Fields, Value, as_dict, bool, end, get, has_key, null, put, truthy,
}
use ai_customer_support_plat.Agents.Messages.{ToolResult}

abbrev set_fact : Fields → String → Option Value → Fields
set_fact facts k none = put facts k null
set_fact facts k (some v) = put facts k v

-- what one payload adds to the Facts, in the order of the source's tests
abbrev identity_facts : String → Fields → Fields → Fields
identity_facts name result facts =
    if name == "verify_identity"
    then (let facts' =
          set_fact (put facts "identity_checked" (bool true)) "identity_verified"
            (get result "verified") in
        if truthy (get result "account_status")
        then set_fact facts' "account_status" (get result "account_status")
        else facts')
    else facts

abbrev shipment_facts : String → Fields → Fields → Fields
shipment_facts name result facts =
    if one_of name ("get_shipment" ∷ "get_shipping_status" ∷ [])
    then (let facts' =
          if truthy (get result "status")
          then set_fact facts "shipment_status" (get result "status")
          else facts in
        if has_key result "customer_received"
        then set_fact facts' "customer_received" (get result "customer_received")
        else facts')
    else facts

abbrev catalog_facts : String → Fields → Fields → Fields
catalog_facts name result facts =
    if name == "evaluate_escalation"
    then put
        (if truthy (get result "escalation_trigger")
          then set_fact facts "escalation_trigger" (get result "escalation_trigger")
          else facts)
        "customer_insists_after_refusal"
        (bool (truthy (get result "customer_insists_after_refusal")))
    else facts

abbrev account_facts : Fields → Fields → Fields
account_facts result facts =
    if truthy (get result "account_status") && not (has_key facts "account_status")
    then set_fact facts "account_status" (get result "account_status")
    else facts

add_facts : String → Fields → Fields → Fields
add_facts name result facts =
    account_facts result
      (catalog_facts name result (shipment_facts name result (identity_facts name result facts)))

-- a payload that is no dictionary, or that reports an error, adds nothing
add_result : ToolResult → Option Fields → Fields → Fields
add_result item none facts = facts
add_result item (some result) facts =
    if truthy (get result "error") then facts else add_facts item.tool_name result facts

facts_from : List ToolResult → Fields → Fields
facts_from [] facts = facts
facts_from (item ∷ items) facts =
    facts_from items (add_result item (as_dict (some item.result)) facts)

-- `_facts_from_tool_results`
unfoldable pub facts_from_tool_results : List ToolResult → Fields
unfolding facts_from add_result add_facts
facts_from_tool_results items = facts_from items end
