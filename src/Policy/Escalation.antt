-- ===== src/Policy/Escalation.antt =====
-- The closed escalation catalog: `should_escalate` and `escalation_from_facts` of
-- app/policies/rules.py.
pub mod Catalog
use ai_customer_support_plat.Prelude.{
  Bool, List, Option, String, [], false, if◌then◌else◌, none, one_of, some, true, upper, ◌&&◌, ◌==◌,
  ◌||◌, ◌∷◌,
}
use ai_customer_support_plat.Value.{
  Fields, Value, bool, get, is_false, is_text, null, real, str, truthy, truthy_value,
}
use ai_customer_support_plat.Policy.Types.{EscalationDecision}

-- ALWAYS_ESCALATE
abbrev pub always_escalate : List String
always_escalate =
    "delivered_but_missing" ∷ "fraud" ∷ "privacy_beyond_own_profile"
    ∷ "product_technical_assistance" ∷ "unusable_identity" ∷ "policy_exception_demanded" ∷ []

-- AUTONOMOUS_TRIGGERS
abbrev pub autonomous_triggers : List String
autonomous_triggers = "order_tracking" ∷ "payment_status" ∷ []

abbrev escalated : String → EscalationDecision
escalated why = record {
  escalate = true;
  reasons = why ∷ [];
  policy_ids = "escalation_procedure" ∷ [];
}

abbrev in_thread : String → List String → EscalationDecision
in_thread why policies = record { escalate = false; reasons = why ∷ []; policy_ids = policies }

unfoldable pub should_escalate : String → Bool → EscalationDecision
should_escalate trigger customer_insists_after_refusal =
    if one_of trigger always_escalate
    then escalated (upper trigger)
    else if trigger == "lawful_refusal"
    then (if customer_insists_after_refusal
        then escalated "POLICY_EXCEPTION_DEMANDED"
        else in_thread "LAWFUL_REFUSAL" ("refund_policy" ∷ []))
    else if one_of trigger autonomous_triggers
    then in_thread "AUTONOMOUS" []
    else in_thread "UNKNOWN_TRIGGER" []

-- str(trigger). The text of a value that is no text is no trigger of the catalog, and is left out
-- where it is not a constant.
abbrev pub text_of : Value → String
text_of (str s) = s
text_of (real s) = s
text_of null = "None"
text_of (bool true) = "True"
text_of (bool false) = "False"
text_of _ = "<value>"

-- facts.get("escalation_trigger"), if it is there and true
abbrev named_trigger : Fields → Option Value → EscalationDecision
named_trigger facts none = in_thread "NO_CATALOG_HIT" []
named_trigger facts (some v) =
    if truthy_value v
    then should_escalate (text_of v) (truthy (get facts "customer_insists_after_refusal"))
    else in_thread "NO_CATALOG_HIT" []

unfoldable pub escalation_from_facts : Fields → EscalationDecision
escalation_from_facts facts =
    if is_text (get facts "account_status") "suspended"
      || is_text (get facts "account_status") "closed"
    then should_escalate "unusable_identity" false
    else if truthy (get facts "identity_checked") && is_false (get facts "identity_verified")
    then should_escalate "unusable_identity" false
    else if is_text (get facts "shipment_status") "delivered"
        && is_false (get facts "customer_received")
    then should_escalate "delivered_but_missing" false
    else if truthy (get facts "fraud_reported") || truthy (get facts "chargeback")
    then should_escalate "fraud" false
    else if truthy (get facts "privacy_beyond_own_profile")
    then should_escalate "privacy_beyond_own_profile" false
    else if truthy (get facts "product_technical_assistance")
    then should_escalate "product_technical_assistance" false
    else if truthy (get facts "customer_insists_after_refusal")
    then should_escalate "lawful_refusal" true
    else named_trigger facts (get facts "escalation_trigger")
