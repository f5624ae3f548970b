-- ===== src/Tools/Account.antt =====
-- app/tools/account/tools.py and app/tools/escalation/tools.py
use ai_customer_support_plat.Prelude.{
  Bool, List, Option, String, [], false, if◌then◌else◌, none, nonempty, one_of, some, ℕ, ◌∷◌,
}
use ai_customer_support_plat.Value.{
  Fields, arr, bool, end, field, get, has_key, is_text, obj, str, texts, value_or_null,
}
use ai_customer_support_plat.Policy.Escalation.{should_escalate}
use ai_customer_support_plat.Agents.Messages.{Outcome, Tool, returned}
use ai_customer_support_plat.Tools.Database.{Customer, Tables, ToolContext, Uuids, World}
use ai_customer_support_plat.Tools.Lookups.{
  customer_to_dict, flag_or, invalid_arguments, load_customer, required_text, scoped_to_customer,
  text_or,
}
use ai_customer_support_plat.Tools.Billing.{Body, order_tool}

abbrev own_customer : ToolContext → Option Customer → Option Customer
own_customer context none = none
own_customer context (some c) = if scoped_to_customer context c.id then some c else none

abbrev bound_text : Uuids → Option ℕ → String
bound_text u none = ""
bound_text u (some id) = u.text id

-- customer_id or (str(context.customer_id) if context.customer_id else "")
abbrev identifier_for : Uuids → ToolContext → String → String
identifier_for u context customer_id =
    if nonempty customer_id then customer_id else bound_text u context.customer_id

abbrev profile_payload : Uuids → Option Customer → Fields
profile_payload u none = field "error" (str "Customer not found") end
profile_payload u (some c) = customer_to_dict u c

-- the customer that `get_customer` finds, for an identifier that is not empty
abbrev pub find_customer : Uuids → ToolContext → Tables → String → Option Customer
find_customer u context t identifier = own_customer context (load_customer u t identifier)

unfoldable pub profile_of : Uuids → ToolContext → Tables → String → Fields
profile_of u context t customer_id =
    let identifier = identifier_for u context customer_id in
    if nonempty identifier
    then profile_payload u (find_customer u context t identifier)
    else field "error" (str "customer_id is required") end

-- a tool whose one text has a default
abbrev pub customer_tool : Option String → (String → Body) → World → Outcome × World
customer_tool none body w = (invalid_arguments, w)
customer_tool (some customer_id) body w = order_tool (some customer_id) body w

-- context.identity_verified = …
abbrev pub set_verified : Bool → ToolContext → World → World
set_verified b context w = record w { context = some (record context { identity_verified = b }) }

-- {"verified": False, **profile}
abbrev pub verify_profile : Fields → ToolContext → World → Fields × World
verify_profile profile context w =
    if has_key profile "error"
    then (field "verified" (bool false) profile, set_verified false context w)
    else (let active = is_text (get profile "account_status") "active" in
        (
          field "verified" (bool active) (
              field "customer_public_id" (value_or_null (get profile "public_id"))
                (field "account_status" (value_or_null (get profile "account_status")) end)),
          set_verified active context w,
        ))

-- the arguments of `evaluate_escalation`: one of nine triggers, and a flag
abbrev pub known_triggers : List String
known_triggers =
    "delivered_but_missing" ∷ "fraud" ∷ "privacy_beyond_own_profile"
    ∷ "product_technical_assistance" ∷ "unusable_identity" ∷ "policy_exception_demanded"
    ∷ "lawful_refusal" ∷ "order_tracking" ∷ "payment_status" ∷ []

abbrev pub escalation_payload : String → Bool → Fields
escalation_payload trigger insists =
    let decision = should_escalate trigger insists in
    field "escalate" (bool decision.escalate) (
      field "requires_human" (bool decision.escalate) (
        field "reasons" (arr (texts decision.reasons)) (
          field "policy_ids" (arr (texts decision.policy_ids)) (
            field "escalation_trigger" (str trigger)
              (field "customer_insists_after_refusal" (bool insists) end)))))

abbrev pub escalation_tool : Option String → Option Bool → World → Outcome × World
escalation_tool (some trigger) (some insists) w =
    if one_of trigger known_triggers
    then (returned (obj (escalation_payload trigger insists)), w)
    else (invalid_arguments, w)
escalation_tool _ _ w = (invalid_arguments, w)

unfoldable pub evaluate_escalation : Tool World
evaluate_escalation args =
    escalation_tool (required_text (get args "trigger"))
      (flag_or false (get args "customer_insists_after_refusal"))

module _ (u : Uuids) where
  unfoldable pub get_customer : Tool World
  unfolding profile_of
  get_customer args =
      customer_tool (text_or "" (get args "customer_id"))
        λ customer_id context w. (profile_of u context w.tables customer_id, w)

  unfoldable pub verify_body : String → Body
  verify_body customer_id context w =
      verify_profile (profile_of u context w.tables customer_id) context w

  unfoldable pub verify_identity : Tool World
  unfolding verify_body
  verify_identity args = customer_tool (text_or "" (get args "customer_id")) verify_body
