-- ===== src/Security/Authorization.antt =====
-- app/security/authorization.py, with the table of app/security/permissions.py.
use ai_customer_support_plat.Prelude.{
  Bool, List, String, [], false, if◌then◌else◌, one_of, ◌==◌, ◌||◌, ◌⁀◌, ◌∷◌,
}

-- TOOL_PERMISSIONS
abbrev pub tool_permissions : List (String × List String)
tool_permissions =
    ("get_order", "billing:read" ∷ "logistics:read" ∷ "read" ∷ [])
    ∷ ("get_order_items", "billing:read" ∷ "logistics:read" ∷ "read" ∷ [])
    ∷ ("get_payments", "billing:read" ∷ "read" ∷ [])
    ∷ ("get_payment_status", "billing:read" ∷ "read" ∷ [])
    ∷ ("check_refund_eligibility", "billing:read" ∷ "read" ∷ [])
    ∷ ("create_refund_request", "billing:write" ∷ "write" ∷ [])
    ∷ ("search_knowledge_base", "read" ∷ [])
    ∷ ("get_shipment", "logistics:read" ∷ "read" ∷ [])
    ∷ ("get_shipping_status", "logistics:read" ∷ "read" ∷ [])
    ∷ ("get_return_status", "logistics:read" ∷ "read" ∷ [])
    ∷ ("create_return_request", "logistics:write" ∷ "write" ∷ [])
    ∷ ("cancel_order", "logistics:write" ∷ "write" ∷ [])
    ∷ ("get_customer", "account:read" ∷ "read" ∷ [])
    ∷ ("verify_identity", "account:read" ∷ "read" ∷ [])
    ∷ ("evaluate_escalation", "read" ∷ [])
    ∷ []

abbrev permissions_in : String → List (String × List String) → List String
permissions_in name [] = "read" ∷ []
permissions_in name ((tool, scopes) ∷ rest) =
    if tool == name then scopes else permissions_in name rest

-- TOOL_PERMISSIONS.get(tool_name, ["read"])
unfoldable pub required_scopes : String → List String
required_scopes name = permissions_in name tool_permissions

-- any(has_scope(principal, scope) for scope in required)
abbrev pub has_any_scope : List String → List String → Bool
has_any_scope scopes [] = false
has_any_scope scopes (r ∷ rs) = one_of r scopes || has_any_scope scopes rs

-- `authorize_tool`: false where it raises `AuthorizationError`
unfoldable pub authorize_tool : List String → String → Bool
unfolding required_scopes
authorize_tool scopes tool_name = has_any_scope scopes (required_scopes tool_name)

-- `authorize_route`
unfoldable pub authorize_route : List String → List String → Bool
authorize_route scopes required = has_any_scope scopes required

abbrev quoted : List String → String
quoted [] = ""
quoted (s ∷ []) = "'" ⁀ s ⁀ "'"
quoted (s ∷ t ∷ ss) = "'" ⁀ s ⁀ "', " ⁀ quoted (t ∷ ss)

-- str(AuthorizationError(resource, required))
abbrev pub authorization_error : String → List String → String
authorization_error resource required =
    "Missing scopes for " ⁀ resource ⁀ ": [" ⁀ quoted required ⁀ "]"
