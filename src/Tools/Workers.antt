-- ===== src/Tools/Workers.antt =====
-- The tool lists of the workers: BILLING_TOOLS, LOGISTICS_TOOLS, ACCOUNT_TOOLS, with the escalation
-- tool and the search of the knowledge base, which is the third party's.
use ai_customer_support_plat.Prelude.{List, String, [], ◌∷◌}
use ai_customer_support_plat.Value.{Fields}
use ai_customer_support_plat.Policy.Types.{CompanyConfig}
use ai_customer_support_plat.Agents.Messages.{Outcome, Tool}
use ai_customer_support_plat.Tools.Database.{Uuids, World}
use ai_customer_support_plat.Services.OrderSummary.{Labels}
use ai_customer_support_plat.Tools.Billing.{
  get_order, get_order_items, get_payment_status, get_payments,
}
use ai_customer_support_plat.Tools.Refunds.{check_refund_eligibility, create_refund_request}
use ai_customer_support_plat.Tools.Logistics.{
  cancel_order, create_return_request, get_return_status, get_shipment, get_shipping_status,
}
use ai_customer_support_plat.Tools.Account.{evaluate_escalation, get_customer, verify_identity}

module _ (u : Uuids) (labels : Labels) (c : CompanyConfig) (search_kb : Fields → Outcome) where
  abbrev pub shared_tools : List (String × Tool World)
  shared_tools =
      ("evaluate_escalation", evaluate_escalation)
      ∷ ("search_knowledge_base", λ args w. (search_kb args, w))
      ∷ []

  abbrev pub billing_tools : List (String × Tool World)
  billing_tools =
      ("get_order", get_order u labels)
      ∷ ("get_order_items", get_order_items u labels)
      ∷ ("get_payments", get_payments u labels)
      ∷ ("get_payment_status", get_payment_status u labels)
      ∷ ("check_refund_eligibility", check_refund_eligibility u c)
      ∷ ("create_refund_request", create_refund_request u c)
      ∷ shared_tools

  abbrev pub logistics_tools : List (String × Tool World)
  logistics_tools =
      ("get_order", get_order u labels)
      ∷ ("get_order_items", get_order_items u labels)
      ∷ ("get_shipment", get_shipment u)
      ∷ ("get_shipping_status", get_shipping_status u)
      ∷ ("get_return_status", get_return_status u)
      ∷ ("cancel_order", cancel_order u)
      ∷ ("create_return_request", create_return_request u)
      ∷ shared_tools

  abbrev pub account_tools : List (String × Tool World)
  account_tools =
      ("get_customer", get_customer u) ∷ ("verify_identity", verify_identity u) ∷ shared_tools

-- The three domain workers of app/agents.
pub data Worker : Type 0 where
  billing logistics account : Worker

abbrev pub worker_tools :
    Uuids → Labels → CompanyConfig → (Fields → Outcome) → Worker → List (String × Tool World)
worker_tools u labels c search_kb billing = billing_tools u labels c search_kb
worker_tools u labels c search_kb logistics = logistics_tools u labels c search_kb
worker_tools u labels c search_kb account = account_tools u labels c search_kb
