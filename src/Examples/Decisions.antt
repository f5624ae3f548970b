-- ===== src/Examples/Decisions.antt =====
-- Runs of the policy rules.
use ai_customer_support_plat.Value.{Fields, bool, end, field, str}
use ai_customer_support_plat.Policy.Types.{company_config}
use ai_customer_support_plat.Policy.Refund.{can_refund}
use ai_customer_support_plat.Policy.Refund.Eligibility.{Ground, can_refund_iff}
use ai_customer_support_plat.Policy.Refund.Amount.{Granted, Refused, can_refund_terms}
use ai_customer_support_plat.Policy.Cancel.{
  InWarehouse, OpenOrder, OrderStatus, can_cancel_iff, cancel_decision,
}
use ai_customer_support_plat.Policy.Escalation.{escalation_from_facts}
use ai_customer_support_plat.Policy.Escalation.Catalog.{CatalogHit, escalation_from_facts_iff}
use ai_customer_support_plat.Examples.Data.{broken_phone}
use ai_customer_support_plat.Prelude.{false, none, true, ◌↔◌, ◌≡◌}

can_refund_iff_example :
    ((can_refund company_config broken_phone).eligible ≡ true)
    ↔ ((broken_phone.identity_verified ≡ true) × Ground company_config broken_phone)
can_refund_iff_example = can_refund_iff company_config broken_phone

can_refund_terms_example :
    ((can_refund company_config broken_phone).eligible ≡ true
      → Granted company_config broken_phone (can_refund company_config broken_phone))
    × ((can_refund company_config broken_phone).eligible ≡ false
        → Refused broken_phone (can_refund company_config broken_phone))
can_refund_terms_example = can_refund_terms company_config broken_phone

can_cancel_iff_example :
    (((cancel_decision none OrderStatus.paid).eligible ≡ true)
      ↔ (OpenOrder OrderStatus.paid × InWarehouse none))
    × ((cancel_decision none OrderStatus.paid).requires_human ≡ false)
can_cancel_iff_example = can_cancel_iff none OrderStatus.paid

-- Facts of a chargeback
abbrev charged_back_facts : Fields
charged_back_facts = field "order_id" (str "ORD-0001") (field "chargeback" (bool true) end)

escalation_from_facts_iff_example :
    ((escalation_from_facts charged_back_facts).escalate ≡ true) ↔ CatalogHit charged_back_facts
escalation_from_facts_iff_example = escalation_from_facts_iff charged_back_facts
