-- ===== src/Tools/Refunds.antt =====
-- The refund tools of app/tools/billing/tools.py: `check_refund_eligibility` and
-- `create_refund_request`.
use ai_customer_support_plat.Prelude.{
  Bool, List, Option, String, [], false, if◌then◌else◌, none, some, true, ℕ, ◌++◌, ◌+◌, ◌||◌, ◌⁀◌,
  ◌∷◌,
}
use ai_customer_support_plat.Value.{Fields, bool, end, field, get, money, obj, put, str}
use ai_customer_support_plat.Policy.Types.{CompanyConfig, RefundDecision, dump_refund}
use ai_customer_support_plat.Policy.Refund.{RefundQuery, can_refund}
use ai_customer_support_plat.Agents.Messages.{Outcome, Tool}
use ai_customer_support_plat.Tools.Database.{
  Order, Payment, Product, Refund, RefundStatus, ToolContext, Uuids, World, refund_value,
}
use ai_customer_support_plat.Tools.Lookups.{
  days_since_delivery, flag_or, invalid_arguments, load_owned, load_payments, order_not_found,
  paid_payments, primary_product, required_text, text_or,
}
use ai_customer_support_plat.Tools.Billing.{Body, order_tool}

abbrev product_query : Option Product → RefundQuery → RefundQuery
product_query none q = record q {
  product_category = "accessories";
  final_sale = false;
  warranty_days = 90;
}
product_query (some p) q = record q {
  product_category = p.category;
  final_sale = p.final_sale;
  warranty_days = p.warranty_days;
}

-- `duplicate = len(paid) >= 2`, and the amount that goes with it
abbrev charge_query : List Payment → RefundQuery → RefundQuery
charge_query [] q = q
charge_query (p ∷ []) q = q
charge_query (p ∷ _ ∷ _) q = record q { duplicate_charge = true; amount = p.amount }

-- the arguments with which `check_refund_eligibility` asks the policy engine
unfoldable pub refund_query : Order → List Payment → String → Bool → ℕ → RefundQuery
refund_query order payments reason verified now = charge_query (paid_payments payments) (
    product_query (primary_product order) (record {
      days_since_delivery = days_since_delivery order now;
      amount = order.total_amount;
      product_category = "accessories";
      final_sale = false;
      reason = reason;
      identity_verified = verified;
      warranty_days = 90;
      duplicate_charge = false;
      shipment_status = none;
    }))

-- payload["order_id"] = …; payload["reason"] = …
abbrev pub eligibility_payload : RefundDecision → Order → String → Fields
eligibility_payload decision order reason =
    put (put (dump_refund decision) "order_id" (str order.public_id)) "reason" (str reason)

-- The eligibility of an order that the customer owns: the decision behind the payload.
abbrev pub refund_decision_for :
    CompanyConfig → ToolContext → World → Order → String → Bool → RefundDecision
refund_decision_for c context w order reason identity_verified = can_refund c (
    refund_query order (load_payments w.tables order.id) reason
      (identity_verified || context.identity_verified) w.now)

abbrev eligibility_of :
    CompanyConfig → String → String → Bool → ToolContext → World → Option Order → Fields
eligibility_of c order_id reason verified context w none = order_not_found order_id
eligibility_of c order_id reason verified context w (some order) =
    eligibility_payload (refund_decision_for c context w order reason verified) order reason

-- a tool with the three arguments of the refund tools
abbrev pub refund_tool :
    Option String
    → Option String
    → Option Bool
    → (String → String → Bool → Body)
    → World
    → Outcome × World
refund_tool (some order_id) (some reason) (some verified) body w =
    order_tool (some order_id) (λ id. body id reason verified) w
refund_tool _ _ _ body w = (invalid_arguments, w)

module _ (u : Uuids) (c : CompanyConfig) where
  unfoldable pub check_body : String → String → Bool → Body
  check_body order_id reason verified context w = (
    eligibility_of c order_id reason verified context w (load_owned u context w.tables order_id),
    w,
  )

  unfoldable pub check_refund_eligibility : Tool World
  unfolding check_body
  check_refund_eligibility args =
      refund_tool (required_text (get args "order_id"))
        (text_or "customer_preference" (get args "reason"))
        (flag_or false (get args "identity_verified")) check_body

  abbrev first_id : List Payment → Option ℕ
  first_id [] = none
  first_id (p ∷ _) = some p.id

  -- Decimal(str(eligibility.get("max_amount") or order.total_amount))
  abbrev amount_or : ℕ → Option ℕ → ℕ
  amount_or total none = total
  amount_or total (some n) = n

  unfoldable pub new_refund : World → Order → String → RefundDecision → Refund
  new_refund w order reason decision = record {
    id = u.random w.drawn;
    public_id = "RFD-" ⁀ u.hex8 (u.random (w.drawn + 1));
    order_id = order.id;
    return_id = none;
    payment_id = first_id (paid_payments (load_payments w.tables order.id));
    amount = amount_or order.total_amount decision.max_amount;
    status =
        if decision.requires_human then RefundStatus.pending_approval else RefundStatus.requested;
    reason = reason;
    requires_human_approval = decision.requires_human;
  }

  abbrev add_refund : Refund → World → World
  add_refund refund w = record w {
    tables = record w.tables { refunds = w.tables.refunds ++ refund ∷ [] };
    drawn = w.drawn + 2;
  }

  abbrev created_payload : Refund → Order → Fields → Fields
  created_payload refund order eligibility = field "refund_id" (str refund.public_id) (
      field "order_id" (str order.public_id) (
        field "status" (str (refund_value refund.status)) (
          field "amount" (money refund.amount) (
            field "refund_executed" (bool false) (
              field "requires_human" (bool refund.requires_human_approval)
                (field "eligibility" (obj eligibility) end))))))

  abbrev denied_payload : Fields → Fields
  denied_payload eligibility =
      field "status" (str "denied")
        (field "refund_executed" (bool false) (field "eligibility" (obj eligibility) end))

  unfoldable pub request_refund : String → RefundDecision → Order → World → Fields × World
  unfolding new_refund
  request_refund reason decision order w =
      let eligibility = eligibility_payload decision order reason in
      if decision.eligible
      then (let refund = new_refund w order reason decision in
          (created_payload refund order eligibility, add_refund refund w))
      else (denied_payload eligibility, w)

  unfoldable pub create_for :
      String → String → Bool → ToolContext → World → Option Order → Fields × World
  unfolding request_refund
  create_for order_id reason verified context w none = (order_not_found order_id, w)
  create_for order_id reason verified context w (some order) =
      request_refund reason (refund_decision_for c context w order reason verified) order w

  unfoldable pub create_body : String → String → Bool → Body
  unfolding create_for
  create_body order_id reason verified context w =
      create_for order_id reason (verified || context.identity_verified) context w
        (load_owned u context w.tables order_id)

  unfoldable pub create_refund_request : Tool World
  unfolding create_body
  create_refund_request args =
      refund_tool (required_text (get args "order_id"))
        (text_or "customer_preference" (get args "reason"))
        (flag_or false (get args "identity_verified")) create_body
