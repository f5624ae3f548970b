-- ===== src/Tools/Logistics.antt =====
-- app/tools/logistics/tools.py
use ai_customer_support_plat.Prelude.{
  Bool, List, Option, String, [], if◌then◌else◌, nat_beq, none, some, ℕ, ◌++◌, ◌+◌, ◌==◌, ◌⁀◌, ◌∷◌,
}
use ai_customer_support_plat.Value.{
  Fields, Items, Value, arr, bool, cons, end, field, get, nil, null, obj, str,
}
use ai_customer_support_plat.Policy.Types.{CancelDecision, dump_cancel}
use ai_customer_support_plat.Policy.Cancel.{
  OrderStatus, ShipmentStatus, can_cancel, order_value, shipment_value,
}
use ai_customer_support_plat.Agents.Messages.{Outcome, Tool}
use ai_customer_support_plat.Tools.Database.{
  InspectionStatus, Order, ReturnReason, ReturnRequest, ReturnStatus, Shipment, Tables, Uuids,
  World, inspection_value, reason_value, return_value,
}
use ai_customer_support_plat.Tools.Lookups.{
  instant_or_null, invalid_arguments, load_owned, load_returns, load_shipment, order_not_found,
  required_text, text_or,
}
use ai_customer_support_plat.Tools.Billing.{Body, order_tool}

abbrev flag_or_null : Option Bool → Value
flag_or_null none = null
flag_or_null (some b) = bool b

abbrev shipment_payload : Order → Option Shipment → Fields
shipment_payload order none = field "error" (str "Shipment not found") (
    field "order_id" (str order.public_id)
      (field "order_status" (str (order_value order.status)) end))
shipment_payload order (some s) = field "order_id" (str order.public_id) (
    field "public_id" (str s.public_id) (
      field "carrier" (str s.carrier) (
        field "tracking_code" (str s.tracking_code) (
          field "status" (str (shipment_value s.status)) (
            field "shipped_at" (instant_or_null s.shipped_at) (
              field "estimated_delivery" (instant_or_null s.estimated_delivery) (
                field "delivered_at" (instant_or_null s.delivered_at)
                  (field "customer_received" (flag_or_null s.customer_received) end))))))))

get_shipment_body : String → Tables → Option Order → Fields
get_shipment_body order_id t none = order_not_found order_id
get_shipment_body order_id t (some order) = shipment_payload order (load_shipment t order.id)

abbrev return_items : List ReturnRequest → Items
return_items [] = nil
return_items (r ∷ rs) =
    cons
      (obj (
        field "public_id" (str r.public_id) (
          field "reason" (str (reason_value r.reason)) (
            field "status" (str (return_value r.status))
              (field "inspection_status" (str (inspection_value r.inspection_status)) end)))))
      (return_items rs)

get_return_status_body : String → Tables → Option Order → Fields
get_return_status_body order_id t none = order_not_found order_id
get_return_status_body order_id t (some order) =
    field "order_id" (str order.public_id)
      (field "returns" (arr (return_items (load_returns t order.id))) end)

abbrev pub shipment_status_of : Option Shipment → Option String
shipment_status_of none = none
shipment_status_of (some s) = some (shipment_value s.status)

abbrev pub parcel_status : Option Shipment → Option ShipmentStatus
parcel_status none = none
parcel_status (some s) = some s.status

-- the row of the order, with its new status
abbrev pub cancel_row : ℕ → List Order → List Order
cancel_row key [] = []
cancel_row key (o ∷ os) =
    (if nat_beq o.id key then record o { status = OrderStatus.cancelled } else o)
    ∷ cancel_row key os

abbrev set_cancelled : Order → World → World
set_cancelled order w = record w {
  tables = record w.tables { orders = cancel_row order.id w.tables.orders };
}

abbrev cancel_payload : String → Order → CancelDecision → Fields
cancel_payload status order decision =
    field "status" (str status)
      (field "order_id" (str order.public_id) (field "decision" (obj (dump_cancel decision)) end))

-- the decision for an order, by its own status and its parcel's
abbrev pub cancel_decision_for : World → Order → CancelDecision
cancel_decision_for w order =
    can_cancel (shipment_status_of (load_shipment w.tables order.id)) (order_value order.status)

unfoldable pub cancel_for : String → World → Option Order → Fields × World
cancel_for order_id w none = (order_not_found order_id, w)
cancel_for order_id w (some order) =
    let decision = cancel_decision_for w order in
    if decision.eligible
    then (cancel_payload "cancelled" order decision, set_cancelled order w)
    else (cancel_payload "denied" order decision, w)

-- ReturnReason(reason), or OTHER
unfoldable pub parse_reason : String → ReturnReason
parse_reason s =
    if s == "defective_product"
    then ReturnReason.defective_product
    else if s == "wrong_item"
    then ReturnReason.wrong_item
    else if s == "customer_preference"
    then ReturnReason.customer_preference
    else if s == "missing_parts"
    then ReturnReason.missing_parts
    else ReturnReason.other

abbrev inspection_for : ReturnReason → InspectionStatus
inspection_for ReturnReason.defective_product = InspectionStatus.pending
inspection_for _ = InspectionStatus.not_required

abbrev return_payload : ReturnRequest → Order → Fields
return_payload ret order = field "return_id" (str ret.public_id) (
    field "order_id" (str order.public_id) (
      field "status" (str (return_value ret.status))
        (field "reason" (str (reason_value ret.reason)) end)))

-- a tool with an order id and a reason
abbrev pub return_tool :
    Option String → Option String → (String → String → Body) → World → Outcome × World
return_tool (some order_id) (some reason) body w =
    order_tool (some order_id) (λ id. body id reason) w
return_tool _ _ body w = (invalid_arguments, w)

module _ (u : Uuids) where
  unfoldable pub get_shipment : Tool World
  unfolding get_shipment_body
  get_shipment args = order_tool (required_text (get args "order_id")) λ order_id context w.
      (get_shipment_body order_id w.tables (load_owned u context w.tables order_id), w)

  -- an alias
  unfoldable pub get_shipping_status : Tool World
  unfolding get_shipment
  get_shipping_status args = get_shipment args

  unfoldable pub get_return_status : Tool World
  unfolding get_return_status_body
  get_return_status args = order_tool (required_text (get args "order_id")) λ order_id context w.
      (get_return_status_body order_id w.tables (load_owned u context w.tables order_id), w)

  unfoldable pub cancel_body : String → Body
  unfolding cancel_for
  cancel_body order_id context w = cancel_for order_id w (load_owned u context w.tables order_id)

  unfoldable pub cancel_order : Tool World
  unfolding cancel_body
  cancel_order args = order_tool (required_text (get args "order_id")) cancel_body

  unfoldable pub new_return : World → Order → ReturnReason → ReturnRequest
  new_return w order reason = record {
    id = u.random w.drawn;
    public_id = "RET-" ⁀ u.hex8 (u.random (w.drawn + 1));
    order_id = order.id;
    customer_id = order.customer_id;
    reason = reason;
    status = ReturnStatus.requested;
    requested_at = w.now;
    inspection_status = inspection_for reason;
  }

  abbrev add_return : ReturnRequest → World → World
  add_return ret w = record w {
    tables = record w.tables { returns = w.tables.returns ++ ret ∷ [] };
    drawn = w.drawn + 2;
  }

  return_for : String → String → World → Option Order → Fields × World
  unfolding new_return parse_reason
  return_for order_id reason w none = (order_not_found order_id, w)
  return_for order_id reason w (some order) =
      let ret = new_return w order (parse_reason reason) in
      (return_payload ret order, add_return ret w)

  unfoldable pub return_body : String → String → Body
  unfolding return_for
  return_body order_id reason context w =
      return_for order_id reason w (load_owned u context w.tables order_id)

  unfoldable pub create_return_request : Tool World
  unfolding return_body
  create_return_request args =
      return_tool (required_text (get args "order_id"))
        (text_or "customer_preference" (get args "reason")) return_body
