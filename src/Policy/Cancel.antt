-- ===== src/Policy/Cancel.antt =====
-- `can_cancel` of app/policies/rules.py, and the statuses of app/models/enums.py that it reads.
use ai_customer_support_plat.Prelude.{
  Bool, List, Option, String, [], arith, false, if◌then◌else◌, none, one_of, refl, some, true, ◌==◌,
  ◌||◌, ◌↔◌, ◌∷◌, ◌≡◌,
}
use ai_customer_support_plat.Policy.Types.{CancelDecision}

pub data OrderStatus : Type 0 where
  pending paid processing shipped delivered cancelled returned : OrderStatus

pub data ShipmentStatus : Type 0 where
  processing shipped in_transit out_for_delivery delivered delayed lost : ShipmentStatus

-- status.value
abbrev pub order_value : OrderStatus → String
order_value OrderStatus.pending = "pending"
order_value OrderStatus.paid = "paid"
order_value OrderStatus.processing = "processing"
order_value OrderStatus.shipped = "shipped"
order_value OrderStatus.delivered = "delivered"
order_value OrderStatus.cancelled = "cancelled"
order_value OrderStatus.returned = "returned"

abbrev pub shipment_value : ShipmentStatus → String
shipment_value ShipmentStatus.processing = "processing"
shipment_value ShipmentStatus.shipped = "shipped"
shipment_value ShipmentStatus.in_transit = "in_transit"
shipment_value ShipmentStatus.out_for_delivery = "out_for_delivery"
shipment_value ShipmentStatus.delivered = "delivered"
shipment_value ShipmentStatus.delayed = "delayed"
shipment_value ShipmentStatus.lost = "lost"

abbrev pub shipped_states : List String
shipped_states =
    "shipped" ∷ "in_transit" ∷ "out_for_delivery" ∷ "delivered" ∷ "delayed" ∷ "lost" ∷ []

-- `shipment_status in shipped_states`, where `None` is in no set of texts
abbrev in_shipped_states : Option String → Bool
in_shipped_states none = false
in_shipped_states (some s) = one_of s shipped_states

unfoldable pub can_cancel : Option String → String → CancelDecision
can_cancel shipment_status order_status =
    if one_of order_status ("shipped" ∷ "delivered" ∷ "returned" ∷ [])
      || in_shipped_states shipment_status
    then record {
      eligible = false;
      requires_human = false;
      reasons = "SHIPPED_USE_RETURN" ∷ [];
      policy_ids = "shipping_policy" ∷ [];
    }
    else if order_status == "cancelled"
    then record {
      eligible = false;
      requires_human = false;
      reasons = "ALREADY_CANCELLED" ∷ [];
      policy_ids = "shipping_policy" ∷ [];
    }
    else record {
      eligible = true;
      requires_human = false;
      reasons = "CANCEL_BEFORE_SHIPMENT" ∷ [];
      policy_ids = "shipping_policy" ∷ [];
    }

-- The order has not left the warehouse and is still alive, by its own status and its parcel's.
pub data OpenOrder : OrderStatus → Type 0 where
  awaiting_payment : OpenOrder OrderStatus.pending
  captured : OpenOrder OrderStatus.paid
  packing : OpenOrder OrderStatus.processing

pub data InWarehouse : Option ShipmentStatus → Type 0 where
  no_parcel : InWarehouse none
  parcel_packing : InWarehouse (some ShipmentStatus.processing)

-- `can_cancel` at the values of the two enumerations
abbrev pub cancel_decision : Option ShipmentStatus → OrderStatus → CancelDecision
cancel_decision none o = can_cancel none (order_value o)
cancel_decision (some s) o = can_cancel (some (shipment_value s)) (order_value o)

ruleset cancel_rules = (awaiting_payment, captured, packing, no_parcel, parcel_packing)

open_if_eligible :
    (s : Option ShipmentStatus) (o : OrderStatus)
    → (cancel_decision s o).eligible ≡ true
    → OpenOrder o × InWarehouse s
unfolding can_cancel
open_if_eligible none OrderStatus.pending h = grind (arith, cancel_rules)
open_if_eligible (some ShipmentStatus.processing) OrderStatus.pending h =
    grind (arith, cancel_rules)
open_if_eligible s o h = grind (arith, cancel_rules)

eligible_if_open :
    (s : Option ShipmentStatus) (o : OrderStatus)
    → OpenOrder o × InWarehouse s
    → (cancel_decision s o).eligible ≡ true
unfolding can_cancel
eligible_if_open s o (awaiting_payment, no_parcel) = refl
eligible_if_open s o (awaiting_payment, parcel_packing) = refl
eligible_if_open s o (captured, no_parcel) = refl
eligible_if_open s o (captured, parcel_packing) = refl
eligible_if_open s o (packing, no_parcel) = refl
eligible_if_open s o (packing, parcel_packing) = refl

never_human : (s : Option String) (o : String) → (can_cancel s o).requires_human ≡ false
unfolding can_cancel
never_human none o = ground arith
never_human (some s) o = ground arith

-- An order can be cancelled exactly when its status is pending, paid or processing and its parcel,
-- if there is one, is still being processed; a cancellation is never left to a human.
pub can_cancel_iff :
    (s : Option ShipmentStatus) (o : OrderStatus)
    → (((cancel_decision s o).eligible ≡ true) ↔ (OpenOrder o × InWarehouse s))
      × ((cancel_decision s o).requires_human ≡ false)
can_cancel_iff none o = ((open_if_eligible none o, eligible_if_open none o), never_human none _)
can_cancel_iff (some s) o =
    ((open_if_eligible (some s) o, eligible_if_open (some s) o), never_human (some _) _)
