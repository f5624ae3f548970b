-- ===== src/Tools/Billing.antt =====
-- app/tools/billing/tools.py: each tool takes its arguments and the world, and returns its payload
-- and the new world.
use ai_customer_support_plat.Prelude.{
  Bool, List, Option, String, [], false, nat_beq, none, some, true, ℕ, ◌&&◌, ◌∷◌,
}
use ai_customer_support_plat.Value.{
  Fields, Items, arr, bool, cons, end, field, get, money, nil, null, num, obj, str,
}
use ai_customer_support_plat.Agents.Messages.{Outcome, Tool, returned}
use ai_customer_support_plat.Tools.Database.{
  Order, OrderItem, Payment, Product, Tables, ToolContext, Uuids, World, payment_value,
}
use ai_customer_support_plat.Tools.Lookups.{
  instant_or_null, invalid_arguments, load_owned, load_payments, not_configured, order_not_found,
  paid_payments, required_text,
}
use ai_customer_support_plat.Services.OrderSummary.{Labels, order_to_dict}

-- A tool's body, behind its schema and `_ctx()`: the payload and the new world.
abbrev pub Body : Type 0
Body = ToolContext → World → Fields × World

abbrev pub with_context : Option ToolContext → Body → World → Outcome × World
with_context none body w = (returned (obj not_configured), w)
with_context (some context) body w = let (d, w') = body context w in (returned (obj d), w')

-- a tool that takes an order id
abbrev pub order_tool : Option String → (String → Body) → World → Outcome × World
order_tool none body w = (invalid_arguments, w)
order_tool (some order_id) body w = with_context w.context (body order_id) w

abbrev product_fields : Option Product → Fields
product_fields none = field "product_public_id" null (
    field "product_name" null
      (field "category" null (field "final_sale" null (field "warranty_days" null end))))
product_fields (some p) = field "product_public_id" (str p.public_id) (
    field "product_name" (str p.name) (
      field "category" (str p.category)
        (field "final_sale" (bool p.final_sale) (field "warranty_days" (num p.warranty_days) end))))

abbrev tool_items : List OrderItem → Items
tool_items [] = nil
tool_items (item ∷ items) =
    cons
      (obj (
        field "public_id" (str item.public_id) (
          field "quantity" (num item.quantity) (
            field "unit_price" (money item.unit_price)
              (field "line_total" (money item.line_total) (product_fields item.product))))))
      (tool_items items)

get_order_items_body : String → Option Order → Fields
get_order_items_body order_id none = order_not_found order_id
get_order_items_body order_id (some order) =
    field "order_id" (str order.public_id) (field "items" (arr (tool_items order.items)) end)

abbrev same_amounts : ℕ → List Payment → Bool
same_amounts n [] = true
same_amounts n (p ∷ ps) = nat_beq p.amount n && same_amounts n ps

-- len(paid) >= 2 and len({item.amount for item in paid}) == 1
unfoldable pub charged_same_twice : List Payment → Bool
charged_same_twice [] = false
charged_same_twice (p ∷ []) = false
charged_same_twice (p ∷ q ∷ ps) = same_amounts p.amount (q ∷ ps)

abbrev payment_items : List Payment → Items
payment_items [] = nil
payment_items (p ∷ ps) =
    cons
      (obj (
        field "public_id" (str p.public_id) (
          field "status" (str (payment_value p.status)) (
            field "amount" (money p.amount) (
              field "payment_method" (str p.payment_method)
                (field "created_at" (instant_or_null p.created_at) end))))))
      (payment_items ps)

get_payments_body : String → Tables → Option Order → Fields
get_payments_body order_id t none = order_not_found order_id
get_payments_body order_id t (some order) =
    let payments = load_payments t order.id in
    field "order_id" (str order.public_id) (
      field "duplicate_charge" (bool (charged_same_twice (paid_payments payments)))
        (field "payments" (arr (payment_items payments)) end))

abbrev status_items : List Payment → Items
status_items [] = nil
status_items (p ∷ ps) = cons (str (payment_value p.status)) (status_items ps)

get_payment_status_body : String → Tables → Option Order → Fields
get_payment_status_body order_id t none = order_not_found order_id
get_payment_status_body order_id t (some order) =
    let payments = load_payments t order.id in
    field "order_id" (str order.public_id) (
      field "statuses" (arr (status_items payments))
        (field "duplicate_charge" (bool (charged_same_twice (paid_payments payments))) end))

module _ (u : Uuids) (labels : Labels) where
  get_order_body : String → ToolContext → Tables → Option Order → Fields
  get_order_body order_id context t none = order_not_found order_id
  get_order_body order_id context t (some order) =
      order_to_dict u labels order (load_payments t order.id) true

  unfoldable pub get_order : Tool World
  unfolding get_order_body
  get_order args = order_tool (required_text (get args "order_id")) λ order_id context w.
      (get_order_body order_id context w.tables (load_owned u context w.tables order_id), w)

  unfoldable pub get_order_items : Tool World
  unfolding get_order_items_body
  get_order_items args = order_tool (required_text (get args "order_id")) λ order_id context w.
      (get_order_items_body order_id (load_owned u context w.tables order_id), w)

  unfoldable pub get_payments : Tool World
  unfolding get_payments_body
  get_payments args = order_tool (required_text (get args "order_id")) λ order_id context w.
      (get_payments_body order_id w.tables (load_owned u context w.tables order_id), w)

  -- the payload of `get_payments`, summarised
  unfoldable pub get_payment_status : Tool World
  unfolding get_payment_status_body
  get_payment_status args = order_tool (required_text (get args "order_id")) λ order_id context w.
      (get_payment_status_body order_id w.tables (load_owned u context w.tables order_id), w)
