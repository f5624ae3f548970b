-- ===== src/Tools/Lookups.antt =====
-- app/tools/lookups.py and `require_context` of app/tools/context.py.
use ai_customer_support_plat.Prelude.{
  Bool, List, Option, String, [], if◌then◌else◌, nat_beq, none, some, true, ℕ, ◌-◌, ◌/◌, ◌==◌, ◌∷◌,
}
use ai_customer_support_plat.Value.{Fields, Value, bool, end, field, instant, null, str}
use ai_customer_support_plat.Agents.Messages.{Outcome, raised}
use ai_customer_support_plat.Tools.Database.{
  Customer, Order, OrderItem, Payment, Product, ReturnRequest, Shipment, Tables, ToolContext, Uuids,
  account_value, payment_value,
}

-- the first row of a table that passes a test; keys are unique
abbrev pub find_row : {A : Type 0} → (A → Bool) → List A → Option A
find_row test [] = none
find_row test (r ∷ rs) = if test r then some r else find_row test rs

abbrev pub rows : {A : Type 0} → (A → Bool) → List A → List A
rows test [] = []
rows test (r ∷ rs) = if test r then r ∷ rows test rs else rows test rs

abbrev order_key : Option ℕ → String → Order → Bool
order_key none identifier o = o.public_id == identifier
order_key (some key) identifier o = nat_beq o.id key

-- by UUID, if the identifier is one, and by public_id otherwise
unfoldable pub load_order : Uuids → Tables → String → Option Order
load_order u t identifier = find_row (order_key (u.parse identifier) identifier) t.orders

abbrev customer_key : Option ℕ → String → Customer → Bool
customer_key none identifier c = c.public_id == identifier
customer_key (some key) identifier c = nat_beq c.id key

unfoldable pub load_customer : Uuids → Tables → String → Option Customer
load_customer u t identifier = find_row (customer_key (u.parse identifier) identifier) t.customers

abbrev scoped : Option ℕ → ℕ → Bool
scoped none customer_id = true
scoped (some bound) customer_id = nat_beq customer_id bound

unfoldable pub scoped_to_customer : ToolContext → ℕ → Bool
scoped_to_customer context customer_id = scoped context.customer_id customer_id

unfoldable pub load_payments : Tables → ℕ → List Payment
load_payments t order_id = rows (λ p. nat_beq p.order_id order_id) t.payments

unfoldable pub load_shipment : Tables → ℕ → Option Shipment
load_shipment t order_id = find_row (λ s. nat_beq s.order_id order_id) t.shipments

unfoldable pub load_returns : Tables → ℕ → List ReturnRequest
load_returns t order_id = rows (λ r. nat_beq r.order_id order_id) t.returns

abbrev first_product : List OrderItem → Option Product
first_product [] = none
first_product (item ∷ _) = item.product

abbrev pub primary_product : Order → Option Product
primary_product order = first_product order.items

abbrev days_between : Option ℕ → ℕ → Option ℕ
days_between none now = none
days_between (some delivered) now = some ((now - delivered) / 86400)

-- max(0, (now - delivered).days): `-` stops at 0, as `max` does
abbrev pub days_since_delivery : Order → ℕ → Option ℕ
days_since_delivery order now = days_between order.actual_delivery now

-- customer_to_dict
abbrev pub customer_to_dict : Uuids → Customer → Fields
customer_to_dict u c = field "id" (str (u.text c.id)) (
    field "public_id" (str c.public_id) (
      field "name" (str c.name) (
        field "email" (str c.email) (
          field "phone" (str c.phone) (
            field "customer_tier" (str c.customer_tier)
              (field "account_status" (str (account_value c.account_status)) end))))))

abbrev pub instant_or_null : Option ℕ → Value
instant_or_null none = null
instant_or_null (some n) = instant n

abbrev pub paid_payments : List Payment → List Payment
paid_payments ps = rows (λ p. payment_value p.status == "paid") ps

-- The arguments that the model wrote, as the tools' schemas read them: a text that must be there,
-- and a text or a flag with a default.
abbrev pub required_text : Option Value → Option String
required_text (some (str s)) = some s
required_text _ = none

abbrev pub text_or : String → Option Value → Option String
text_or d none = some d
text_or d (some (str s)) = some s
text_or d (some _) = none

abbrev pub flag_or : Bool → Option Value → Option Bool
flag_or d none = some d
flag_or d (some (bool b)) = some b
flag_or d (some _) = none

abbrev pub invalid_arguments : Outcome
invalid_arguments = raised "validation error"

abbrev pub not_configured : Fields
not_configured = field "error" (str "Tool context not configured") end

abbrev pub order_not_found : String → Fields
order_not_found order_id =
    field "error" (str "Order not found") (field "order_id" (str order_id) end)

-- `await load_order(...)` and the ownership test behind it
abbrev pub owned : ToolContext → Option Order → Option Order
owned context none = none
owned context (some order) =
    if scoped_to_customer context order.customer_id then some order else none

abbrev pub load_owned : Uuids → ToolContext → Tables → String → Option Order
load_owned u context t order_id = owned context (load_order u t order_id)
