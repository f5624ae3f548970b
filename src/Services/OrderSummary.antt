-- ===== src/Services/OrderSummary.antt =====
-- app/services/order_summary.py
use ai_customer_support_plat.Value.{
  Fields, Items, arr, cons, end, field, money, nil, null, num, obj, str,
}
use ai_customer_support_plat.Policy.Cancel.{order_value}
use ai_customer_support_plat.Tools.Database.{
  Order, OrderItem, Payment, Product, Uuids, payment_value,
}
use ai_customer_support_plat.Tools.Lookups.{instant_or_null, paid_payments}
use ai_customer_support_plat.Prelude.{
  Bool, List, Option, String, [], has_prefix, if◌then◌else◌, length, map, none, nonempty, some, suc,
  upper, zero, ℕ, ◌==◌, ◌∷◌,
}

-- The `labels` of data/company/company.yaml: for each group, its values and their labels.
abbrev pub Labels : Type 0
Labels = List (String × List (String × String))

abbrev skip : ℕ → String → String
skip zero s = s
skip (suc n) String.[] = String.[]
skip (suc n) (String.◌∷◌ c s) = skip n s

unfoldable pub order_display_number : String → String
order_display_number public_id =
    if has_prefix "ORD-" (upper public_id) then skip 4 public_id else public_id

abbrev label_in : String → List (String × String) → Option String
label_in value [] = none
label_in value ((v, label) ∷ rest) = if v == value then some label else label_in value rest

abbrev group_in : String → Labels → List (String × String)
group_in group [] = []
group_in group ((g, values) ∷ rest) = if g == group then values else group_in group rest

abbrev label_or : String → Option String → String
label_or value none = value
label_or value (some label) = if nonempty label then label else value

unfoldable pub fact_label : Labels → String → String → String
fact_label labels group value = label_or value (label_in value (group_in group labels))

pub record PaymentSnapshot : Type 0 where
  pub payment_status : String
  pub paid_payment_count : ℕ

abbrev unpaid_snapshot : List Payment → PaymentSnapshot
unpaid_snapshot [] = record { payment_status = "pending"; paid_payment_count = 0 }
unpaid_snapshot (p ∷ _) = record { payment_status = payment_value p.status; paid_payment_count = 0 }

-- the snapshot by the paid payments, of which the source asks whether there are two or more
abbrev snapshot_of : List Payment → List Payment → PaymentSnapshot
snapshot_of [] payments = unpaid_snapshot payments
snapshot_of (p ∷ []) payments = record { payment_status = "paid"; paid_payment_count = 1 }
snapshot_of (p ∷ q ∷ ps) payments = record {
  payment_status = "paid";
  paid_payment_count = length (p ∷ q ∷ ps);
}

unfoldable pub payment_snapshot : List Payment → PaymentSnapshot
payment_snapshot payments = snapshot_of (paid_payments payments) payments

abbrev item_fields : OrderItem → Option Product → Fields
item_fields item product = field "public_id" (str item.public_id) (
    field "quantity" (num item.quantity) (
      field "unit_price" (money item.unit_price) (
        field "line_total" (money item.line_total) (elim product [
          | none ↦
              field "product_public_id" null (field "product_name" null (field "category" null end))
          | some p ↦
              field "product_public_id" (str p.public_id)
                (field "product_name" (str p.name) (field "category" (str p.category) end))
        ]))))

abbrev item_dicts : List OrderItem → Items
item_dicts [] = nil
item_dicts (item ∷ items) = cons (obj (item_fields item item.product)) (item_dicts items)

unfoldable pub order_to_dict : Uuids → Labels → Order → List Payment → Bool → Fields
unfolding order_display_number fact_label payment_snapshot
order_to_dict u labels order payments include_items =
    let snap = payment_snapshot payments in
    let status = order_value order.status in
    field "id" (str (u.text order.id)) (
      field "public_id" (str order.public_id) (
        field "display_number" (str (order_display_number order.public_id)) (
          field "customer_id" (str (u.text order.customer_id)) (
            field "status" (str status) (
              field "status_label" (str (fact_label labels "order_status" status)) (
                field "total_amount" (money order.total_amount) (
                  field "currency" (str order.currency) (
                    field "created_at" (instant_or_null order.created_at) (
                      field "estimated_delivery" (instant_or_null order.estimated_delivery) (
                        field "actual_delivery" (instant_or_null order.actual_delivery) (
                          field "payment_status" (str snap.payment_status) (
                            field "payment_status_label"
                              (str (fact_label labels "payment_status" snap.payment_status))
                              (field "paid_payment_count" (num snap.paid_payment_count) (
                                if include_items
                                then field "items" (arr (item_dicts order.items)) end
                                else end))))))))))))))

pub record OrderItemSummary : Type 0 where
  pub product_name : String
  pub quantity : ℕ
  pub line_total : ℕ

pub record OrderSummary : Type 0 where
  pub id : ℕ
  pub public_id : String
  pub display_number : String
  pub status : String
  pub status_label : String
  pub payment_status : String
  pub payment_status_label : String
  pub paid_payment_count : ℕ
  pub total_amount : ℕ
  pub currency : String
  pub created_at : Option ℕ
  pub estimated_delivery : Option ℕ
  pub actual_delivery : Option ℕ
  pub items : List OrderItemSummary

-- str(item["product_name"])
abbrev shown_name : Option Product → String
shown_name none = "None"
shown_name (some p) = p.name

abbrev item_summary : OrderItem → OrderItemSummary
item_summary item = record {
  product_name = shown_name item.product;
  quantity = item.quantity;
  line_total = item.line_total;
}

-- `order_to_api_summary`, with the entries that `order_to_dict` has
unfoldable pub order_to_api_summary : Labels → Order → List Payment → OrderSummary
unfolding order_display_number fact_label payment_snapshot
order_to_api_summary labels order payments =
    let snap = payment_snapshot payments in
    let status = order_value order.status in
    record {
      id = order.id;
      public_id = order.public_id;
      display_number = order_display_number order.public_id;
      status = status;
      status_label = fact_label labels "order_status" status;
      payment_status = snap.payment_status;
      payment_status_label = fact_label labels "payment_status" snap.payment_status;
      paid_payment_count = snap.paid_payment_count;
      total_amount = order.total_amount;
      currency = order.currency;
      created_at = order.created_at;
      estimated_delivery = order.estimated_delivery;
      actual_delivery = order.actual_delivery;
      items = map item_summary order.items;
    }
