-- ===== src/Services/OrdersSummary.antt =====
-- `build_orders_summary` of app/services/order_summary.py: what a worker sees of the customer's
-- orders.
use ai_customer_support_plat.Prelude.{
  Bool, List, Option, [], false, if◌then◌else◌, none, refl, some, true, ℕ, ◌==◌, ◌∷◌, ◌≡◌,
}
use ai_customer_support_plat.Value.{Fields, get, pop, str}
use ai_customer_support_plat.Tools.Database.{Order, Payment, Uuids}
use ai_customer_support_plat.Services.OrderSummary.{Labels, order_to_dict}

-- bound is not None and str(order.id) == bound
abbrev pub is_bound : Uuids → Option ℕ → Order → Bool
is_bound u none order = false
is_bound u (some bound) order = u.text order.id == u.text bound

unfoldable pub summary_row : Uuids → Labels → Option ℕ → Order → List Payment → Fields
summary_row u labels bound order payments =
    let include_items = is_bound u bound order in
    let row = order_to_dict u labels order payments include_items in
    if include_items then row else pop (pop row "estimated_delivery") "actual_delivery"

-- the orders of a customer, each with its payments
unfoldable pub build_orders_summary :
    Uuids → Labels → Option ℕ → List (Order × List Payment) → List Fields
build_orders_summary u labels bound [] = []
build_orders_summary u labels bound ((order, payments) ∷ orders) =
    summary_row u labels bound order payments ∷ build_orders_summary u labels bound orders

-- a row without items and delivery dates
pub record Header (row : Fields) : Type 0 where
  pub items_hidden : get row "items" ≡ none
  pub estimate_hidden : get row "estimated_delivery" ≡ none
  pub delivery_hidden : get row "actual_delivery" ≡ none

-- every row is that of its order: the whole order if it is bound, and a header if it is not
pub data Rows (u : Uuids) (labels : Labels) (bound : Option ℕ)
    : List (Order × List Payment) → List Fields → Type 0 where
  no_rows : Rows u labels bound [] []
  detailed :
      (order : Order) (payments : List Payment) (orders : List (Order × List Payment))
      (rows : List Fields)
      → is_bound u bound order ≡ true
      → Rows u labels bound orders rows
      → Rows u labels bound
          ((order, payments) ∷ orders)
          (order_to_dict u labels order payments true ∷ rows)
  header :
      (order : Order) (payments : List Payment) (orders : List (Order × List Payment))
      (row : Fields) (rows : List Fields)
      → is_bound u bound order ≡ false
      → get row "public_id" ≡ some (str order.public_id)
      → Header row
      → Rows u labels bound orders rows
      → Rows u labels bound ((order, payments) ∷ orders) (row ∷ rows)

header_row : Uuids → Labels → Order → List Payment → Fields
header_row u labels order payments =
    pop (pop (order_to_dict u labels order payments false) "estimated_delivery") "actual_delivery"

header_row-Header :
    (u : Uuids) (labels : Labels) (order : Order) (payments : List Payment)
    → Header (header_row u labels order payments)
unfolding header_row get pop order_to_dict
header_row-Header u labels order payments = record {
  items_hidden = refl;
  estimate_hidden = refl;
  delivery_hidden = refl;
}

header_row-public_id :
    (u : Uuids) (labels : Labels) (order : Order) (payments : List Payment)
    → get (header_row u labels order payments) "public_id" ≡ some (str order.public_id)
unfolding header_row get pop order_to_dict
header_row-public_id u labels order payments = refl

summary_row-Rows :
    (u : Uuids) (labels : Labels) (bound : Option ℕ) (order : Order) (payments : List Payment)
    (orders : List (Order × List Payment)) (rows : List Fields)
    → Rows u labels bound orders rows
    → Rows u labels bound
        ((order, payments) ∷ orders)
        (summary_row u labels bound order payments ∷ rows)
unfolding summary_row header_row
summary_row-Rows u labels bound order payments orders rows h = go (is_bound u bound order) refl
  where
    go :
        (b : Bool)
        → is_bound u bound order ≡ b
        → Rows u labels bound ((order, payments) ∷ orders) (
            (if b
              then order_to_dict u labels order payments b
              else pop
                  (pop (order_to_dict u labels order payments b) "estimated_delivery")
                  "actual_delivery")
            ∷ rows)
    go true e = detailed order payments orders rows e h
    go false e =
        header order payments orders _ rows e (header_row-public_id u labels order payments)
          (header_row-Header u labels order payments) h

-- The summary has one row for each order, in their order: the bound order in full, and every other
-- order as a header with its number, without its items and its delivery dates.
pub build_orders_summary-Rows :
    (u : Uuids) (labels : Labels) (bound : Option ℕ) (orders : List (Order × List Payment))
    → Rows u labels bound orders (build_orders_summary u labels bound orders)
unfolding build_orders_summary
build_orders_summary-Rows u labels bound [] = no_rows
build_orders_summary-Rows u labels bound ((order, payments) ∷ orders) =
    summary_row-Rows u labels bound order payments orders _
      (build_orders_summary-Rows u labels bound orders)
