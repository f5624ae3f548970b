-- ===== src/Graph/Context.antt =====
-- `load_customer_context_node` of app/graph/nodes.py with `list_customer_orders`. The ticket and the
-- order of the rows come from the database, and `amount_text` is the text of a `Decimal`.
pub mod Loading
pub mod Flags
use ai_customer_support_plat.Value.{Fields, Items, bool, cons, end, field, nil, obj, str}
use ai_customer_support_plat.Tools.Database.{
  Customer, Order, Payment, Tables, Uuids, World, account_value,
}
use ai_customer_support_plat.Tools.Lookups.{find_row, load_payments, rows}
use ai_customer_support_plat.Policy.Cancel.{order_value}
use ai_customer_support_plat.Policy.Escalation.{escalation_from_facts}
use ai_customer_support_plat.Services.OrderSummary.{Labels}
use ai_customer_support_plat.Services.OrdersSummary.{build_orders_summary}
use ai_customer_support_plat.Services.Tickets.{Ticket}
use ai_customer_support_plat.Graph.State.{SupportState}
use ai_customer_support_plat.Prelude.{
  Bool, List, Option, String, [], false, if◌then◌else◌, nat_beq, none, nonempty, some, true, ℕ, ◌∷◌,
}

-- the orders of one customer; `newest_first` is the database's ORDER BY
unfoldable pub list_customer_orders : (List Order → List Order) → Tables → ℕ → List Order
list_customer_orders newest_first t customer_id =
    newest_first (rows (λ o. nat_beq o.customer_id customer_id) t.orders)

abbrev pub with_payments : Tables → List Order → List (Order × List Payment)
with_payments t [] = []
with_payments t (o ∷ os) = (o, load_payments t o.id) ∷ with_payments t os

-- the order of the ticket, or the only order that there is
abbrev pub bound_order_id : Option ℕ → List Order → Option ℕ
bound_order_id (some id) orders = some id
bound_order_id none (o ∷ []) = some o.id
bound_order_id none _ = none

abbrev ordered_in : Option Ticket → Option ℕ
ordered_in none = none
ordered_in (some t) = t.order_id

abbrev by_key : (ℕ → Option Ticket) → Option ℕ → Option ℕ
by_key tickets none = none
by_key tickets (some key) = ordered_in (tickets key)

-- the order of the ticket, if there is a ticket
abbrev pub ticket_order : Uuids → (ℕ → Option Ticket) → String → Option ℕ
ticket_order u tickets ticket_id =
    if nonempty ticket_id then by_key tickets (u.parse ticket_id) else none

abbrev pub is_order : Option ℕ → Order → Bool
is_order none o = false
is_order (some id) o = nat_beq o.id id

-- the update of the keys of the selected order
abbrev pub with_selected : (ℕ → String) → Option Order → SupportState → SupportState
with_selected amount_text none state = state
with_selected amount_text (some o) state = record state {
  order_public_id = some o.public_id;
  order_status = some (order_value o.status);
  order_total = some (amount_text o.total_amount);
}

abbrev pub as_items : List Fields → Items
as_items [] = nil
as_items (d ∷ ds) = cons (obj d) (as_items ds)

abbrev pub unusable_decision : Fields
unusable_decision =
    field "requires_human" (bool true) (field "escalation_trigger" (str "unusable_identity") end)

-- what the identity of the customer asks for
abbrev pub with_identity : Bool → SupportState → SupportState
with_identity true state = record state {
  needs_human = some true;
  policy_decision = some unusable_decision;
}
with_identity false state = state

module _ (u : Uuids) (labels : Labels) (newest_first : List Order → List Order)
    (amount_text : ℕ → String) (tickets : ℕ → Option Ticket) where
  abbrev pub profiled :
      Customer → List (Order × List Payment) → Option ℕ → SupportState → SupportState
  profiled c orders bound state = record state {
    customer_public_id = some c.public_id;
    customer_name = some c.name;
    customer_tier = some c.customer_tier;
    account_status = some (account_value c.account_status);
    orders_summary = some (as_items (build_orders_summary u labels bound orders));
  }

  -- the payload for a customer who has been found
  unfoldable pub loaded : Tables → Customer → SupportState → SupportState
  loaded t c state =
      let orders = list_customer_orders newest_first t c.id in
      let bound = bound_order_id (ticket_order u tickets state.ticket_id) orders in
      with_identity
        (escalation_from_facts
          (field "account_status" (str (account_value c.account_status)) end)).escalate
        (with_selected amount_text (find_row (is_order bound) orders)
          (profiled c (with_payments t orders) bound state))

  abbrev pub load_found : Tables → Option Customer → SupportState → SupportState
  load_found t none state = state
  load_found t (some c) state = loaded t c state

  abbrev pub load_parsed : Tables → Option ℕ → SupportState → SupportState
  load_parsed t none state = state
  load_parsed t (some key) state = load_found t (find_row (λ c. nat_beq c.id key) t.customers) state

  abbrev pub load_named : Tables → Option String → SupportState → SupportState
  load_named t none state = state
  load_named t (some customer_id) state =
      if nonempty customer_id then load_parsed t (u.parse customer_id) state else state

  -- `load_customer_context_node`
  unfoldable pub load_customer_context_node : SupportState → World → SupportState
  load_customer_context_node state w = elim w.context [
    | none ↦ state
    | some context ↦ load_named w.tables state.customer_id state
  ]
