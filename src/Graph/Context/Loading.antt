-- ===== src/Graph/Context/Loading.antt =====
-- What the loading of the context adds to a state.
use ai_customer_support_plat.Tools.Database.{
  Customer, Order, Tables, ToolContext, Uuids, World, account_value,
}
use ai_customer_support_plat.Tools.Lookups.{find_row}
use ai_customer_support_plat.Services.OrderSummary.{Labels}
use ai_customer_support_plat.Services.OrdersSummary.{build_orders_summary}
use ai_customer_support_plat.Services.Tickets.{Ticket}
use ai_customer_support_plat.Graph.State.{SupportState}
use ai_customer_support_plat.Prelude.{
  Bool, List, Option, String, nat_beq, none, nonempty, some, true, ℕ, ◌&&◌, ◌≡◌,
}
use ai_customer_support_plat.Tools.Rows.{IsRow, count}
use ai_customer_support_plat.Graph.Context.{as_items, bound_order_id, ticket_order, with_payments}

abbrev pub number_after : Option String → Option Order → Option String
number_after old none = old
number_after old (some o) = some o.public_id

-- The order that is chosen: the one of the orders that has the id.
pub data ChosenIs (orders : List Order) (bound : Option ℕ) : Option Order → Type 0 where
  not_chosen : ((o : Order) → IsRow o orders → bound ≡ some o.id → ⊥) → ChosenIs orders bound none
  chosen_ : (o : Order) → IsRow o orders → bound ≡ some o.id → ChosenIs orders bound (some o)

-- The rows of a customer, each as often as it is in the table.
abbrev pub AreRowsOf : ℕ → List Order → List Order → Type 0
AreRowsOf c table orders =
    (test : Order → Bool) → count test orders ≡ count (λ o. nat_beq o.customer_id c && test o) table

-- A state with the profile of a customer.
pub record Profile (u : Uuids) (labels : Labels) (t : Tables) (c : Customer) (orders : List Order)
    (bound : Option ℕ) (chosen : Option Order) (s s' : SupportState) : Type 0 where
  pub named : s'.customer_public_id ≡ some c.public_id
  pub account : s'.account_status ≡ some (account_value c.account_status)
  pub summary :
      s'.orders_summary
      ≡ some (as_items (build_orders_summary u labels bound (with_payments t orders)))
  pub number : s'.order_public_id ≡ number_after s.order_public_id chosen
  pub said : s'.messages ≡ s.messages
  pub own_orders : AreRowsOf c.id t.orders orders
  pub choice : ChosenIs orders bound chosen

-- A state for which no customer can be loaded.
abbrev pub Unloadable : Uuids → World → SupportState → Type 0
Unloadable u w s =
    (context : ToolContext) (id : String) (key : ℕ) (c : Customer)
    → w.context ≡ some context
    → s.customer_id ≡ some id
    → nonempty id ≡ true
    → u.parse id ≡ some key
    → find_row (λ c. nat_beq c.id key) w.tables.customers ≡ some c
    → ⊥

-- What the node does to a state: nothing, or it adds the profile of the customer whom the state names.
pub data Loaded (u : Uuids) (labels : Labels) (tickets : ℕ → Option Ticket) (w : World)
    (s : SupportState) : SupportState → Type 0 where
  unloaded : Unloadable u w s → Loaded u labels tickets w s s
  profile :
      (id : String) (c : Customer) (orders : List Order) (chosen : Option Order) (s' : SupportState)
      → s.customer_id ≡ some id
      → u.parse id ≡ some c.id
      → Profile u labels w.tables c orders
          (bound_order_id (ticket_order u tickets s.ticket_id) orders)
          chosen
          s
          s'
      → Loaded u labels tickets w s s'
