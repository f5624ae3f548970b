-- ===== src/Api/Portal.antt =====
-- app/api/routes/portal.py: the profile of a customer and the opening of a conversation, with the list
-- routes of app/api/routes/tickets.py and app/api/routes/escalations.py. The database's ORDER BY, and
-- the payments of an order, are given.
pub mod Own
use ai_customer_support_plat.Tools.Database.{Customer, Order, Payment, Uuids, account_value}
use ai_customer_support_plat.Tools.Lookups.{rows}
use ai_customer_support_plat.Tools.Rows.{take}
use ai_customer_support_plat.Services.OrderSummary.{Labels, OrderSummary, order_to_api_summary}
use ai_customer_support_plat.Services.Tickets.{Desk, Failure, missing_scopes, open_}
use ai_customer_support_plat.Services.Tickets.Listing.{
  Direction, SortColumn, TicketListResponse, TicketQuery, TicketRow, TicketSummary, created_at,
  escalated_at, last_message_at, list_escalations, list_tickets, ticket_to_summary,
}
use ai_customer_support_plat.Security.Patterns.{Unicode}
use ai_customer_support_plat.Security.Authorization.{authorization_error, authorize_route}
use ai_customer_support_plat.Api.{Store, resolve_customer_by_email}
use ai_customer_support_plat.Api.Creation.{checked_order}
use ai_customer_support_plat.Prelude.{
  Bool, List, Option, Result, String, [], fail, if◌then◌else◌, lower, map, nat_beq, none, ok, some,
  ℕ, ◌++◌, ◌+◌, ◌>>=◌, ◌∷◌,
}

pub record CustomerProfileResponse : Type 0 where
  pub id : ℕ
  pub public_id : String
  pub email : String
  pub name : String
  pub customer_tier : String
  pub account_status : String
  pub orders : List OrderSummary
  pub conversations : List TicketSummary

abbrev pub is_ordered_by : ℕ → Order → Bool
is_ordered_by c o = nat_beq o.customer_id c

abbrev pub is_owned_by : ℕ → TicketRow → Bool
is_owned_by c r = nat_beq r.ticket.customer_id c

-- the tickets, each with a customer
abbrev pub ticket_rows : (ℕ → Customer) → List (ℕ × Desk) → List TicketRow
ticket_rows owner_of [] = []
ticket_rows owner_of ((id, d) ∷ ds) =
    record { ticket = d.ticket; owner = owner_of d.ticket.customer_id; resolution = d.resolution }
    ∷ ticket_rows owner_of ds

abbrev pub read_scope : List String
read_scope = "read" ∷ []

abbrev pub write_scope : List String
write_scope = "write" ∷ []

-- authorize_route, before a body
abbrev pub scoped : {A : Type 0} → List String → List String → Result Failure A → Result Failure A
scoped scopes asked body =
    if authorize_route scopes asked
    then body
    else fail (missing_scopes (authorization_error "route" asked))

module _ (labels : Labels) (payments_of : ℕ → List Payment) (owner_of : ℕ → Customer)
    (newest_first : List Order → List Order) (latest_first : List TicketRow → List TicketRow) where
  abbrev pub order_summary : Order → OrderSummary
  order_summary o = order_to_api_summary labels o (payments_of o.id)

  -- `_profile`
  unfoldable pub profile : Store → Customer → CustomerProfileResponse
  profile s c = record {
    id = c.id;
    public_id = c.public_id;
    email = c.email;
    name = c.name;
    customer_tier = c.customer_tier;
    account_status = account_value c.account_status;
    orders = map order_summary (newest_first (rows (is_ordered_by c.id) s.orders));
    conversations =
        map ticket_to_summary
          (take 20 (latest_first (rows (is_owned_by c.id) (ticket_rows owner_of s.desks))));
  }

  -- `portal_me`, for the customer of the header
  unfoldable pub portal_me : List String → Customer → Store → Result Failure CustomerProfileResponse
  portal_me scopes c s = scoped scopes read_scope (ok (profile s c))

  -- `portal_session`
  unfoldable pub portal_session :
      Unicode
      → (String → String)
      → List String
      → String
      → Store
      → Result Failure CustomerProfileResponse
  portal_session unicode lower scopes email s =
      scoped scopes read_scope
        (resolve_customer_by_email unicode lower email s >>= λ c. ok (profile s c))

abbrev pub new_conversation : Uuids → ℕ → Option ℕ → ℕ → ℕ → Desk
new_conversation u owner order_id now drawn = record {
  ticket = record {
    id = u.random drawn;
    customer_id = owner;
    order_id = order_id;
    subject = "Support chat";
    description = "";
    status = open_;
    intent = none;
    escalated_at = none;
    last_message_at = none;
    assigned_agent = none;
    created_at = now;
  };
  resolution = none;
  messages = [];
  runs = [];
  events = [];
  now = now;
  drawn = drawn + 1;
  escalations = 0;
}

-- `create_conversation`, for the customer of the header
unfoldable pub create_conversation :
    Uuids → List String → Customer → Option ℕ → ℕ → ℕ → Store → Result Failure (Desk × Store)
create_conversation u scopes c order_id now drawn s =
    let d = new_conversation u c.id order_id now drawn in
    scoped scopes write_scope (
      checked_order order_id c.id s.orders >>= λ ok_order.
      ok (d, record s { desks = s.desks ++ (u.random drawn, d) ∷ [] }))

abbrev id_of : Option Customer → Option ℕ
id_of none = none
id_of (some c) = some c.id

module _ (ilike : String → String → Bool)
    (order_by : SortColumn → Direction → ℕ → ℕ → List TicketRow → List TicketRow) where
  -- the route `list_tickets`: a customer of the portal lists no other customer's tickets
  unfoldable pub list_tickets_route :
      List String
      → Option Customer
      → TicketQuery
      → SortColumn
      → Direction
      → ℕ
      → ℕ
      → List TicketRow
      → Result Failure TicketListResponse
  list_tickets_route scopes given query column direction limit offset table =
      scoped scopes read_scope (
        ok (
          list_tickets ilike order_by (record query { owner_id = id_of given }) column direction
            limit offset table))

  -- the route `list_escalations`
  unfoldable pub list_escalations_route :
      List String → ℕ → ℕ → List TicketRow → Result Failure TicketListResponse
  list_escalations_route scopes limit offset table =
      scoped scopes read_scope (ok (list_escalations ilike order_by limit offset table))
