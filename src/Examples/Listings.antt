-- ===== src/Examples/Listings.antt =====
-- Runs of the lists of tickets.
use ai_customer_support_plat.Tools.Database.{AccountStatus, Customer}
use ai_customer_support_plat.Services.Tickets.Listing.{
  Direction, SortColumn, TicketQuery, TicketRow, desc, list_tickets, ticket_filters,
}
use ai_customer_support_plat.Services.Tickets.Listing.Pages.{list_tickets-own}
use ai_customer_support_plat.Examples.Desks.{desk}
use ai_customer_support_plat.Prelude.{
  Bool, List, String, [], false, length, none, refl, some, ℕ, ◌==◌, ◌∷◌, ◌≡◌, ◌≤◌,
}
use ai_customer_support_plat.Tools.Rows.{AllPass}
use ai_customer_support_plat.Tools.Lookups.{rows}

abbrev owner : Customer
owner = record {
  id = 7;
  public_id = "CUS-0007";
  name = "Ana";
  email = "ana@example.com";
  phone = "11";
  customer_tier = "standard";
  account_status = AccountStatus.active;
}

abbrev row : ℕ → TicketRow
row id = record { ticket = record desk.ticket { id = id }; owner = owner; resolution = none }

-- two tickets of the customer between which stands one of another
abbrev table : List TicketRow
table = row 1 ∷ record (row 2) { ticket = record desk.ticket { customer_id = 8 } } ∷ row 3 ∷ []

abbrev own_query : TicketQuery
own_query = record {
  status = none;
  intent = none;
  escalated = some false;
  q = none;
  customer_email = none;
  owner_id = some 7;
}

-- a database that finds equal texts, and leaves the rows as they are
abbrev ilike : String → String → Bool
ilike text pattern_ = text == pattern_

abbrev order_by : SortColumn → Direction → ℕ → ℕ → List TicketRow → List TicketRow
order_by column direction limit offset rs = rs

list_tickets-own_example :
    let response = list_tickets ilike order_by own_query SortColumn.created_at desc 1 1 table in
    AllPass (λ i. i.customer_id ≡ 7) response.items
    × ((length response.items ≤ 1)
        × (response.total ≡ length (rows (ticket_filters ilike order_by own_query) table)))
list_tickets-own_example =
    list_tickets-own ilike order_by own_query SortColumn.created_at desc table
      (λ c d limit offset rs test. refl) 7 1 1 refl
