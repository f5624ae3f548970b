-- ===== src/Examples/Requests.antt =====
-- Runs of the ticket routes.
use ai_customer_support_plat.Services.Tickets.{Desk, Failure, closed, ticket_conflict}
use ai_customer_support_plat.Services.Tickets.Messages.{owns_ticket}
use ai_customer_support_plat.Security.Authorization.{authorize_route}
use ai_customer_support_plat.Api.{Store, http_error, resolve_customer_by_email}
use ai_customer_support_plat.Api.Tickets.{Request, handle, owned_ticket, post_ticket_message}
use ai_customer_support_plat.Api.Access.{
  Served, foreign, handle-Hidden, handle-Served, handle-closed,
}
use ai_customer_support_plat.Api.Creation.{
  CreateTicketRequest, Created, create_ticket, create_ticket-Created,
}
use ai_customer_support_plat.Examples.Data.{tables, uuids}
use ai_customer_support_plat.Examples.Guards.{unicode}
use ai_customer_support_plat.Examples.Desks.{desk}
use ai_customer_support_plat.Examples.Chats.{failing_run}
use ai_customer_support_plat.Prelude.{List, String, [], fail, none, refl, some, ◌⁀◌, ◌∷◌, ◌≡◌}

abbrev pub store : Store
store = record {
  desks =
      (1, desk)
      ∷ (
        2,
        record desk { ticket = record desk.ticket { id = 2; customer_id = 8; status = closed } },
      )
      ∷ [];
  customers = tables.customers;
  orders = tables.orders;
}

abbrev archived_desk : Desk
archived_desk = record desk {
  ticket = record desk.ticket { id = 2; customer_id = 8; status = closed };
}

abbrev pub writer : List String
writer = "read" ∷ "write" ∷ []

abbrev post : Request
post = post_ticket_message "customer" "where is it" (fail "no checkpoint") failing_run

handle-Served_example : Served 7 1 post store (handle uuids unicode 5 writer (some 7) 1 post store)
handle-Served_example = handle-Served uuids unicode 5 writer 7 1 post store refl

handle-Hidden_example :
    (e : Failure) × ((handle uuids unicode 5 writer (some 7) 2 post store ≡ fail e)
      × (http_error e ≡ (404, "Ticket not found: " ⁀ uuids.text 2)))
unfolding authorize_route owns_ticket
handle-Hidden_example =
    handle-Hidden uuids unicode 5 writer (some 7) 2 post store refl refl
      (foreign archived_desk refl refl)

handle-closed_example :
    (message : String) × (handle uuids unicode 5 writer none 2 post store
      ≡ fail (ticket_conflict (uuids.text 2) message))
unfolding authorize_route owned_ticket owns_ticket
handle-closed_example =
    handle-closed uuids unicode 5 writer none 2 post store archived_desk refl refl refl refl refl

-- a ticket of the customer of the delivered order
abbrev opening : CreateTicketRequest
opening = record {
  customer_email = " ana@example.com";
  subject = "late parcel";
  description = "where is my order";
  order_id = some 1;
}

create_ticket-Created_example :
    Created uuids
      (resolve_customer_by_email unicode (λ t. t) opening.customer_email store)
      (some 7)
      opening
      3
      store
      (create_ticket uuids unicode (λ t. t) writer (some 7) opening 10 3 store)
create_ticket-Created_example =
    create_ticket-Created uuids unicode (λ t. t) writer (some 7) opening 10 3 store
