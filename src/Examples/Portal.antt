-- ===== src/Examples/Portal.antt =====
-- Runs of the portal.
use ai_customer_support_plat.Tools.Database.{AccountStatus, Customer, Payment}
use ai_customer_support_plat.Tools.Rows.{AllPass}
use ai_customer_support_plat.Services.Tickets.{Desk, ticket_ownership}
use ai_customer_support_plat.Security.Authorization.{authorize_route}
use ai_customer_support_plat.Api.{Store}
use ai_customer_support_plat.Api.Creation.{Ordered, checked_order}
use ai_customer_support_plat.Api.Tickets.{owned_ticket}
use ai_customer_support_plat.Api.Portal.{
  CustomerProfileResponse, create_conversation, new_conversation, portal_me, profile,
}
use ai_customer_support_plat.Examples.Data.{tables, uuids}
use ai_customer_support_plat.Examples.Guards.{unicode}
use ai_customer_support_plat.Examples.Requests.{store, writer}
use ai_customer_support_plat.Prelude.{
  List, [], fail, length, none, ok, refl, some, ℕ, ◌++◌, ◌∷◌, ◌≡◌, ◌≢◌, ◌≤◌,
}
use ai_customer_support_plat.Api.Portal.Own.{OwnOrders, create_conversation-found, portal_me-own}

abbrev ana : Customer
ana = record {
  id = 7;
  public_id = "CUS-0007";
  name = "Ana";
  email = "ana@example.com";
  phone = "11";
  customer_tier = "standard";
  account_status = AccountStatus.active;
}

abbrev payments_of : ℕ → List Payment
payments_of id = tables.payments

abbrev ana_profile : CustomerProfileResponse
ana_profile = profile [] payments_of (λ id. ana) (λ os. os) (λ rs. rs) store ana

shown_to_ana :
    portal_me [] payments_of (λ id. ana) (λ os. os) (λ rs. rs) writer ana store ≡ ok ana_profile
unfolding portal_me authorize_route
shown_to_ana = refl

portal_me-own_example :
    OwnOrders [] payments_of 7 store.orders ana_profile.orders
    × (AllPass (λ t. t.customer_id ≡ 7) ana_profile.conversations
        × (length ana_profile.conversations ≤ 20))
portal_me-own_example =
    portal_me-own [] payments_of (λ id. ana) (λ os. os) (λ rs. rs) (λ rs test. refl)
      (λ rs test. refl) writer ana store ana_profile shown_to_ana

-- a conversation about her order
abbrev new_desk : Desk
new_desk = new_conversation uuids 7 (some 1) 10 0

abbrev new_store : Store
new_store = record store { desks = store.desks ++ (40, new_desk) ∷ [] }

opened_for_ana : create_conversation uuids writer ana (some 1) 10 0 store ≡ ok (new_desk, new_store)
unfolding create_conversation authorize_route checked_order
opened_for_ana = refl

create_conversation-found_example :
    (owned_ticket uuids unicode 5 (some 7) 40 new_store ≡ ok new_desk)
    × ((owned_ticket uuids unicode 5 none 40 new_store ≡ ok new_desk)
        × (((other : ℕ)
              → other ≢ 7
              → owned_ticket uuids unicode 5 (some other) 40 new_store
                ≡ fail (ticket_ownership (uuids.text 40)))
            × ((new_desk.ticket.order_id ≡ some 1) × Ordered 7 store.orders (some 1))))
create_conversation-found_example =
    create_conversation-found uuids unicode 5 writer ana (some 1) 10 0 store new_store new_desk refl
      opened_for_ana
