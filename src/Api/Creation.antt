-- ===== src/Api/Creation.antt =====
-- `create_ticket` of app/api/routes/tickets.py.
use ai_customer_support_plat.Tools.Database.{Customer, Order, Uuids}
use ai_customer_support_plat.Services.Tickets.{
  Desk, Failure, TicketMessage, customer, customer_not_found, missing_scopes, open_,
  ticket_conflict,
}
use ai_customer_support_plat.Services.Tickets.Messages.{append_message, new_message}
use ai_customer_support_plat.Services.Tickets.Outcomes.{
  Appended, append_message-Appended, appended, refused,
}
use ai_customer_support_plat.Security.Patterns.{Unicode}
use ai_customer_support_plat.Security.Authorization.{authorization_error, authorize_route}
use ai_customer_support_plat.Api.{Store, resolve_customer_by_email}
use ai_customer_support_plat.Prelude.{
  Bool, List, Option, Result, String, [], arith, fail, false, if◌then◌else◌, nat_beq, none, ok,
  refl, some, true, ℕ, ◌++◌, ◌+◌, ◌>>=◌, ◌∷◌, ◌≡◌,
}

pub record CreateTicketRequest : Type 0 where
  pub customer_email : String
  pub subject : String
  pub description : String
  pub order_id : Option ℕ

abbrev find_order : ℕ → List Order → Option Order
find_order id [] = none
find_order id (o ∷ os) = if nat_beq id o.id then some o else find_order id os

abbrev foreign_order : Failure
foreign_order = ticket_conflict "new" "Order does not belong to this customer"

abbrev own_order_or_fail : ℕ → Option Order → Result Failure (Unit {0})
own_order_or_fail owner none = fail foreign_order
own_order_or_fail owner (some o) = if nat_beq o.customer_id owner then ok tt else fail foreign_order

-- the check of an order
unfoldable pub checked_order : Option ℕ → ℕ → List Order → Result Failure (Unit {0})
checked_order none owner os = ok tt
checked_order (some id) owner os = own_order_or_fail owner (find_order id os)

-- a customer of the portal opens tickets in no other name
abbrev checked_name : Option ℕ → String → ℕ → Result Failure (Unit {0})
checked_name none email owner = ok tt
checked_name (some c) email owner =
    if nat_beq owner c then ok tt else fail (customer_not_found email)

module _ (u : Uuids) (unicode : Unicode) (lower : String → String) where
  abbrev opened_desk : CreateTicketRequest → ℕ → ℕ → ℕ → Desk
  opened_desk q owner now drawn = record {
    ticket = record {
      id = u.random drawn;
      customer_id = owner;
      order_id = q.order_id;
      subject = q.subject;
      description = q.description;
      status = open_;
      intent = none;
      escalated_at = none;
      last_message_at = none;
      assigned_agent = none;
      created_at = now;
    };
    resolution = none;
    messages = [];
    runs = [];
    events = [];
    now = now;
    drawn = drawn + 1;
    escalations = 0;
  }

  abbrev added_desk : ℕ → Store → TicketMessage × Desk → Desk × Store
  added_desk drawn s (m, d) = (d, record s { desks = s.desks ++ (u.random drawn, d) ∷ [] })

  abbrev write_scope : List String
  write_scope = "write" ∷ []

  -- the body of the route, for the customer that the address names
  abbrev created_for :
      Option ℕ → CreateTicketRequest → ℕ → ℕ → Store → Customer → Result Failure (Desk × Store)
  created_for c q now drawn s owner = checked_name c q.customer_email owner.id >>= λ ok_name.
      (checked_order q.order_id owner.id s.orders >>= λ ok_order.
      (append_message u customer q.description none none (opened_desk q owner.id now drawn) >>= λ r.
      ok (added_desk drawn s r)))

  unfoldable pub create_ticket :
      List String → Option ℕ → CreateTicketRequest → ℕ → ℕ → Store → Result Failure (Desk × Store)
  create_ticket scopes c q now drawn s =
      if authorize_route scopes write_scope
      then (resolve_customer_by_email unicode lower q.customer_email s >>= λ owner.
          created_for c q now drawn s owner)
      else fail (missing_scopes (authorization_error "route" write_scope))

-- whom a ticket is opened for, and on which order
pub data Named (owner : ℕ) : Option ℕ → Type 0 where
  console : Named owner none
  portal : (c : ℕ) → owner ≡ c → Named owner (some c)

pub data Ordered (owner : ℕ) (os : List Order) : Option ℕ → Type 0 where
  no_order : Ordered owner os none
  own_order :
      (id : ℕ) (o : Order)
      → find_order id os ≡ some o
      → o.customer_id ≡ owner
      → Ordered owner os (some id)

checked_name-Named :
    (c : Option ℕ) (email : String) (owner : ℕ) → checked_name c email owner ≡ ok tt → Named owner c
checked_name-Named none email owner h = console
checked_name-Named (some c) email owner h = portal c (ground arith)

pub checked_order-Ordered :
    (id : Option ℕ) (owner : ℕ) (os : List Order)
    → checked_order id owner os ≡ ok tt
    → Ordered owner os id
unfolding checked_order
checked_order-Ordered none owner os h = no_order
checked_order-Ordered (some id) owner os h = go (find_order id os) refl h
  where
    go :
        (f : Option Order)
        → find_order id os ≡ f
        → own_order_or_fail owner f ≡ ok tt
        → Ordered owner os (some id)
    go none e k = cc
    go (some o) e k = own_order id o e (ground arith)

-- What `create_ticket` returns.
pub data Created (u : Uuids) (owner_of : Result Failure Customer) (c : Option ℕ)
    (q : CreateTicketRequest) (drawn : ℕ) (s : Store) : Result Failure (Desk × Store) → Type 0 where
  refused_ : (e : Failure) → Created u owner_of c q drawn s (fail e)
  created :
      (owner : Customer) (m : TicketMessage) (d : Desk)
      → owner_of ≡ ok owner
      → Named owner.id c
      → Ordered owner.id s.orders q.order_id
      → d.ticket.customer_id ≡ owner.id
      → d.ticket.order_id ≡ q.order_id
      → d.ticket.status ≡ open_
      → d.messages ≡ m ∷ []
      → m.role ≡ customer
      → m.content ≡ q.description
      → Created u owner_of c q drawn s
          (ok (d, record s { desks = s.desks ++ (u.random drawn, d) ∷ [] }))

module _ (u : Uuids) (unicode : Unicode) (lower : String → String) (scopes : List String)
    (c : Option ℕ) (q : CreateTicketRequest) (now drawn : ℕ) (s : Store) where
  abbrev owner_of : Result Failure Customer
  owner_of = resolve_customer_by_email unicode lower q.customer_email s

  created_for-Created :
      (owner : Customer)
      → owner_of ≡ ok owner
      → Created u owner_of c q drawn s (created_for u unicode lower c q now drawn s owner)
  created_for-Created owner e = named (checked_name c q.customer_email owner.id) refl
    where
      said :
          Named owner.id c
          → Ordered owner.id s.orders q.order_id
          → (r : Result Failure (TicketMessage × Desk))
          → Appended u customer q.description none none
              (opened_desk u unicode lower q owner.id now drawn)
              r
          → Created u owner_of c q drawn s (r >>= λ p. ok (added_desk u unicode lower drawn s p))
      said n o _ (appended t k h) =
          created owner
            (new_message u customer q.description none none
              (opened_desk u unicode lower q owner.id now drawn))
            _ e n o k.owner_kept k.order_kept k.status_kept refl refl refl
      said n o _ (refused x y z) = refused_ _

      ordered :
          Named owner.id c
          → (r : Result Failure (Unit {0})) → checked_order q.order_id owner.id s.orders ≡ r
          → Created u owner_of c q drawn s (
              r >>= λ ok_order.
              (append_message u customer q.description none none
                  (opened_desk u unicode lower q owner.id now drawn)
                >>= λ p. ok (added_desk u unicode lower drawn s p)))
      ordered n (fail x) h = refused_ x
      ordered n (ok tt) h = said n (checked_order-Ordered q.order_id owner.id s.orders h) _ (
          append_message-Appended u customer q.description none none
            (opened_desk u unicode lower q owner.id now drawn))

      named :
          (r : Result Failure (Unit {0}))
          → checked_name c q.customer_email owner.id ≡ r
          → Created u owner_of c q drawn s (
              r >>= λ ok_name.
              (checked_order q.order_id owner.id s.orders >>= λ ok_order.
              (append_message u customer q.description none none
                  (opened_desk u unicode lower q owner.id now drawn)
                >>= λ p. ok (added_desk u unicode lower drawn s p))))
      named (fail x) h = refused_ x
      named (ok tt) h = ordered (checked_name-Named c q.customer_email owner.id h) _ refl

  -- A ticket that is created is the one of the customer whom the address names, and a customer of the
  -- portal opens tickets in no other name; its order is the one that was asked for, if any, and that
  -- customer's; it is open,
  -- and its conversation is the description, as the customer's message. The other conversations,
  -- the customers and the orders stay.
  pub create_ticket-Created :
      Created u owner_of c q drawn s (create_ticket u unicode lower scopes c q now drawn s)
  unfolding create_ticket
  create_ticket-Created = go (authorize_route scopes ("write" ∷ [])) owner_of refl
    where
      go :
          (b : Bool) (r : Result Failure Customer)
          → owner_of ≡ r
          → Created u owner_of c q drawn s (
              if b
              then (r >>= λ owner. created_for u unicode lower c q now drawn s owner)
              else fail (missing_scopes (authorization_error "route" ("write" ∷ []))))
      go false r e = refused_ _
      go true (fail x) e = refused_ x
      go true (ok owner) e = created_for-Created owner e
