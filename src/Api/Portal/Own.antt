-- ===== src/Api/Portal/Own.antt =====
-- What the portal shows to a customer, and opens for one.
use mathlib.Core.Path.{subst}
use ai_customer_support_plat.Tools.Database.{Customer, Order, Payment, Uuids}
use ai_customer_support_plat.Tools.Lookups.{rows}
use ai_customer_support_plat.Services.OrderSummary.{Labels, OrderSummary, order_to_api_summary}
use ai_customer_support_plat.Services.Tickets.{Desk, Failure, missing_scopes, ticket_ownership}
use ai_customer_support_plat.Services.Tickets.Listing.{TicketRow, ticket_to_summary}
use ai_customer_support_plat.Services.Tickets.Messages.{owns_ticket}
use ai_customer_support_plat.Security.Patterns.{Unicode}
use ai_customer_support_plat.Security.Authorization.{authorization_error, authorize_route}
use ai_customer_support_plat.Api.{Store, find_desk}
use ai_customer_support_plat.Api.Creation.{Ordered, checked_order, checked_order-Ordered}
use ai_customer_support_plat.Api.Tickets.{owned_ticket}
use ai_customer_support_plat.Api.Portal.{
  CustomerProfileResponse, create_conversation, is_ordered_by, is_owned_by, new_conversation,
  portal_me, profile, read_scope, scoped, ticket_rows, write_scope,
}
use ai_customer_support_plat.Prelude.{
  Bool, Bool-cases, List, Option, Result, String, [], ap, arith, fail, false, inl, inr, length, map,
  nat_beq, nat_beq_refl, none, ok, refl, some, sym, true, ℕ, ◌&&◌, ◌++◌, ◌>>=◌, ◌∙◌, ◌∷◌, ◌≡◌, ◌≢◌,
  ◌≤◌,
}
use ai_customer_support_plat.Tools.Rows.{
  AllPass, AllPass-map, AllPass-take, AllPass-weaken, count, count-rows, length-map, length-take,
  sorted-passes, take,
}

-- The summaries of exactly the orders that the table has of the customer, each as often as it is there.
pub record OwnOrders (labels : Labels) (payments_of : ℕ → List Payment) (c : ℕ) (table : List Order)
    (shown : List OrderSummary) : Type 0 where
  pub orders : List Order
  pub exactly :
      (test : Order → Bool)
      → count test orders ≡ count (λ o. nat_beq o.customer_id c && test o) table
  pub summaries : shown ≡ map (λ o. order_to_api_summary labels o (payments_of o.id)) orders

scoped-ok :
    {A : Type 0} (scopes asked : List String) (body : Result Failure A) (a : A)
    → scoped scopes asked body ≡ ok a
    → body ≡ ok a
scoped-ok scopes asked body a h = elim (Bool-cases (authorize_route scopes asked)) [
  | inl e ↦ rw e at h
  | inr e ↦ absurd (fail_not_ok (rw e at h))
]
  where
    fail_not_ok : fail (missing_scopes (authorization_error "route" asked)) ≡ ok a → ⊥
    fail_not_ok k = cc

abbrev SameResult : {A : Type 0} → Result Failure A → Result Failure A → Type 0
SameResult a b = a ≡ b

ok-injective : {A : Type 0} (a b : A) → SameResult (ok a) (ok b) → a ≡ b
ok-injective a b h = cc

same_number : (a b : ℕ) → nat_beq a b ≡ true → a ≡ b
same_number a b h = ground arith

module _ (labels : Labels) (payments_of : ℕ → List Payment) (owner_of : ℕ → Customer)
    (newest_first : List Order → List Order) (latest_first : List TicketRow → List TicketRow)
    (same_orders : (rs : List Order) (test : Order → Bool)
      → count test (newest_first rs) ≡ count test rs)
    (same_tickets : (rs : List TicketRow) (test : TicketRow → Bool)
      → count test (latest_first rs) ≡ count test rs) where
  own_orders :
      (s : Store) (c : Customer)
      → OwnOrders labels payments_of c.id s.orders
          (profile labels payments_of owner_of newest_first latest_first s c).orders
  unfolding profile
  own_orders s c = record {
    orders = newest_first (rows (is_ordered_by c.id) s.orders);
    exactly = λ test.
        same_orders (rows (is_ordered_by c.id) s.orders) test
        ∙ count-rows (is_ordered_by c.id) test s.orders;
    summaries = refl;
  }

  own_conversations :
      (s : Store) (c : Customer)
      → AllPass
          (λ t. t.customer_id ≡ c.id)
          (profile labels payments_of owner_of newest_first latest_first s c).conversations
  unfolding profile ticket_to_summary
  own_conversations s c =
      let found : List TicketRow =
        latest_first (rows (is_owned_by c.id) (ticket_rows owner_of s.desks)) in
      AllPass-map (λ t. t.customer_id ≡ c.id) ticket_to_summary (take 20 found)
        (AllPass-take (λ r. (ticket_to_summary r).customer_id ≡ c.id) 20 found
          (AllPass-weaken (λ r. is_owned_by c.id r ≡ true)
            (λ r. (ticket_to_summary r).customer_id ≡ c.id) found
            (λ r h. same_number r.ticket.customer_id c.id h)
            (sorted-passes latest_first same_tickets (is_owned_by c.id)
              (ticket_rows owner_of s.desks))))

  few_conversations :
      (s : Store) (c : Customer)
      → length (profile labels payments_of owner_of newest_first latest_first s c).conversations
        ≤ 20
  unfolding profile
  few_conversations s c =
      let found : List TicketRow =
        latest_first (rows (is_owned_by c.id) (ticket_rows owner_of s.desks)) in
      omega (arith, length-map ticket_to_summary (take 20 found), length-take 20 found)

  -- Given that ORDER BY returns the rows that it is given, in whatever order: the profile that the
  -- portal shows to a customer has the summaries of exactly the orders that the table has of this
  -- customer, and at most twenty conversations, all of them this customer's.
  pub portal_me-own :
      (scopes : List String) (c : Customer) (s : Store) (p : CustomerProfileResponse)
      → portal_me labels payments_of owner_of newest_first latest_first scopes c s ≡ ok p
      → OwnOrders labels payments_of c.id s.orders p.orders
        × (AllPass (λ t. t.customer_id ≡ c.id) p.conversations × (length p.conversations ≤ 20))
  unfolding portal_me
  portal_me-own scopes c s p h =
      subst
        (λ (r : CustomerProfileResponse).
          OwnOrders labels payments_of c.id s.orders r.orders
          × (AllPass (λ t. t.customer_id ≡ c.id) r.conversations × (length r.conversations ≤ 20)))
        (ok-injective _ p (scoped-ok scopes read_scope _ p h))
        (own_orders s c, (own_conversations s c, few_conversations s c))

find_desk-append :
    (id : ℕ) (d : Desk) (ds : List (ℕ × Desk))
    → find_desk id ds ≡ none
    → find_desk id (ds ++ (id, d) ∷ []) ≡ some d
find_desk-append id d [] h = rw (nat_beq_refl id) refl
find_desk-append id d ((k, e) ∷ ds) h = elim (Bool-cases (nat_beq id k)) [
  | inl x ↦ absurd (some_not_none (rw x at h))
  | inr x ↦ rw x (find_desk-append id d ds (rw x at h))
]
  where
    some_not_none : some e ≡ none → ⊥
    some_not_none j = cc

module _ (u : Uuids) (unicode : Unicode) (latency_ms : ℕ) where
  found_for :
      (viewer : Option ℕ) (id : ℕ) (d : Desk) (s : Store)
      → find_desk id s.desks ≡ some d
      → owns_ticket d.ticket viewer ≡ true
      → owned_ticket u unicode latency_ms viewer id s ≡ ok d
  unfolding owned_ticket
  found_for viewer id d s e h = rw (owned_ticket, e, h) refl

  hidden_from :
      (viewer : Option ℕ) (id : ℕ) (d : Desk) (s : Store)
      → find_desk id s.desks ≡ some d
      → owns_ticket d.ticket viewer ≡ false
      → owned_ticket u unicode latency_ms viewer id s ≡ fail (ticket_ownership (u.text id))
  unfolding owned_ticket
  hidden_from viewer id d s e h = rw (owned_ticket, e, h) refl

  other_number : (a b : ℕ) → a ≢ b → nat_beq b a ≡ false
  other_number a b n = elim (Bool-cases (nat_beq b a)) [
    | inl e ↦ absurd (n (sym (same_number b a e)))
    | inr e ↦ e
  ]

  -- what `create_conversation` has added
  record Opened (c : Customer) (order_id : Option ℕ) (id : ℕ) (s s' : Store) (d : Desk)
      : Type 0 where
    pub stored_last : s'.desks ≡ s.desks ++ (id, d) ∷ []
    pub for_owner : d.ticket.customer_id ≡ c.id
    pub for_order : d.ticket.order_id ≡ order_id
    pub ordered : Ordered c.id s.orders order_id

  opened :
      (scopes : List String) (c : Customer) (order_id : Option ℕ) (now drawn : ℕ) (s s' : Store)
      (d : Desk)
      → create_conversation u scopes c order_id now drawn s ≡ ok (d, s')
      → Opened c order_id (u.random drawn) s s' d
  unfolding create_conversation
  opened scopes c order_id now drawn s s' d h =
      go (checked_order order_id c.id s.orders) refl (scoped-ok scopes write_scope _ (d, s') h)
    where
      new : Desk
      new = new_conversation u c.id order_id now drawn

      new_store : Store
      new_store = record s { desks = s.desks ++ (u.random drawn, new) ∷ [] }

      outcome : Result Failure (Unit {0}) → Result Failure (Desk × Store)
      outcome r = r >>= λ ok_order. ok (new, new_store)

      fail_not_ok : (e : Failure) → SameResult {A = Desk × Store} (fail e) (ok (d, s')) → ⊥
      fail_not_ok e j = cc

      go :
          (r : Result Failure (Unit {0}))
          → checked_order order_id c.id s.orders ≡ r
          → outcome r ≡ ok (d, s')
          → Opened c order_id (u.random drawn) s s' d
      go (fail e) k j = absurd (fail_not_ok e j)
      go (ok done) k j =
          subst (λ (p : Desk × Store). Opened c order_id (u.random drawn) s p.1 p.0)
            (ok-injective (new, new_store) (d, s') j)
            (record {
              stored_last = refl;
              for_owner = refl;
              for_order = refl;
              ordered = checked_order-Ordered order_id c.id s.orders k;
            })

  -- Given that the id that is drawn is new: a conversation that a customer of the portal opens is found
  -- under its id, by this customer and by the console, and for every other customer of the portal the
  -- lookup fails with the ownership error; it is about the order that was asked for, which, if there is
  -- one, is this customer's.
  pub create_conversation-found :
      (scopes : List String) (c : Customer) (order_id : Option ℕ) (now drawn : ℕ) (s s' : Store)
      (d : Desk)
      → find_desk (u.random drawn) s.desks ≡ none
      → create_conversation u scopes c order_id now drawn s ≡ ok (d, s')
      → (owned_ticket u unicode latency_ms (some c.id) (u.random drawn) s' ≡ ok d)
        × ((owned_ticket u unicode latency_ms none (u.random drawn) s' ≡ ok d)
            × (((other : ℕ)
                  → other ≢ c.id
                  → owned_ticket u unicode latency_ms (some other) (u.random drawn) s'
                    ≡ fail (ticket_ownership (u.text (u.random drawn))))
                × ((d.ticket.order_id ≡ order_id) × Ordered c.id s.orders order_id)))
  unfolding owns_ticket
  create_conversation-found scopes c order_id now drawn s s' d new h =
      let o = opened scopes c order_id now drawn s s' d h in
      let at_id : find_desk (u.random drawn) s'.desks ≡ some d =
        ap (find_desk (u.random drawn)) o.stored_last
        ∙ find_desk-append (u.random drawn) d s.desks new in
      (
        found_for (some c.id) (u.random drawn) d s' at_id (rw o.for_owner (nat_beq_refl c.id)),
        (
          found_for none (u.random drawn) d s' at_id refl,
          (
            λ other n.
                hidden_from (some other) (u.random drawn) d s' at_id
                  (rw o.for_owner (other_number other c.id n)),
            (o.for_order, o.ordered),
          ),
        ),
      )
