-- ===== src/Api/Access.antt =====
-- Who reaches a ticket, and what a request leaves alone.
use ai_customer_support_plat.Services.Tickets.{
  Desk, Failure, Ticket, closed, missing_scopes, ticket_conflict, ticket_not_found,
  ticket_ownership,
}
use ai_customer_support_plat.Services.Tickets.Messages.{owns_ticket}
use ai_customer_support_plat.Services.Tickets.Lifecycle.{close_ticket, confirm_resolution}
use ai_customer_support_plat.Security.Patterns.{Unicode}
use ai_customer_support_plat.Security.Authorization.{authorization_error, authorize_route}
use ai_customer_support_plat.Api.{Store, find_desk, http_error, put_desk, stored}
use ai_customer_support_plat.Api.Tickets.{
  Request, Response, Routed, asks_customer, checked_customer, close_ticket_, committed,
  confirm_ticket, get_ticket, get_ticket_messages, handle, owned_ticket, post_ticket_message, reads,
  reply_to_escalation, required, resolve_ticket, route_body, stream_ticket_resolution,
  takeover_ticket, takes_over,
}
use ai_customer_support_plat.Prelude.{
  Bool, List, Option, Result, String, [], arith, fail, false, if◌then◌else◌, nat_beq, none, ok,
  refl, some, true, true_not_false, ℕ, ◌>>=◌, ◌⁀◌, ◌∷◌, ◌≡◌,
}
use ai_customer_support_plat.Tools.Database.{Uuids}

find_desk-put_desk :
    (other id : ℕ) (d : Desk) (ds : List (ℕ × Desk))
    → nat_beq other id ≡ false
    → find_desk other (put_desk id d ds) ≡ find_desk other ds
find_desk-put_desk other id d [] e = refl
find_desk-put_desk other id d ((k, f) ∷ ds) e =
    let h = find_desk-put_desk other id d ds e in ground arith

-- the requests for which the graph may run, whose tools write to the tables of the shop
abbrev pub runs_graph : Request → Bool
runs_graph (resolve_ticket run) = true
runs_graph (stream_ticket_resolution contents run) = true
runs_graph (post_ticket_message role content before run) = true
runs_graph (reply_to_escalation run) = true
runs_graph _ = false

-- A request of a customer of the portal fails, or is about a ticket of that customer and leaves all
-- other conversations as they are.
pub data Served (c id : ℕ) (q : Request) (s : Store) : Routed → Type 0 where
  refused_ : (e : Failure) → Served c id q s (fail e)
  done :
      (x : Response) (s' : Store) (d : Desk)
      → find_desk id s.desks ≡ some d
      → d.ticket.customer_id ≡ c
      → ((other : ℕ)
          → nat_beq other id ≡ false
          → find_desk other s'.desks ≡ find_desk other s.desks)
      → (runs_graph q ≡ false → (s'.customers ≡ s.customers) × (s'.orders ≡ s.orders))
      → Served c id q s (ok (x, s'))

owned : (t : Ticket) (c : ℕ) → owns_ticket t (some c) ≡ true → t.customer_id ≡ c
unfolding owns_ticket
owned t c e = ground arith

-- Why a customer does not see a ticket: there is none, or it is another customer's.
pub data Hidden (c : Option ℕ) (id : ℕ) (s : Store) : Type 0 where
  missing : find_desk id s.desks ≡ none → Hidden c id s
  foreign :
      (d : Desk) → find_desk id s.desks ≡ some d → owns_ticket d.ticket c ≡ false → Hidden c id s

module _ (u : Uuids) (unicode : Unicode) (latency_ms : ℕ) (scopes : List String) where
  -- A request that asks for the customer, sent by a customer of the portal, fails, or is about a
  -- ticket of that customer; it changes no other conversation. If it is none for which the graph may
  -- run, it changes no customer and no order either.
  pub handle-Served :
      (c id : ℕ) (q : Request) (s : Store)
      → asks_customer q ≡ true
      → Served c id q s (handle u unicode latency_ms scopes (some c) id q s)
  unfolding handle owned_ticket
  handle-Served c id q s asks =
      rw asks (go (authorize_route scopes (required q)) (find_desk id s.desks) refl)
    where
      body :
          (d : Desk)
          → find_desk id s.desks ≡ some d
          → d.ticket.customer_id ≡ c
          → (r : Result Failure (Response × Desk))
          → Served c id q s (r >>= λ p. ok (committed u unicode latency_ms id s p))
      body d e h (fail x) = refused_ x
      body d e h (ok (x, d')) =
          done x (stored id d' s) d e h (λ other k. find_desk-put_desk other id d' s.desks k)
            (λ k. (refl, refl))

      owner :
          (d : Desk)
          → find_desk id s.desks ≡ some d
          → (b : Bool) → owns_ticket d.ticket (some c) ≡ b
          → Served c id q s (
              (if b then ok d else fail (ticket_ownership (u.text id))) >>= λ f.
              (route_body u unicode latency_ms (some c) q f >>= λ p.
              ok (committed u unicode latency_ms id s p)))
      owner d e true h =
          body d e (owned d.ticket c h) (route_body u unicode latency_ms (some c) q d)
      owner d e false h = refused_ _

      go :
          (b : Bool) (f : Option Desk)
          → find_desk id s.desks ≡ f
          → Served c id q s (
              if b
              then ((elim f [
                | none ↦ fail (ticket_not_found (u.text id))
                | some d ↦
                    if owns_ticket d.ticket (some c)
                    then ok d
                    else fail (ticket_ownership (u.text id))
              ])
                  >>= λ d.
                      (route_body u unicode latency_ms (some c) q d >>= λ p.
                      ok (committed u unicode latency_ms id s p)))
              else fail (missing_scopes (authorization_error "route" (required q))))
      go false f e = refused_ _
      go true none e = refused_ _
      go true (some d) e = owner d e (owns_ticket d.ticket (some c)) refl

  missing_ticket :
      (c : Option ℕ) (id : ℕ) (s : Store)
      → find_desk id s.desks ≡ none
      → owned_ticket u unicode latency_ms c id s ≡ fail (ticket_not_found (u.text id))
  unfolding owned_ticket
  missing_ticket c id s x = rw (owned_ticket, x) refl

  foreign_ticket :
      (c : Option ℕ) (id : ℕ) (s : Store) (d : Desk)
      → find_desk id s.desks ≡ some d
      → owns_ticket d.ticket c ≡ false
      → owned_ticket u unicode latency_ms c id s ≡ fail (ticket_ownership (u.text id))
  unfolding owned_ticket
  foreign_ticket c id s d x n = rw (owned_ticket, x, n) refl

  -- A missing ticket and another customer's ticket answer alike: status 404 with the same text.
  pub handle-Hidden :
      (c : Option ℕ) (id : ℕ) (q : Request) (s : Store)
      → asks_customer q ≡ true
      → authorize_route scopes (required q) ≡ true
      → Hidden c id s
      → (e : Failure) × ((handle u unicode latency_ms scopes c id q s ≡ fail e)
          × (http_error e ≡ (404, "Ticket not found: " ⁀ u.text id)))
  unfolding handle http_error
  handle-Hidden c id q s asks may (missing x) =
      (ticket_not_found (u.text id), (rw asks (rw may (rw (missing_ticket c id s x) refl)), refl))
  handle-Hidden c id q s asks may (foreign d x n) = (
    ticket_ownership (u.text id),
    (rw asks (rw may (rw (foreign_ticket c id s d x n) refl)), refl),
  )

  -- what every request but a reading and a takeover does on a closed ticket
  closed_body :
      (c : Option ℕ) (q : Request) (d : Desk)
      → d.ticket.status ≡ closed
      → reads q ≡ false
      → takes_over q ≡ false
      → (message : String) × (route_body u unicode latency_ms c q d
          ≡ fail (ticket_conflict (u.text d.ticket.id) message))
  unfolding route_body close_ticket confirm_resolution
  closed_body c get_ticket d e n t = absurd (true_not_false refl n)
  closed_body c get_ticket_messages d e n t = absurd (true_not_false refl n)
  closed_body c (resolve_ticket run) d e n t = ("Ticket is closed", rw e refl)
  closed_body c (stream_ticket_resolution contents run) d e n t = ("Ticket is closed", rw e refl)
  closed_body c (post_ticket_message role content before run) d e n t =
      ("Ticket is closed", rw e refl)
  closed_body c (takeover_ticket agent) d e n t = absurd (true_not_false refl t)
  closed_body c (reply_to_escalation run) d e n t =
      ("Ticket is not awaiting human reply", rw e refl)
  closed_body c (close_ticket_ reason) d e n t = ("Ticket is already closed", rw e refl)
  closed_body c confirm_ticket d e n t = ("Ticket is already closed", rw e refl)

  -- Whoever asks, with the scopes and the ticket in reach: on a closed ticket every request but a
  -- reading and a takeover fails with a conflict, and so changes nothing.
  pub handle-closed :
      (c : Option ℕ) (id : ℕ) (q : Request) (s : Store) (d : Desk)
      → authorize_route scopes (required q) ≡ true
      → owned_ticket u unicode latency_ms (checked_customer u unicode latency_ms q c) id s ≡ ok d
      → d.ticket.status ≡ closed
      → reads q ≡ false
      → takes_over q ≡ false
      → (message : String) × (handle u unicode latency_ms scopes c id q s
          ≡ fail (ticket_conflict (u.text d.ticket.id) message))
  unfolding handle
  handle-closed c id q s d may x e n t =
      let (message, h) = closed_body c q d e n t in (message, rw may (rw x (rw h refl)))
