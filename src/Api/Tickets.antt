-- ===== src/Api/Tickets.antt =====
-- app/api/routes/tickets.py: the routes of one ticket. The heartbeats and the fan-out itself are left
-- out; what is published stands among the packets. What the tools of a run write to the tables of the
-- shop is not carried over into the rows here: it is in Tools.
use ai_customer_support_plat.Value.{Fields, end, field, null, obj, str}
use ai_customer_support_plat.Tools.Database.{Uuids}
use ai_customer_support_plat.Services.Tickets.{
  Desk, Failure, Ticket, TicketMessage, graph_error, in_progress, is_closed, is_escalated,
  missing_scopes, status_value, ticket_conflict, ticket_not_found, ticket_ownership,
}
use ai_customer_support_plat.Services.Tickets.Messages.{owns_ticket}
use ai_customer_support_plat.Services.Tickets.Persist.{ResolutionResponse, persist_graph_result}
use ai_customer_support_plat.Services.Tickets.Lifecycle.{
  assign_agent, close_ticket, confirm_resolution, set_status,
}
use ai_customer_support_plat.Services.Chat.{GraphRun, Packet, Snapshot, message_packet}
use ai_customer_support_plat.Services.Chat.Runner.{record_stream}
use ai_customer_support_plat.Services.Chat.Customer.{Sent, stream_customer_turn}
use ai_customer_support_plat.Services.Chat.Human.{invoked, stream_human_turn}
use ai_customer_support_plat.Security.Patterns.{Unicode}
use ai_customer_support_plat.Security.Authorization.{authorization_error, authorize_route}
use ai_customer_support_plat.Observability.Trace.{new_recorder}
use ai_customer_support_plat.Api.{Store, find_desk, stored}
use ai_customer_support_plat.Prelude.{
  Bool, List, Option, Result, String, [], fail, false, if◌then◌else◌, none, not, ok, one_of, some,
  true, ℕ, ◌&&◌, ◌==◌, ◌>>=◌, ◌∷◌,
}

-- The requests, with what the graph does for them.
pub data Request : Type 0 where
  get_ticket get_ticket_messages : Request
  resolve_ticket : GraphRun → Request
  stream_ticket_resolution : List String → GraphRun → Request
  post_ticket_message : String → String → Result String Snapshot → GraphRun → Request
  takeover_ticket : String → Request
  reply_to_escalation : GraphRun → Request
  close_ticket_ : Option String → Request
  confirm_ticket : Request

-- What a route answers with: a ticket or its messages, a resolution, or a stream that may break off.
pub data Response : Type 0 where
  shown : Desk → List Packet → Response
  listed : List TicketMessage → Response
  settled_ : ResolutionResponse → Response
  streamed : List Packet → Option Failure → Response

abbrev pub Routed : Type 0
Routed = Result Failure (Response × Store)

abbrev last_content : String → List String → String
last_content description [] = description
last_content description (c ∷ []) = c
last_content description (c ∷ d ∷ cs) = last_content description (d ∷ cs)

-- `_publish_ticket_status`
abbrev status_packet : Ticket → Packet
status_packet t = record {
  event = "ticket_status";
  body = obj (
      field "status" (str (status_value t.status)) (
        field "assigned_agent" (elim t.assigned_agent [ none ↦ null | some agent ↦ str agent ])
          end));
}

-- `_publish_lifecycle`
unfoldable pub lifecycle_packets : Uuids → Ticket → Option TicketMessage → List Packet
lifecycle_packets u t none = status_packet t ∷ []
lifecycle_packets u t (some m) = message_packet u m ∷ status_packet t ∷ []

-- the roles of a customer's turn
abbrev customer_roles : List String
customer_roles = "customer" ∷ "user" ∷ "human" ∷ []

abbrev is_given_customer : Option ℕ → Bool
is_given_customer none = false
is_given_customer (some c) = true

-- whether a message of this role is a customer's turn
unfoldable pub is_customer_turn : Option ℕ → String → Bool
is_customer_turn customer_id role =
    if is_given_customer customer_id && not (role == "human_agent")
    then true
    else one_of role customer_roles

abbrev pub reads : Request → Bool
reads get_ticket = true
reads get_ticket_messages = true
reads _ = false

-- the routes that ask for the customer of the portal
abbrev pub asks_customer : Request → Bool
asks_customer (takeover_ticket agent) = false
asks_customer (reply_to_escalation run) = false
asks_customer _ = true

abbrev pub takes_over : Request → Bool
takes_over (takeover_ticket agent) = true
takes_over _ = false

abbrev pub required : Request → List String
required q = if reads q then "read" ∷ [] else "write" ∷ []

-- the exception of a run that a route does not catch
abbrev uncaught : Fields × Option String → Result Failure Fields
uncaught (result, none) = ok result
uncaught (result, some error) = fail (graph_error error)

module _ (u : Uuids) (unicode : Unicode) (latency_ms : ℕ) where
  -- `_reject_closed_ticket`
  abbrev pub unless_closed : Desk → Result Failure Desk
  unless_closed d =
      if is_closed d.ticket.status
      then fail (ticket_conflict (u.text d.ticket.id) "Ticket is closed")
      else ok d

  abbrev persisted :
      GraphRun → Fields × Option String → Desk → Result Failure (ResolutionResponse × Desk)
  persisted run (result, error) d =
      persist_graph_result u unicode result (record_stream run.stream new_recorder) latency_ms error
        d

  abbrev settled_with : ResolutionResponse × Desk → Response × Desk
  settled_with (r, d) = (settled_ r, d)

  abbrev resolved_by : GraphRun → Desk → Result Failure (Response × Desk)
  resolved_by run d =
      persisted run (invoked run) (set_status in_progress d) >>= λ p. ok (settled_with p)

  abbrev replied_by : GraphRun → Desk → Result Failure (Response × Desk)
  replied_by run d = uncaught (invoked run) >>= λ result.
      (persisted run (result, none) (set_status in_progress d) >>= λ p. ok (settled_with p))

  -- a stream that breaks off leaves the rows as they were
  abbrev sent : Desk → Sent → Response × Desk
  sent d (ps, ok d') = (streamed ps none, d')
  sent d (ps, fail e) = (streamed ps (some e), d)

  abbrev closed_with : TicketMessage × Desk → Response × Desk
  closed_with (m, d) = (shown d (lifecycle_packets u d.ticket (some m)), d)

  abbrev confirmed_with : Option TicketMessage × Desk → Response × Desk
  confirmed_with (m, d) = (shown d (lifecycle_packets u d.ticket m), d)

  abbrev taken_by : String → Desk → Response × Desk
  taken_by agent d =
      let d' = assign_agent agent d in (shown d' (lifecycle_packets u d'.ticket none), d')

  abbrev posted : Bool → String → Result String Snapshot → GraphRun → Desk → Sent
  posted true content before run d = stream_customer_turn u unicode content run latency_ms d
  posted false content before run d =
      stream_human_turn u unicode content "console" before run latency_ms d

  -- The body of a route, on the conversation of its ticket.
  unfoldable pub route_body : Option ℕ → Request → Desk → Result Failure (Response × Desk)
  route_body c get_ticket d = ok (shown d [], d)
  route_body c get_ticket_messages d = ok (listed d.messages, d)
  route_body c (resolve_ticket run) d = unless_closed d >>= λ e. resolved_by run e
  route_body c (stream_ticket_resolution contents run) d = unless_closed d >>= λ e. ok (
      sent e (
        stream_customer_turn u unicode (last_content e.ticket.description contents) run latency_ms
          e))
  route_body c (post_ticket_message role content before run) d =
      unless_closed d >>= λ e. ok (sent e (posted (is_customer_turn c role) content before run e))
  route_body c (takeover_ticket agent) d = ok (taken_by agent d)
  route_body c (reply_to_escalation run) d =
      if is_escalated d.ticket.status
      then replied_by run d
      else fail (ticket_conflict (u.text d.ticket.id) "Ticket is not awaiting human reply")
  route_body c (close_ticket_ reason) d = close_ticket u reason d >>= λ p. ok (closed_with p)
  route_body c confirm_ticket d = confirm_resolution u d >>= λ p. ok (confirmed_with p)

  -- the customer that the owner check of a route reads
  abbrev pub checked_customer : Request → Option ℕ → Option ℕ
  checked_customer q c = if asks_customer q then c else none

  -- `get_ticket_or_404` and `assert_ticket_owner`
  unfoldable pub owned_ticket : Option ℕ → ℕ → Store → Result Failure Desk
  owned_ticket c id s = elim (find_desk id s.desks) [
    | none ↦ fail (ticket_not_found (u.text id))
    | some d ↦ if owns_ticket d.ticket c then ok d else fail (ticket_ownership (u.text id))
  ]

  abbrev pub committed : ℕ → Store → Response × Desk → Response × Store
  committed id s (x, d) = (x, stored id d s)

  -- A route: its scopes, its ticket and owner, and its body.
  unfoldable pub handle : List String → Option ℕ → ℕ → Request → Store → Routed
  handle scopes c id q s =
      if authorize_route scopes (required q)
      then (owned_ticket (checked_customer q c) id s >>= λ d.
          (route_body c q d >>= λ p. ok (committed id s p)))
      else fail (missing_scopes (authorization_error "route" (required q)))
