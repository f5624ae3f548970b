-- ===== src/Services/Tickets.antt =====
-- app/services/ticket_service.py: one conversation with its rows, and what the service does to it.
-- The session writes at the end of a request and rolls back when the request raises, so that a
-- failure carries no state. Messages stand in the order in which they were created.
pub mod Messages
pub mod Persist
pub mod Lifecycle
pub mod Validity
pub mod History
pub mod Endings
pub mod Listing
pub mod Outcomes
pub mod Answers
pub mod Turns
pub mod Runs
use ai_customer_support_plat.Value.{Fields, Value}
use ai_customer_support_plat.Observability.Trace.{BufferedEvent}
use ai_customer_support_plat.Prelude.{Bool, List, Option, String, false, true, ℕ}

pub data TicketStatus : Type 0 where
  open_ in_progress resolved escalated closed : TicketStatus

pub data TicketIntent : Type 0 where
  billing logistics account unknown : TicketIntent

pub data TicketMessageRole : Type 0 where
  customer assistant human_agent system : TicketMessageRole

pub data AgentRunStatus : Type 0 where
  completed failed awaiting_human : AgentRunStatus

abbrev pub status_value : TicketStatus → String
status_value open_ = "open"
status_value in_progress = "in_progress"
status_value resolved = "resolved"
status_value escalated = "escalated"
status_value closed = "closed"

abbrev pub role_value : TicketMessageRole → String
role_value customer = "customer"
role_value assistant = "assistant"
role_value human_agent = "human_agent"
role_value system = "system"

pub record Ticket : Type 0 where
  pub id : ℕ
  pub customer_id : ℕ
  pub order_id : Option ℕ
  pub subject : String
  pub description : String
  pub status : TicketStatus
  pub intent : Option TicketIntent
  pub escalated_at : Option ℕ
  pub last_message_at : Option ℕ
  pub assigned_agent : Option String
  pub created_at : ℕ

pub record TicketMessage : Type 0 where
  pub id : ℕ
  pub ticket_id : ℕ
  pub role : TicketMessageRole
  pub content : String
  pub agent_run_id : Option ℕ
  pub extra : Option Fields
  pub created_at : ℕ

pub record Resolution : Type 0 where
  pub ticket_id : ℕ
  pub answer : String
  pub escalated : Bool
  pub confidence : Value

pub record AgentRun : Type 0 where
  pub id : ℕ
  pub ticket_id : ℕ
  pub status : AgentRunStatus
  pub intent : String
  pub confidence : Value
  pub escalated : Bool
  pub total_latency_ms : ℕ
  pub error : Option String

pub record AgentEvent : Type 0 where
  pub run_id : ℕ
  pub event : BufferedEvent

-- The rows of one conversation, the clock, the number of ids drawn, and the counter of escalations.
pub record Desk : Type 0 where
  pub ticket : Ticket
  pub resolution : Option Resolution
  pub messages : List TicketMessage
  pub runs : List AgentRun
  pub events : List AgentEvent
  pub now : ℕ
  pub drawn : ℕ
  pub escalations : ℕ

-- What a request raises: the errors of app/api/exceptions.py, a missing scope, the `IndexError` of a
-- list, several rows where one was asked for, and what the graph raised.
pub data Failure : Type 0 where
  ticket_not_found : String → Failure
  ticket_conflict : String → String → Failure
  ticket_ownership : String → Failure
  index_error : Failure
  customer_not_found : String → Failure
  missing_scopes : String → Failure
  multiple_results : Failure
  graph_error : String → Failure
  run_not_found : String → Failure

abbrev pub is_closed : TicketStatus → Bool
is_closed closed = true
is_closed _ = false

abbrev pub is_escalated : TicketStatus → Bool
is_escalated escalated = true
is_escalated _ = false

abbrev pub is_resolved : TicketStatus → Bool
is_resolved resolved = true
is_resolved _ = false
