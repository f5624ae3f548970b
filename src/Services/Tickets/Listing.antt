-- ===== src/Services/Tickets/Listing.antt =====
-- `list_tickets`, `list_escalations` and `ticket_to_summary`. The database's ILIKE, and its ORDER BY,
-- are given; rows that tie may stand in another order for each limit and offset.
pub mod Pages
use ai_customer_support_plat.Services.Tickets.{
  Resolution, Ticket, TicketIntent, TicketStatus, escalated, is_escalated, status_value,
}
use ai_customer_support_plat.Services.Tickets.Persist.{intent_value}
use ai_customer_support_plat.Tools.Database.{Customer}
use ai_customer_support_plat.Tools.Lookups.{rows}
use ai_customer_support_plat.Prelude.{
  Bool, List, Option, String, false, if◌then◌else◌, length, map, nat_beq, none, nonempty, not, some,
  true, ℕ, ◌&&◌, ◌==◌, ◌||◌, ◌⁀◌,
}
use ai_customer_support_plat.Tools.Rows.{drop, take}

-- A ticket with its customer and its resolution, as a query joins them.
pub record TicketRow : Type 0 where
  pub ticket : Ticket
  pub owner : Customer
  pub resolution : Option Resolution

pub record TicketSummary : Type 0 where
  pub id : ℕ
  pub customer_id : ℕ
  pub customer_email : String
  pub customer_name : String
  pub subject : String
  pub status : TicketStatus
  pub intent : Option TicketIntent
  pub escalated : Bool
  pub escalated_at : Option ℕ
  pub last_message_at : Option ℕ
  pub assigned_agent : Option String
  pub created_at : ℕ

abbrev escalated_by : Option Resolution → Bool
escalated_by none = false
escalated_by (some r) = r.escalated

-- `ticket_to_summary`
unfoldable pub ticket_to_summary : TicketRow → TicketSummary
ticket_to_summary row = record {
  id = row.ticket.id;
  customer_id = row.ticket.customer_id;
  customer_email = row.owner.email;
  customer_name = row.owner.name;
  subject = row.ticket.subject;
  status = row.ticket.status;
  intent = row.ticket.intent;
  escalated = escalated_by row.resolution || is_escalated row.ticket.status;
  escalated_at = row.ticket.escalated_at;
  last_message_at = row.ticket.last_message_at;
  assigned_agent = row.ticket.assigned_agent;
  created_at = row.ticket.created_at;
}

-- The filters of a listing, each of which may be missing.
pub record TicketQuery : Type 0 where
  pub status : Option TicketStatus
  pub intent : Option TicketIntent
  pub escalated : Option Bool
  pub q : Option String
  pub customer_email : Option String
  pub owner_id : Option ℕ

abbrev with_owner : Option ℕ → Ticket → Bool
with_owner none t = true
with_owner (some id) t = nat_beq t.customer_id id

abbrev with_status : Option TicketStatus → Ticket → Bool
with_status none t = true
with_status (some s) t = status_value t.status == status_value s

abbrev is_intent : Option TicketIntent → TicketIntent → Bool
is_intent none i = false
is_intent (some j) i = intent_value j == intent_value i

abbrev with_intent : Option TicketIntent → Ticket → Bool
with_intent none t = true
with_intent (some i) t = is_intent t.intent i

abbrev with_escalated : Option Bool → Ticket → Bool
with_escalated none t = true
with_escalated (some true) t = is_escalated t.status
with_escalated (some false) t = not (is_escalated t.status)

-- a filter that counts if its text is given and not empty
abbrev with_text : Option String → (String → Bool) → Bool
with_text none test = true
with_text (some s) test = if nonempty s then test s else true

pub data SortColumn : Type 0 where
  created_at last_message_at escalated_at : SortColumn

pub data Direction : Type 0 where
  desc asc : Direction

pub record TicketListResponse : Type 0 where
  pub items : List TicketSummary
  pub total : ℕ
  pub limit : ℕ
  pub offset : ℕ

-- .limit(limit).offset(offset)
abbrev pub page : {A : Type 0} → ℕ → ℕ → List A → List A
page limit offset xs = take limit (drop offset xs)

module _ (ilike : String → String → Bool)
    (order_by : SortColumn → Direction → ℕ → ℕ → List TicketRow → List TicketRow) where
  unfoldable pub other_filters : TicketQuery → TicketRow → Bool
  other_filters query row =
      with_status query.status row.ticket
      && with_intent query.intent row.ticket
      && with_escalated query.escalated row.ticket
      && with_text query.customer_email (λ s. ilike row.owner.email s)
      && with_text query.q (λ s.
        ilike row.ticket.subject ("%" ⁀ s ⁀ "%")
        || ilike row.ticket.description ("%" ⁀ s ⁀ "%")
        || ilike row.owner.email ("%" ⁀ s ⁀ "%")
        || ilike row.owner.name ("%" ⁀ s ⁀ "%"))

  -- `_ticket_filters`, on a row
  unfoldable pub ticket_filters : TicketQuery → TicketRow → Bool
  ticket_filters query row = with_owner query.owner_id row.ticket && other_filters query row

  -- a page of the rows that pass, in the order of the listing
  unfoldable pub listed :
      (TicketRow → Bool) → SortColumn → Direction → ℕ → ℕ → List TicketRow → TicketListResponse
  listed test column direction limit offset table = record {
    items =
        map ticket_to_summary
          (page limit offset (order_by column direction limit offset (rows test table)));
    total = length (rows test table);
    limit = limit;
    offset = offset;
  }

  -- `list_tickets`
  unfoldable pub list_tickets :
      TicketQuery → SortColumn → Direction → ℕ → ℕ → List TicketRow → TicketListResponse
  unfolding listed
  list_tickets query column direction limit offset table =
      listed (ticket_filters query) column direction limit offset table

  -- `list_escalations`; the order by the time of creation behind that of the escalation is ORDER BY's
  unfoldable pub list_escalations : ℕ → ℕ → List TicketRow → TicketListResponse
  unfolding listed
  list_escalations limit offset table =
      listed (λ row. is_escalated row.ticket.status) escalated_at asc limit offset table
