-- ===== src/Services/Tickets/Lifecycle.antt =====
-- `close_ticket`, `confirm_resolution` and `assign_agent`.
use ai_customer_support_plat.Prelude.{
  Bool, Option, Result, String, fail, if◌then◌else◌, none, nonempty, ok, some, ℕ, ◌>>=◌, ◌⁀◌,
}
use ai_customer_support_plat.Services.Tickets.Messages.{append_message}
use ai_customer_support_plat.Services.Tickets.{
  Desk, Failure, Resolution, TicketMessage, TicketStatus, closed, is_closed, is_escalated,
  is_resolved, resolved, system, ticket_conflict,
}
use ai_customer_support_plat.Value.{null}
use ai_customer_support_plat.Tools.Database.{Uuids}

abbrev pub close_system_message : String
close_system_message = "Conversa encerrada pelo atendente."

abbrev pub confirm_system_message : String
confirm_system_message = "Você marcou esta conversa como resolvida."

abbrev closing_note : ℕ → Bool → String → Option Resolution → Resolution
closing_note id was_escalated note none = record {
  ticket_id = id;
  answer = note;
  escalated = was_escalated;
  confidence = null;
}
closing_note id was_escalated note (some r) = record r { answer = r.answer ⁀ "\n\n" ⁀ note }

-- the resolution after a closing, with its reason if there is one
abbrev pub noted : ℕ → Bool → Option String → Option Resolution → Option Resolution
noted id was_escalated none r = r
noted id was_escalated (some reason) r =
    if nonempty reason
    then some (closing_note id was_escalated ("Closed by agent. " ⁀ reason) r)
    else r

abbrev pub set_status : TicketStatus → Desk → Desk
set_status status d = record d { ticket = record d.ticket { status = status } }

abbrev pub shut : Option String → Desk → Desk
shut reason d = record d {
  ticket = record d.ticket { status = closed; assigned_agent = none };
  resolution = noted d.ticket.id (is_escalated d.ticket.status) reason d.resolution;
}

module _ (u : Uuids) where
  abbrev pub already_closed : Desk → Failure
  already_closed d = ticket_conflict (u.text d.ticket.id) "Ticket is already closed"

  unfoldable pub close_ticket : Option String → Desk → Result Failure (TicketMessage × Desk)
  close_ticket reason d =
      if is_closed d.ticket.status
      then fail (already_closed d)
      else append_message u system close_system_message none none (shut reason d)

  abbrev pub noticed : TicketMessage × Desk → Option TicketMessage × Desk
  noticed (message, d) = (some message, d)

  unfoldable pub confirm_resolution : Desk → Result Failure (Option TicketMessage × Desk)
  confirm_resolution d =
      if is_closed d.ticket.status
      then fail (already_closed d)
      else if is_resolved d.ticket.status
      then ok (none, d)
      else (append_message u system confirm_system_message none none (set_status resolved d)
          >>= λ r. ok (noticed r))

unfoldable pub assign_agent : String → Desk → Desk
assign_agent agent d = record d { ticket = record d.ticket { assigned_agent = some agent } }
