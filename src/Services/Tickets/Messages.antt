-- ===== src/Services/Tickets/Messages.antt =====
-- `append_message`, `list_messages`, `should_persist_assistant_message`, `assert_ticket_owner`.
use ai_customer_support_plat.Prelude.{
  Bool, List, Option, Result, String, [], fail, false, get_last?, if◌then◌else◌, nat_beq, none,
  nonempty, not, ok, one_of, some, strip, true, ℕ, ◌&&◌, ◌++◌, ◌+◌, ◌==◌, ◌>>=◌, ◌∷◌,
}
use ai_customer_support_plat.Value.{Fields}
use ai_customer_support_plat.Security.Answers.{split_lines, take_text}
use ai_customer_support_plat.Tools.Database.{Uuids}
use ai_customer_support_plat.Services.Tickets.{
  Desk, Failure, Ticket, TicketMessage, TicketMessageRole, assistant, human_agent, index_error,
  system,
}

-- content.strip().splitlines()[0][:80]
unfoldable pub first_line : String → Result Failure String
first_line content = elim (split_lines (strip content)) [
  | [] ↦ fail index_error
  | line ∷ _ ↦ ok (take_text 80 line)
]

abbrev pub described : String → Ticket → Ticket
described content t = if nonempty t.description then t else record t { description = content }

abbrev pub subject_placeholders : List String
subject_placeholders = "" ∷ "Support chat" ∷ "Nova conversa" ∷ []

abbrev pub titled : String → Ticket → Result Failure Ticket
titled content t =
    if one_of t.subject subject_placeholders
    then (first_line content >>= λ line. ok (record t { subject = line }))
    else ok t

-- what a message of a speaker tells about the ticket
abbrev pub introduced : TicketMessageRole → String → Ticket → Result Failure Ticket
introduced system content t = ok t
introduced _ content t = titled content (described content t)

module _ (u : Uuids) where
  abbrev pub new_message :
      TicketMessageRole → String → Option ℕ → Option Fields → Desk → TicketMessage
  new_message role content agent_run_id extra d = record {
    id = u.random d.drawn;
    ticket_id = d.ticket.id;
    role = role;
    content = content;
    agent_run_id = agent_run_id;
    extra = extra;
    created_at = d.now;
  }

  abbrev pub with_message : TicketMessage → Ticket → Desk → Desk
  with_message message t d = record d {
    ticket = record t { last_message_at = some d.now };
    messages = d.messages ++ message ∷ [];
    drawn = d.drawn + 1;
  }

  unfoldable pub append_message :
      TicketMessageRole
      → String
      → Option ℕ
      → Option Fields
      → Desk
      → Result Failure (TicketMessage × Desk)
  append_message role content agent_run_id extra d = do
    let message = new_message role content agent_run_id extra d
    t ← introduced role content d.ticket
    ok (message, with_message message t d)

-- the last of a conversation, `history[-1] if history else None`
abbrev pub last_message : Desk → Option TicketMessage
last_message d = get_last? d.messages

abbrev pub same_bubble : TicketMessageRole → String → String → Bool
same_bubble assistant content text = strip content == text
same_bubble human_agent content text = strip content == text
same_bubble _ content text = false

abbrev pub repeats_last : Option TicketMessage → String → Bool
repeats_last none text = false
repeats_last (some last) text = same_bubble last.role last.content text

unfoldable pub should_persist_assistant_message : Option TicketMessage → String → Bool
should_persist_assistant_message last answer =
    let text = strip answer in nonempty text && not (repeats_last last text)

-- the test of `assert_ticket_owner`
unfoldable pub owns_ticket : Ticket → Option ℕ → Bool
owns_ticket t none = true
owns_ticket t (some customer_id) = nat_beq t.customer_id customer_id
