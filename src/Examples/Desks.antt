-- ===== src/Examples/Desks.antt =====
-- Runs of the ticket service.
use ai_customer_support_plat.Value.{Fields, bool, end, field, str}
use ai_customer_support_plat.Services.Tickets.{Desk, customer, open_}
use ai_customer_support_plat.Services.Tickets.Messages.{append_message}
use ai_customer_support_plat.Services.Tickets.Persist.{ResolutionResponse, persist_graph_result}
use ai_customer_support_plat.Services.Tickets.Lifecycle.{assign_agent, close_ticket}
use ai_customer_support_plat.Services.Tickets.Turns.{Persisted, persist_graph_result-Persisted}
use ai_customer_support_plat.Services.Tickets.History.{
  Reach, Reach-IsValid, here, next, taken_over, waited,
}
use ai_customer_support_plat.Services.Tickets.Validity.{Continues, IsValid}
use ai_customer_support_plat.Services.Tickets.Endings.{Closing, close_ticket-Closing}
use ai_customer_support_plat.Observability.Trace.{new_recorder}
use ai_customer_support_plat.Examples.Data.{uuids}
use ai_customer_support_plat.Examples.Guards.{unicode}
use ai_customer_support_plat.Prelude.{[], none, ok, refl, some, true, true_not_false, ◌≡◌}
use ai_customer_support_plat.Services.Tickets.Outcomes.{Ending, append_message-Ending}

-- a ticket that has just been opened
abbrev pub desk : Desk
desk = record {
  ticket = record {
    id = 1;
    customer_id = 7;
    order_id = none;
    subject = "late parcel";
    description = "where is my order";
    status = open_;
    intent = none;
    escalated_at = none;
    last_message_at = none;
    assigned_agent = none;
    created_at = 0;
  };
  resolution = none;
  messages = [];
  runs = [];
  events = [];
  now = 10;
  drawn = 0;
  escalations = 0;
}

-- what a graph that needs a human leaves
abbrev pub handed_over_result : Fields
handed_over_result =
    field "draft_answer" (str "a specialist will help.") (field "needs_human" (bool true) end)

-- a ticket without a subject
abbrev untitled : Desk
untitled = record desk { ticket = record desk.ticket { subject = "Nova conversa" } }

append_message-Ending_example :
    Ending customer "  " none untitled (append_message uuids customer "  " none none untitled)
append_message-Ending_example = append_message-Ending uuids customer "  " none none untitled

persist_graph_result-Persisted_example :
    (r : ResolutionResponse) × ((d' : Desk) × ((persist_graph_result uuids unicode
            handed_over_result new_recorder 5 none desk
          ≡ ok (r, d'))
        × Persisted unicode handed_over_result none desk r d'))
persist_graph_result-Persisted_example =
    persist_graph_result-Persisted uuids unicode handed_over_result new_recorder 5 none desk

-- an agent takes the ticket, and the clock goes on
abbrev taken_desk : Desk
taken_desk = record (assign_agent "ana" desk) { now = 20 }

taking_over : Reach uuids unicode desk taken_desk
taking_over =
    next (assign_agent "ana" desk) taken_desk (next desk _ here (taken_over "ana")) (waited 20)

desk-IsValid : IsValid desk
desk-IsValid = record { queued = λ e. absurd (true_not_false e refl); own = tt }

Reach-IsValid_example : IsValid taken_desk × Continues [] taken_desk.messages
Reach-IsValid_example = Reach-IsValid uuids unicode desk taken_desk taking_over desk-IsValid

close_ticket-Closing_example :
    Closing uuids (some "spam") desk (close_ticket uuids (some "spam") desk)
close_ticket-Closing_example = close_ticket-Closing uuids (some "spam") desk
