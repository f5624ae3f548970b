-- ===== src/Services/Chat/Turns.antt =====
-- What a customer's turn sends and leaves behind.
use ai_customer_support_plat.Tools.Database.{Uuids}
use ai_customer_support_plat.Services.Tickets.{Desk, TicketMessage, customer, index_error}
use ai_customer_support_plat.Services.Tickets.Messages.{subject_placeholders}
use ai_customer_support_plat.Services.Tickets.Persist.{ResolutionResponse}
use ai_customer_support_plat.Services.Tickets.Turns.{Persisted}
use ai_customer_support_plat.Services.Chat.{GraphRun, Packet, message_packet, stream_packets}
use ai_customer_support_plat.Services.Chat.Customer.{Sent, customer_turn_runs_graph}
use ai_customer_support_plat.Services.Chat.Order.{Closes, is_done}
use ai_customer_support_plat.Security.Patterns.{Unicode}
use ai_customer_support_plat.Prelude.{
  List, String, [], fail, false, ok, one_of, strip, true, ◌++◌, ◌∷◌, ◌≡◌,
}
use ai_customer_support_plat.Services.Chat.Packets.{Ends, Failing, Left}
use ai_customer_support_plat.Value.{Fields}

-- How `stream_customer_turn` ends.
pub data Turned (u : Uuids) (unicode : Unicode) (content : String) (run : GraphRun) (d : Desk)
    : Sent → Type 0 where
  refused_ :
      strip content ≡ ""
      → one_of d.ticket.subject subject_placeholders ≡ true
      → Turned u unicode content run d ([], fail index_error)
  waiting :
      (m : TicketMessage) (p : Packet) (d' : Desk)
      → customer_turn_runs_graph d.ticket ≡ false
      → m.role ≡ customer
      → m.content ≡ content
      → is_done p ≡ true
      → d'.messages ≡ d.messages ++ m ∷ []
      → d'.runs ≡ d.runs
      → d'.ticket.status ≡ d.ticket.status
      → Turned u unicode content run d (message_packet u m ∷ p ∷ [], ok d')
  ran :
      (m : TicketMessage) (failure answer : List Packet) (result : Fields) (r : ResolutionResponse)
      (d' d'' : Desk)
      → customer_turn_runs_graph d.ticket ≡ true
      → m.role ≡ customer
      → m.content ≡ content
      → d'.messages ≡ d.messages ++ m ∷ []
      → Left run result
      → Persisted unicode result run.raised d' r d''
      → Failing run.raised failure
      → Ends u r d'' answer
      → Closes ((stream_packets run.stream ++ failure) ++ answer)
      → Turned u unicode content run d
          (message_packet u m ∷ ((stream_packets run.stream ++ failure) ++ answer), ok d'')
