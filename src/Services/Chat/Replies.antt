-- ===== src/Services/Chat/Replies.antt =====
-- What a human agent's reply sends and leaves behind.
use ai_customer_support_plat.Tools.Database.{Uuids}
use ai_customer_support_plat.Services.Tickets.{
  Desk, TicketMessage, human_agent, in_progress, index_error,
}
use ai_customer_support_plat.Services.Tickets.Messages.{subject_placeholders}
use ai_customer_support_plat.Services.Tickets.Persist.{ResolutionResponse}
use ai_customer_support_plat.Services.Tickets.Turns.{Persisted}
use ai_customer_support_plat.Services.Chat.{GraphRun, Packet, Snapshot, message_packet}
use ai_customer_support_plat.Services.Chat.Customer.{Sent}
use ai_customer_support_plat.Services.Chat.Order.{Closes, is_done}
use ai_customer_support_plat.Security.Patterns.{Unicode}
use ai_customer_support_plat.Services.Chat.Runner.{graph_is_interrupted}
use ai_customer_support_plat.Prelude.{
  List, Option, Result, String, [], fail, false, ok, one_of, strip, true, ◌++◌, ◌∷◌, ◌≡◌,
}
use ai_customer_support_plat.Services.Chat.Packets.{Ends, Resumed}
use ai_customer_support_plat.Value.{Fields}

-- How `stream_human_turn` ends.
pub data Replied (u : Uuids) (unicode : Unicode) (content : String)
    (before : Result String Snapshot) (run : GraphRun) (d : Desk) : Sent → Type 0 where
  refused_ :
      strip content ≡ ""
      → one_of d.ticket.subject subject_placeholders ≡ true
      → Replied u unicode content before run d ([], fail index_error)
  noted_ :
      (m : TicketMessage) (p : Packet) (d' : Desk)
      → graph_is_interrupted before ≡ false
      → m.role ≡ human_agent
      → m.content ≡ content
      → is_done p ≡ true
      → d'.messages ≡ d.messages ++ m ∷ []
      → d'.runs ≡ d.runs
      → d'.ticket.status ≡ d.ticket.status
      → Replied u unicode content before run d (message_packet u m ∷ p ∷ [], ok d')
  resumed_ :
      (m : TicketMessage) (answer : List Packet) (result : Fields) (error : Option String)
      (r : ResolutionResponse) (d' d'' : Desk)
      → graph_is_interrupted before ≡ true
      → m.role ≡ human_agent
      → m.content ≡ content
      → d'.messages ≡ d.messages ++ m ∷ []
      → Resumed run result error
      → Persisted unicode result error
          (record d' { ticket = record d'.ticket { status = in_progress } })
          r
          d''
      → Ends u r d'' answer
      → Closes answer
      → Replied u unicode content before run d (message_packet u m ∷ answer, ok d'')
