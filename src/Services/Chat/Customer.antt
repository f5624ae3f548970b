-- ===== src/Services/Chat/Customer.antt =====
-- `stream_customer_turn`
use ai_customer_support_plat.Prelude.{
  Bool, List, Option, Result, String, [], fail, false, if◌then◌else◌, none, nonempty, not, ok, some,
  strip, true, ℕ, ◌++◌, ◌∷◌,
}
use ai_customer_support_plat.Value.{Fields, Value, arr, bool, end, field, null, obj, str}
use ai_customer_support_plat.Services.Tickets.{
  Desk, Failure, Ticket, TicketMessage, assistant, customer, in_progress, is_escalated,
}
use ai_customer_support_plat.Services.Tickets.Messages.{append_message, last_message}
use ai_customer_support_plat.Services.Tickets.Persist.{ResolutionResponse, persist_graph_result}
use ai_customer_support_plat.Services.Tickets.Lifecycle.{set_status}
use ai_customer_support_plat.Services.Chat.{
  GraphRun, Packet, error_packets, message_packet, stream_packets,
}
use ai_customer_support_plat.Services.Chat.Runner.{record_stream, snapshot_or_error}
use ai_customer_support_plat.Tools.Database.{Uuids}
use ai_customer_support_plat.Security.Patterns.{Unicode}
use ai_customer_support_plat.Observability.Trace.{new_recorder}

abbrev agent_text : Option String → String
agent_text none = ""
agent_text (some agent) = agent

-- `customer_turn_runs_graph`
unfoldable pub customer_turn_runs_graph : Ticket → Bool
customer_turn_runs_graph t = not (nonempty (strip (agent_text t.assigned_agent)))

-- What has been sent, and the conversation if the turn has not raised.
abbrev pub Sent : Type 0
Sent = List Packet × Result Failure Desk

abbrev pub short_done : Uuids → Ticket → Bool → Bool → Packet
short_done u t waits escalates = record {
  event = "done";
  body = obj (
      field "ticket_id" (str (u.text t.id)) (
        field "answer" (str "")
          (field "awaiting_human" (bool waits) (field "escalated" (bool escalates) end))));
}

abbrev dump_payload : Option Fields → Value
dump_payload none = null
dump_payload (some d) = obj d

-- the `done` packet of a response
unfoldable pub response_done : Uuids → ResolutionResponse → Packet
response_done u r = record {
  event = "done";
  body = obj (
      field "ticket_id" (str (u.text r.ticket_id)) (
        field "answer" (str r.answer) (
          field "intent" (str r.intent) (
            field "confidence" r.confidence (
              field "escalated" (bool r.escalated) (
                field "awaiting_human" (bool r.awaiting_human) (
                  field "run_id" (str (u.text r.run_id)) (
                    field "tool_results" (arr r.tool_results) (
                      field "retrieved_context" (arr r.retrieved_context)
                        (field "interrupt_payload" (dump_payload r.interrupt_payload) end))))))))));
}

abbrev pub assistant_packets : Uuids → Option TicketMessage → List Packet
assistant_packets u none = []
assistant_packets u (some m) = elim m.role [ assistant ↦ message_packet u m ∷ [] | _ ↦ [] ]

-- `_publish_assistant_and_done`
abbrev pub closing_packets : Uuids → ResolutionResponse → Desk → List Packet
closing_packets u r d = assistant_packets u (last_message d) ++ response_done u r ∷ []

abbrev pub concluded : Uuids → Result Failure (ResolutionResponse × Desk) → Sent
concluded u (ok (r, d)) = (closing_packets u r d, ok d)
concluded u (fail e) = ([], fail e)

abbrev pub after_packets : List Packet → Sent → Sent
after_packets ps (qs, r) = (ps ++ qs, r)

module _ (u : Uuids) (unicode : Unicode) where
  -- the graph's part of the turn
  unfoldable pub run_customer_graph : GraphRun → ℕ → Desk → Sent
  run_customer_graph run latency_ms d =
      after_packets (stream_packets run.stream ++ error_packets run.raised) (
        concluded u (
          persist_graph_result u unicode (snapshot_or_error run.snapshot run.raised)
            (record_stream run.stream new_recorder) latency_ms run.raised d))

  abbrev pub after_message : Bool → GraphRun → ℕ → Result Failure (TicketMessage × Desk) → Sent
  after_message run_graph run latency_ms (fail e) = ([], fail e)
  after_message false run latency_ms (ok (m, d)) =
      (message_packet u m ∷ short_done u d.ticket true (is_escalated d.ticket.status) ∷ [], ok d)
  after_message true run latency_ms (ok (m, d)) =
      after_packets (message_packet u m ∷ []) (run_customer_graph run latency_ms d)

  unfoldable pub stream_customer_turn : String → GraphRun → ℕ → Desk → Sent
  stream_customer_turn content run latency_ms d =
      let run_graph = customer_turn_runs_graph d.ticket in
      after_message run_graph run latency_ms (
        append_message u customer content none none
          (if run_graph then set_status in_progress d else d))
