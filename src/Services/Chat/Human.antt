-- ===== src/Services/Chat/Human.antt =====
-- `stream_human_turn`: the checkpoint before the turn, and the run of the graph when it is resumed.
use ai_customer_support_plat.Prelude.{
  Option, Result, String, [], fail, false, if◌then◌else◌, none, ok, some, ℕ, ◌∷◌,
}
use ai_customer_support_plat.Value.{Fields, end, field, str}
use ai_customer_support_plat.Services.Tickets.{
  Desk, Failure, TicketMessage, human_agent, in_progress,
}
use ai_customer_support_plat.Services.Tickets.Messages.{append_message}
use ai_customer_support_plat.Services.Tickets.Persist.{persist_graph_result}
use ai_customer_support_plat.Services.Tickets.Lifecycle.{set_status}
use ai_customer_support_plat.Services.Chat.{GraphRun, Snapshot, message_packet}
use ai_customer_support_plat.Services.Chat.Runner.{
  failed_result, graph_is_interrupted, record_stream, snapshot_to_result,
}
use ai_customer_support_plat.Services.Chat.Customer.{Sent, after_packets, concluded, short_done}
use ai_customer_support_plat.Tools.Database.{Uuids}
use ai_customer_support_plat.Security.Patterns.{Unicode}
use ai_customer_support_plat.Observability.Trace.{new_recorder}

-- the result of `invoke_graph`, or of its exception; reading the checkpoint can raise as well
abbrev pub from_snapshot : Result String Snapshot → Fields × Option String
from_snapshot (fail error) = (failed_result error, some error)
from_snapshot (ok s) = (snapshot_to_result s, none)

unfoldable pub invoked : GraphRun → Fields × Option String
invoked run = elim run.raised [
  | some error ↦ (failed_result error, some error)
  | none ↦ from_snapshot run.snapshot
]

module _ (u : Uuids) (unicode : Unicode) where
  unfoldable pub resume_graph : GraphRun → ℕ → Desk → Sent
  resume_graph run latency_ms d =
      let (result, error) = invoked run in
      concluded u (
        persist_graph_result u unicode result (record_stream run.stream new_recorder) latency_ms
          error (set_status in_progress d))

  abbrev pub after_reply :
      Result String Snapshot → GraphRun → ℕ → Result Failure (TicketMessage × Desk) → Sent
  after_reply before run latency_ms (fail e) = ([], fail e)
  after_reply before run latency_ms (ok (m, d)) = after_packets (message_packet u m ∷ []) (
      if graph_is_interrupted before
      then resume_graph run latency_ms d
      else (short_done u d.ticket false false ∷ [], ok d))

  unfoldable pub stream_human_turn :
      String → String → Result String Snapshot → GraphRun → ℕ → Desk → Sent
  stream_human_turn content agent before run latency_ms d =
      after_reply before run latency_ms
        (append_message u human_agent content none (some (field "agent" (str agent) end)) d)
