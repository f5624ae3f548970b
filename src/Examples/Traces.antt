-- ===== src/Examples/Traces.antt =====
-- A run of the trace recorder.
use ai_customer_support_plat.Observability.Trace.{
  Callback, graph_update, llm_end, llm_start, new_recorder,
}
use ai_customer_support_plat.Observability.Trace.Numbering.{
  IsNumbered, new_recorder-IsNumbered, replay, replay-IsNumbered,
}
use ai_customer_support_plat.Value.{real, str}
use ai_customer_support_plat.Services.Tickets.Persist.{flush_run}
use ai_customer_support_plat.Examples.Data.{uuids}
use ai_customer_support_plat.Examples.Desks.{desk}
use ai_customer_support_plat.Prelude.{List, [], false, none, ok, refl, ◌∷◌, ◌≡◌}
use ai_customer_support_plat.Services.Tickets.{AgentRun, AgentRunStatus, AgentEvent}
use ai_customer_support_plat.Services.Tickets.Runs.{
  Shown, flush_run-list_run_events, list_run_events,
}

abbrev callbacks : List Callback
callbacks =
    llm_start "ChatOpenAI" ("Hi" ∷ []) "run-1" 100
    ∷ llm_end ("Hello" ∷ []) "run-1" 130
    ∷ graph_update (("supervisor", str "ok") ∷ ("__interrupt__", str "wait") ∷ [])
    ∷ []

replay-IsNumbered_example : IsNumbered (replay callbacks new_recorder)
replay-IsNumbered_example = replay-IsNumbered callbacks new_recorder new_recorder-IsNumbered

abbrev finished_run : AgentRun
finished_run = record {
  id = 0;
  ticket_id = 1;
  status = AgentRunStatus.completed;
  intent = "billing";
  confidence = real "0.9";
  escalated = false;
  total_latency_ms = 30;
  error = none;
}

flush_run-list_run_events_example :
    let written = flush_run uuids (replay callbacks new_recorder) finished_run desk in
    (shown : List AgentEvent) × ((list_run_events uuids written.0 written.1
        ≡ ok (record finished_run { id = written.0 }, shown))
      × Shown written.0 (replay callbacks new_recorder).events shown)
flush_run-list_run_events_example =
    flush_run-list_run_events uuids callbacks finished_run desk refl refl
