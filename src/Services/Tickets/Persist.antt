-- ===== src/Services/Tickets/Persist.antt =====
-- `persist_graph_result` with `extract_interrupt_payload`, `_upsert_resolution` and `_flush_run`.
use ai_customer_support_plat.Prelude.{
  Bool, List, Option, Result, String, [], false, if◌then◌else◌, is_some, none, nonempty, ok, some,
  strip, true, ℕ, ◌++◌, ◌+◌, ◌==◌, ◌>>=◌, ◌||◌, ◌∷◌,
}
use ai_customer_support_plat.Value.{
  Fields, Items, Value, arr, cons, end, field, get, nil, null, obj, truthy, truthy_value,
  value_or_null,
}
use ai_customer_support_plat.Security.Patterns.{Unicode}
use ai_customer_support_plat.Security.Answers.{sanitize_customer_answer}
use ai_customer_support_plat.Agents.Messages.{ToolResult}
use ai_customer_support_plat.Services.Tickets.Messages.{
  append_message, last_message, should_persist_assistant_message,
}
use ai_customer_support_plat.Tools.Database.{Uuids}
use ai_customer_support_plat.Observability.Trace.{Recorder, BufferedEvent, record_tool_results}
use ai_customer_support_plat.Policy.Escalation.{text_of}
use ai_customer_support_plat.Services.Tickets.{
  AgentEvent, AgentRun, AgentRunStatus, Desk, Failure, Resolution, TicketIntent, TicketStatus,
  account, assistant, awaiting_human, billing, closed, completed, escalated, failed, in_progress,
  logistics, open_, unknown,
}
use ai_customer_support_plat.Agents.Escalation.{customer_escalation_message}

-- An interrupt stands for its value. An empty list of them counts as none.
abbrev payload_value : Value → Option Fields
payload_value (obj d) = some d
payload_value null = none
payload_value v = some (field "value" v end)

abbrev first_payload : Option Value → Option Fields
first_payload (some (arr (cons v _))) = payload_value v
first_payload _ = none

unfoldable pub extract_interrupt_payload : Fields → Option Fields
extract_interrupt_payload result = first_payload (get result "__interrupt__")

-- result.get("intent") or "unknown", as a member of TicketIntent
abbrev pub parse_intent : String → TicketIntent
parse_intent s =
    if s == "billing"
    then billing
    else if s == "logistics"
    then logistics
    else if s == "account"
    then account
    else unknown

abbrev pub intent_value : TicketIntent → String
intent_value billing = "billing"
intent_value logistics = "logistics"
intent_value account = "account"
intent_value unknown = "unknown"

abbrev pub text_or : Option Value → String → String
text_or none default = default
text_or (some v) default = if truthy_value v then text_of v else default

-- The texts and flags that `persist_graph_result` reads, an error being none if it is empty.
abbrev pub is_given : Option String → Bool
is_given none = false
is_given (some error) = nonempty error

abbrev pub error_text : Option String → String
error_text none = "None"
error_text (some error) = error

unfoldable pub needs_human_of : Fields → Bool
needs_human_of result =
    is_some (extract_interrupt_payload result) || truthy (get result "needs_human")

-- the status, by whether the turn escalates and whether it failed
abbrev pub next_status : Bool → Bool → TicketStatus → TicketStatus
next_status true failed_ old = escalated
next_status false true old = open_
next_status false false closed = closed
next_status false false _ = in_progress

abbrev pub first_time : Bool → ℕ → Option ℕ → Option ℕ
first_time true now none = some now
first_time _ now old = old

unfoldable pub raw_answer : Option Fields → Fields → Option String → String
raw_answer (some (field k v d)) result error = strip (text_or (get (field k v d) "draft_answer") "")
raw_answer _ result error =
    text_or (get result "draft_answer")
      (if is_given error then error_text error else "No answer generated.")

abbrev pub answer_or : Bool → Option String → String → String
answer_or escalated_ error answer =
    if nonempty answer
    then answer
    else if escalated_
    then customer_escalation_message
    else if is_given error
    then error_text error
    else "No answer generated."

unfoldable pub answer_of : Unicode → Fields → Option String → String
unfolding raw_answer needs_human_of extract_interrupt_payload
answer_of u result error =
    answer_or (needs_human_of result) error
      (sanitize_customer_answer u (raw_answer (extract_interrupt_payload result) result error))

abbrev pub upserted : ℕ → String → Bool → Value → Option Resolution → Resolution
upserted id answer escalated_ confidence none = record {
  ticket_id = id;
  answer = answer;
  escalated = escalated_;
  confidence = confidence;
}
upserted id answer escalated_ confidence (some r) = record r {
  answer = answer;
  escalated = escalated_;
  confidence = confidence;
}

-- `_upsert_resolution`
unfoldable pub upsert_resolution : String → Bool → Value → Desk → Desk
upsert_resolution answer escalated_ confidence d = record d {
  resolution = some (upserted d.ticket.id answer escalated_ confidence d.resolution);
}

abbrev pub run_status : Bool → Bool → AgentRunStatus
run_status true awaiting = failed
run_status false true = awaiting_human
run_status false false = completed

abbrev pub run_events : ℕ → List BufferedEvent → List AgentEvent
run_events run_id [] = []
run_events run_id (e ∷ es) = record { run_id = run_id; event = e } ∷ run_events run_id es

-- `_flush_run`, with the id of the run
unfoldable pub flush_run : Uuids → Recorder → AgentRun → Desk → ℕ × Desk
flush_run u recorder run d =
    let id = u.random d.drawn in
    (
      id,
      record d {
        runs = d.runs ++ record run { id = id } ∷ [];
        events = d.events ++ run_events id recorder.events;
        drawn = d.drawn + 1;
      },
    )

abbrev results_in : Items → List ToolResult
results_in nil = []
results_in (cons (obj d) vs) =
    record { tool_name = text_or (get d "tool") "unknown"; result = value_or_null (get d "result") }
    ∷ results_in vs
results_in (cons v vs) = results_in vs

abbrev pub tool_results_of : Option Value → List ToolResult
tool_results_of (some (arr vs)) = results_in vs
tool_results_of _ = []

pub record ResolutionResponse : Type 0 where
  pub ticket_id : ℕ
  pub answer : String
  pub intent : String
  pub confidence : Value
  pub escalated : Bool
  pub awaiting_human : Bool
  pub run_id : ℕ
  pub tool_results : Items
  pub retrieved_context : Items
  pub interrupt_payload : Option Fields

abbrev items_or_empty : Option Value → Items
items_or_empty (some (arr vs)) = vs
items_or_empty _ = nil

abbrev pub settled : Fields → Option String → Desk → Desk
settled result error d =
    let escalates = needs_human_of result in
    record d {
      ticket = record d.ticket {
        intent = some (parse_intent (text_or (get result "intent") "unknown"));
        status = next_status escalates (is_given error) d.ticket.status;
        escalated_at = first_time escalates d.now d.ticket.escalated_at;
      };
    }

abbrev pub say : Uuids → String → ℕ → Desk → Result Failure Desk
say u answer run_id d =
    if should_persist_assistant_message (last_message d) answer
    then (append_message u assistant answer (some run_id) none d >>= λ r. ok r.1)
    else ok d

abbrev pub counted : Bool → Desk → Desk
counted escalates d = record d { escalations = d.escalations + (if escalates then 1 else 0) }

module _ (u : Uuids) (unicode : Unicode) where
  abbrev pub run_of : Fields → ℕ → Option String → Desk → AgentRun
  run_of result latency_ms error d = record {
    id = 0;
    ticket_id = d.ticket.id;
    status = run_status (is_given error) (is_some (extract_interrupt_payload result));
    intent = intent_value (parse_intent (text_or (get result "intent") "unknown"));
    confidence = value_or_null (get result "confidence");
    escalated = needs_human_of result;
    total_latency_ms = latency_ms;
    error = error;
  }

  -- the ticket, the resolution and the run of a result, with the id of the run
  unfoldable pub record_run : Fields → Recorder → ℕ → Option String → Desk → ℕ × Desk
  unfolding flush_run upsert_resolution
  record_run result recorder latency_ms error d =
      flush_run u (record_tool_results (tool_results_of (get result "tool_results")) recorder)
        (run_of result latency_ms error d)
        (upsert_resolution (answer_of unicode result error) (needs_human_of result)
          (value_or_null (get result "confidence")) (settled result error d))

  abbrev pub response_of : Fields → Option String → Desk → ℕ → ResolutionResponse
  response_of result error d run_id = record {
    ticket_id = d.ticket.id;
    answer = answer_of unicode result error;
    intent = intent_value (parse_intent (text_or (get result "intent") "unknown"));
    confidence = value_or_null (get result "confidence");
    escalated = needs_human_of result;
    awaiting_human = is_some (extract_interrupt_payload result);
    run_id = run_id;
    tool_results = items_or_empty (get result "tool_results");
    retrieved_context = items_or_empty (get result "retrieved_context");
    interrupt_payload = extract_interrupt_payload result;
  }

  unfoldable pub persist_graph_result :
      Fields → Recorder → ℕ → Option String → Desk → Result Failure (ResolutionResponse × Desk)
  persist_graph_result result recorder latency_ms error d = do
    let (run_id, recorded) = record_run result recorder latency_ms error d
    answered ← say u (answer_of unicode result error) run_id recorded
    ok (response_of result error d run_id, counted (needs_human_of result) answered)
