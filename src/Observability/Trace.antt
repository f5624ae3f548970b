-- ===== src/Observability/Trace.antt =====
-- app/observability/trace_recorder.py: the buffer of execution events. Payloads are JSON values
-- already, so `to_jsonable` is the identity on them; times are in milliseconds.
pub mod Numbering
use ai_customer_support_plat.Prelude.{
  Bool, List, Option, String, [], false, if◌then◌else◌, none, nonempty, one_of, some, true, ℕ, ◌++◌,
  ◌+◌, ◌-◌, ◌==◌, ◌∷◌,
}
use ai_customer_support_plat.Value.{Fields, Value, arr, end, field, num, obj, str, texts}
use ai_customer_support_plat.Agents.Messages.{ToolResult}

-- AgentEventType
pub data EventType : Type 0 where
  node tool llm retrieval guardrail : EventType

abbrev pub same_type : EventType → EventType → Bool
same_type node node = true
same_type EventType.tool EventType.tool = true
same_type llm llm = true
same_type retrieval retrieval = true
same_type guardrail guardrail = true
same_type _ _ = false

pub record BufferedEvent : Type 0 where
  pub sequence : ℕ
  pub event_type : EventType
  pub name : String
  pub input : Option Fields
  pub output : Option Fields
  pub latency_ms : Option ℕ
  pub error : Option String

pub record Recorder : Type 0 where
  pub events : List BufferedEvent
  pub sequence : ℕ
  pub starts : List (String × ℕ)

abbrev pub new_recorder : Recorder
new_recorder = record { events = []; sequence = 0; starts = [] }

-- `_wrap`
abbrev pub wrap : Value → Fields
wrap (obj d) = d
wrap v = field "value" v end

abbrev wrap_given : Option Value → Option Fields
wrap_given none = none
wrap_given (some v) = some (wrap v)

unfoldable pub add_event :
    EventType → String → Option Value → Option Value → Option String → Recorder → Recorder
add_event event_type name input_data output_data error r = record r {
  sequence = r.sequence + 1;
  events =
      r.events
      ++ record {
        sequence = r.sequence + 1;
        event_type = event_type;
        name = name;
        input = wrap_given input_data;
        output = wrap_given output_data;
        latency_ms = none;
        error = error;
      }
        ∷ [];
}

abbrev record_node : String → Value → Recorder → Recorder
record_node node_name payload r =
    if node_name == "__interrupt__"
    then add_event guardrail "interrupt" none (some payload) none r
    else add_event node node_name none (some payload) none r

unfoldable pub record_graph_update : List (String × Value) → Recorder → Recorder
unfolding add_event
record_graph_update [] r = r
record_graph_update ((node_name, payload) ∷ update) r =
    record_graph_update update (record_node node_name payload r)

-- the names of the tool events that are there
abbrev pub tool_names : List BufferedEvent → List String
tool_names [] = []
tool_names (e ∷ es) =
    if same_type e.event_type EventType.tool then e.name ∷ tool_names es else tool_names es

-- The loop of `record_tool_results`, over the names that exist. A tool result of the graph state has
-- no entry "error" of its own.
backfill : List ToolResult → List String → Recorder → Recorder
backfill [] existing r = r
backfill (item ∷ items) existing r =
    let name = if nonempty item.tool_name then item.tool_name else "unknown" in
    let known = one_of name existing in
    backfill items (if known then existing else name ∷ existing)
      (if known then r else add_event EventType.tool name none (some item.result) none r)

unfoldable pub record_tool_results : List ToolResult → Recorder → Recorder
unfolding backfill
record_tool_results tool_results r = backfill tool_results (tool_names r.events) r

-- what `_patch_last` changes in an event
abbrev pub or_old {ℓ} : {A : Type ℓ} → Option A → Option A → Option A
or_old none old = old
or_old (some new) old = some new

abbrev patch : Option Value → Option String → Option ℕ → BufferedEvent → BufferedEvent
patch output_data error latency_ms e = record e {
  output = or_old (wrap_given output_data) e.output;
  error = or_old error e.error;
  latency_ms = or_old latency_ms e.latency_ms;
}

abbrev patch_here :
    EventType
    → (BufferedEvent → BufferedEvent)
    → BufferedEvent
    → List BufferedEvent
    → Option (List BufferedEvent)
    → Option (List BufferedEvent)
patch_here event_type change e es (some es') = some (e ∷ es')
patch_here event_type change e es none =
    if same_type e.event_type event_type then some (change e ∷ es) else none

-- the last event of the type, sought from the end
patch_in :
    EventType → (BufferedEvent → BufferedEvent) → List BufferedEvent → Option (List BufferedEvent)
patch_in event_type change [] = none
patch_in event_type change (e ∷ es) =
    patch_here event_type change e es (patch_in event_type change es)

abbrev or_same : List BufferedEvent → Option (List BufferedEvent) → List BufferedEvent
or_same es none = es
or_same es (some es') = es'

unfoldable pub patch_last :
    EventType → Option Value → Option String → Option ℕ → Recorder → Recorder
unfolding patch_in
patch_last event_type output_data error latency_ms r = record r {
  events = or_same r.events (patch_in event_type (patch output_data error latency_ms) r.events);
}

abbrev take_start : String → List (String × ℕ) → Option ℕ
take_start run_id [] = none
take_start run_id ((id, t) ∷ rest) = if id == run_id then some t else take_start run_id rest

abbrev drop_start : String → List (String × ℕ) → List (String × ℕ)
drop_start run_id [] = []
drop_start run_id ((id, t) ∷ rest) =
    if id == run_id then drop_start run_id rest else (id, t) ∷ drop_start run_id rest

-- `_elapsed(self._starts.pop(run_id, None))`
abbrev elapsed : Option ℕ → ℕ → Option ℕ
elapsed none now = none
elapsed (some started) now = some (now - started)

-- A `start` callback: its time, and an event.
started : EventType → String → Value → String → ℕ → Recorder → Recorder
unfolding add_event
started event_type name input_data run_id now r =
    add_event event_type name (some input_data) none none
      (record r { starts = (run_id, now) ∷ drop_start run_id r.starts })

-- An `end` or `error` callback: the time is taken out, and the last event of the type patched.
ended : EventType → Option Value → Option String → String → ℕ → Recorder → Recorder
unfolding patch_last
ended event_type output_data error run_id now r =
    patch_last event_type output_data error (elapsed (take_start run_id r.starts) now)
      (record r { starts = drop_start run_id r.starts })

-- The calls that a run makes on its recorder. A name is the callback's, or its default.
pub data Callback : Type 0 where
  llm_start : String → List String → String → ℕ → Callback
  llm_end : List String → String → ℕ → Callback
  llm_error : String → String → ℕ → Callback
  tool_start : String → String → String → ℕ → Callback
  tool_end : Value → String → ℕ → Callback
  tool_error : String → String → ℕ → Callback
  retriever_start : String → String → String → ℕ → Callback
  retriever_end : ℕ → String → ℕ → Callback
  chain_error : String → Callback
  graph_update : List (String × Value) → Callback
  tool_results : List ToolResult → Callback

-- prompts[:3]
abbrev first_three : List String → List String
first_three (a ∷ b ∷ c ∷ _) = a ∷ b ∷ c ∷ []
first_three ps = ps

unfoldable pub on_callback : Callback → Recorder → Recorder
unfolding started ended add_event record_graph_update record_tool_results
on_callback (llm_start name prompts run_id now) r =
    started llm name (obj (field "prompts" (arr (texts (first_three prompts))) end)) run_id now r
on_callback (llm_end generations run_id now) r =
    ended llm (some (obj (field "generations" (arr (texts generations)) end))) none run_id now r
on_callback (llm_error error run_id now) r = ended llm none (some error) run_id now r
on_callback (tool_start name input_str run_id now) r =
    started EventType.tool name (obj (field "input" (str input_str) end)) run_id now r
on_callback (tool_end output run_id now) r = ended EventType.tool (some output) none run_id now r
on_callback (tool_error error run_id now) r = ended EventType.tool none (some error) run_id now r
on_callback (retriever_start name query run_id now) r =
    started retrieval name (obj (field "query" (str query) end)) run_id now r
on_callback (retriever_end count run_id now) r =
    ended retrieval (some (obj (field "document_count" (num count) end))) none run_id now r
on_callback (chain_error error) r = add_event node "chain_error" none none (some error) r
on_callback (graph_update update) r = record_graph_update update r
on_callback (tool_results items) r = record_tool_results items r
