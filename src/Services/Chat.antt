-- ===== src/Services/Chat.antt =====
-- app/services/chat_service.py with graph_runner.py and chat_bus.py: the turns of a live chat. The
-- compiled graph is the runtime's: what it streams, what it calls on the recorder in between, how it
-- ends and what its checkpoint holds are given. Every packet is published to the ticket's channel
-- and sent to the client, in this order; heartbeats are left out.
pub mod Runner
pub mod Customer
pub mod Human
pub mod Order
pub mod Packets
pub mod Turns
pub mod Replies
use ai_customer_support_plat.Prelude.{
  Bool, List, Option, Result, String, [], if◌then◌else◌, none, nonempty, not, one_of, some, ℕ, ◌++◌,
  ◌==◌, ◌||◌, ◌⁀◌, ◌∷◌,
}
use ai_customer_support_plat.Value.{
  Fields, Items, Value, arr, cons, end, field, get, instant, nil, null, obj, str, texts,
}
use ai_customer_support_plat.Services.Tickets.{TicketMessage, role_value}
use ai_customer_support_plat.Tools.Database.{Uuids}
use ai_customer_support_plat.Observability.Trace.{Callback}

pub record Packet : Type 0 where
  pub event : String
  pub body : Value

-- the content of a message chunk: a text, a list of texts and of parts with a type and a text, or
-- something else
pub data Part : Type 0 where
  plain : String → Part
  typed : String → String → Part

pub data Content : Type 0 where
  text_content : String → Content
  parts : List Part → Content
  no_content : Content

-- A chunk of the "messages" stream with the node of its metadata.
pub record Chunk : Type 0 where
  pub node : String
  pub is_chunk : Bool
  pub has_tool_calls : Bool
  pub content : Content

-- One item of the graph's stream, or a call of the recorder in between.
pub data StreamItem : Type 0 where
  updates : List (String × Value) → StreamItem
  messages : Chunk → StreamItem
  callback : Callback → StreamItem

pub record Snapshot : Type 0 where
  pub values : Fields
  pub interrupts : Items

-- A run of the graph: its stream, the exception that ended it, and the checkpoint afterwards, or the
-- failure to read it.
pub record GraphRun : Type 0 where
  pub stream : List StreamItem
  pub raised : Option String
  pub snapshot : Result String Snapshot

-- _TOKEN_SKIP_NODES
abbrev pub token_skip_nodes : List String
token_skip_nodes =
    "supervisor" ∷ "input_guardrails" ∷ "load_customer_context" ∷ "output_guardrails" ∷ "resolution"
    ∷ []

abbrev part_text : Part → String
part_text (plain s) = s
part_text (typed kind s) = if kind == "text" then s else ""

abbrev parts_text : List Part → String
parts_text [] = ""
parts_text (p ∷ ps) = part_text p ⁀ parts_text ps

abbrev content_text : Content → String
content_text (text_content s) = s
content_text (parts ps) = parts_text ps
content_text no_content = ""

-- `_token_text`
unfoldable pub token_text : Chunk → String
token_text chunk =
    if one_of chunk.node token_skip_nodes
    then ""
    else if not chunk.is_chunk || chunk.has_tool_calls
    then ""
    else content_text chunk.content

abbrev name_of : Option Value → List String
name_of (some (str s)) = if nonempty s then s ∷ [] else []
name_of _ = []

abbrev result_names : Items → List String
result_names nil = []
result_names (cons (obj d) vs) = name_of (get d "tool") ++ result_names vs
result_names (cons v vs) = result_names vs

abbrev payload_names : Value → List String
payload_names (obj d) = elim (get d "tool_results") [ some (arr vs) ↦ result_names vs | _ ↦ [] ]
payload_names _ = []

-- `_tool_names`
unfoldable pub tool_names_of : List (String × Value) → List String
tool_names_of [] = []
tool_names_of ((node, payload) ∷ update) = payload_names payload ++ tool_names_of update

abbrev node_names : List (String × Value) → List String
node_names [] = []
node_names ((node, payload) ∷ update) = node ∷ node_names update

abbrev pub tool_packets : List String → List Packet
tool_packets [] = []
tool_packets (name ∷ names) =
    record {
      event = "tool";
      body = obj (field "name" (str name) (field "status" (str "done") end));
    }
    ∷ tool_packets names

abbrev pub token_packet : String → List Packet
token_packet token =
    if nonempty token
    then record { event = "token"; body = obj (field "text" (str token) end) } ∷ []
    else []

abbrev pub item_packets : StreamItem → List Packet
item_packets (updates update) =
    record { event = "status"; body = obj (field "nodes" (arr (texts (node_names update))) end) }
    ∷ tool_packets (tool_names_of update)
item_packets (messages chunk) = token_packet (token_text chunk)
item_packets (callback k) = []

unfoldable pub stream_packets : List StreamItem → List Packet
unfolding tool_names_of token_text
stream_packets [] = []
stream_packets (item ∷ items) = item_packets item ++ stream_packets items

abbrev pub error_packets : Option String → List Packet
error_packets none = []
error_packets (some error) =
    record { event = "error"; body = obj (field "error" (str error) end) } ∷ []

abbrev key_or_null : Uuids → Option ℕ → Value
key_or_null u none = null
key_or_null u (some k) = str (u.text k)

-- `message_to_response(message).model_dump(mode="json")`
unfoldable pub message_payload : Uuids → TicketMessage → Value
message_payload u m = obj (
    field "id" (str (u.text m.id)) (
      field "ticket_id" (str (u.text m.ticket_id)) (
        field "role" (str (role_value m.role)) (
          field "content" (str m.content) (
            field "agent_run_id" (key_or_null u m.agent_run_id)
              (field "created_at" (instant m.created_at) end))))))

abbrev pub message_packet : Uuids → TicketMessage → Packet
message_packet u m = record { event = "message"; body = message_payload u m }
