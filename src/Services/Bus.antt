-- ===== src/Services/Bus.antt =====
-- app/services/chat_bus.py: the events of a ticket on their way through Redis. The `json` module and
-- the broker are third parties'; what `get_message` returns, call by call, is given.
use ai_customer_support_plat.Value.{Fields, Value, end, field, instant, obj, str}
use ai_customer_support_plat.Services.Chat.{Packet}
use ai_customer_support_plat.Prelude.{List, Option, String, [], none, some, ℕ, ◌++◌, ◌⁀◌, ◌∷◌}

-- json.dumps and json.loads, which raises on a text that is no JSON
pub record Json : Type 0 where
  pub dumps : Value → String
  pub loads : String → Option Value

-- `ticket_channel`
unfoldable ticket_channel : String → String
ticket_channel ticket_id = "ticket:" ⁀ ticket_id ⁀ ":events"

abbrev pub event_fields : Packet → Fields
event_fields p = field "event" (str p.event) (field "data" p.body end)

-- `encode_chat_event`
unfoldable pub encode_chat_event : Json → Packet → String
encode_chat_event j p = j.dumps (obj (event_fields p))

abbrev invalid_event : Fields
invalid_event =
    field "event" (str "error") (field "data" (obj (field "error" (str "invalid event") end)) end)

abbrev parsed_event : Value → Fields
parsed_event (obj d) = d
parsed_event _ = invalid_event

abbrev parsed : Option Value → Option Fields
parsed none = none
parsed (some v) = some (parsed_event v)

-- `decode_chat_event`, none where it raises
unfoldable pub decode_chat_event : Json → String → Option Fields
decode_chat_event j payload = parsed (j.loads payload)

-- The data of a message: a text, bytes with their text in UTF-8, or something else.
pub data Raw : Type 0 where
  text_data bytes_data : String → Raw
  other_data : Raw

-- What a call of `get_message` returns, with the time when it has waited for nothing.
pub data Got : Type 0 where
  idle : ℕ → Got
  message : Raw → Got

abbrev pub heartbeat : ℕ → Fields
heartbeat now =
    field "event" (str "heartbeat") (field "data" (obj (field "ts" (instant now) end)) end)

abbrev decoded : Option Fields → List Fields
decoded none = []
decoded (some event) = event ∷ []

abbrev events_in : Json → Raw → List Fields
events_in j (text_data s) = decoded (decode_chat_event j s)
events_in j (bytes_data s) = decoded (decode_chat_event j s)
events_in j other_data = []

-- `subscribe_ticket_events`, over the calls until the subscriber closes
unfoldable pub subscribe_ticket_events : Json → List Got → List Fields
subscribe_ticket_events j [] = []
subscribe_ticket_events j (idle now ∷ gots) = heartbeat now ∷ subscribe_ticket_events j gots
subscribe_ticket_events j (message raw ∷ gots) = events_in j raw ++ subscribe_ticket_events j gots
