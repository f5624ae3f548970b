-- ===== src/Services/Chat/Order.antt =====
-- The order of the packets of a chat turn.
use ai_customer_support_plat.Tools.Database.{Uuids}
use ai_customer_support_plat.Prelude.{
  Bool, List, Option, String, [], false, none, refl, some, true, ◌++◌, ◌==◌, ◌∷◌, ◌≡◌,
}
use ai_customer_support_plat.Services.Tickets.{
  Desk, TicketMessage, TicketMessageRole, assistant, customer, human_agent, system,
}
use ai_customer_support_plat.Services.Tickets.Messages.{last_message}
use ai_customer_support_plat.Services.Tickets.Persist.{ResolutionResponse}
use ai_customer_support_plat.Services.Chat.{
  GraphRun, Packet, StreamItem, callback, error_packets, item_packets, message_packet, messages,
  stream_packets, token_packet, token_text, tool_names_of, tool_packets, updates,
}
use ai_customer_support_plat.Services.Chat.Customer.{
  assistant_packets, closing_packets, response_done,
}

-- the packet that ends a turn
abbrev pub is_done : Packet → Bool
is_done p = p.event == "done"

-- The packets end in a `done` packet, the only one among them.
pub data Closes : List Packet → Type 0 where
  last_ : (p : Packet) → is_done p ≡ true → Closes (p ∷ [])
  before_ : (p : Packet) (ps : List Packet) → is_done p ≡ false → Closes ps → Closes (p ∷ ps)

pub data GoesOn : List Packet → Type 0 where
  nothing : GoesOn []
  more : (p : Packet) (ps : List Packet) → is_done p ≡ false → GoesOn ps → GoesOn (p ∷ ps)

GoesOn-append : (ps qs : List Packet) → GoesOn ps → GoesOn qs → GoesOn (ps ++ qs)
GoesOn-append _ qs nothing k = k
GoesOn-append _ qs (more p ps e h) k = more p (ps ++ qs) e (GoesOn-append ps qs h k)

pub Closes-append : (ps qs : List Packet) → GoesOn ps → Closes qs → Closes (ps ++ qs)
Closes-append _ qs nothing k = k
Closes-append _ qs (more p ps e h) k = before_ p (ps ++ qs) e (Closes-append ps qs h k)

tool_packets-GoesOn : (names : List String) → GoesOn (tool_packets names)
tool_packets-GoesOn [] = nothing
tool_packets-GoesOn (name ∷ names) = more _ _ refl (tool_packets-GoesOn names)

token_packet-GoesOn : (token : String) → GoesOn (token_packet token)
token_packet-GoesOn String.[] = nothing
token_packet-GoesOn (String.◌∷◌ c s) = more _ _ refl nothing

item_packets-GoesOn : (item : StreamItem) → GoesOn (item_packets item)
item_packets-GoesOn (updates update) = more _ _ refl (tool_packets-GoesOn (tool_names_of update))
item_packets-GoesOn (messages chunk) = token_packet-GoesOn (token_text chunk)
item_packets-GoesOn (callback k) = nothing

stream_packets-GoesOn : (items : List StreamItem) → GoesOn (stream_packets items)
unfolding stream_packets
stream_packets-GoesOn [] = nothing
stream_packets-GoesOn (item ∷ items) =
    GoesOn-append (item_packets item) (stream_packets items) (item_packets-GoesOn item)
      (stream_packets-GoesOn items)

error_packets-GoesOn : (raised : Option String) → GoesOn (error_packets raised)
error_packets-GoesOn none = nothing
error_packets-GoesOn (some error) = more _ _ refl nothing

-- what the graph's part of a turn sends before its answer
pub streamed-GoesOn :
    (run : GraphRun) → GoesOn (stream_packets run.stream ++ error_packets run.raised)
streamed-GoesOn run =
    GoesOn-append (stream_packets run.stream) (error_packets run.raised)
      (stream_packets-GoesOn run.stream) (error_packets-GoesOn run.raised)

assistant_packets-GoesOn : (u : Uuids) (m : Option TicketMessage) → GoesOn (assistant_packets u m)
assistant_packets-GoesOn u none = nothing
assistant_packets-GoesOn u (some m) = go m.role
  where
    go :
        (role : TicketMessageRole)
        → GoesOn (elim role [ assistant ↦ message_packet u m ∷ [] | _ ↦ [] ])
    go customer = nothing
    go assistant = more (message_packet u m) [] refl nothing
    go human_agent = nothing
    go system = nothing

pub closing_packets-Closes :
    (u : Uuids) (r : ResolutionResponse) (d : Desk) → Closes (closing_packets u r d)
unfolding response_done
closing_packets-Closes u r d =
    Closes-append (assistant_packets u (last_message d)) (response_done u r ∷ [])
      (assistant_packets-GoesOn u (last_message d)) (last_ (response_done u r) refl)
