-- ===== src/Services/Chat/Runner.antt =====
-- `snapshot_to_result` of app/services/graph_runner.py and `_snapshot_or_error`.
use ai_customer_support_plat.Prelude.{
  Bool, List, Option, Result, String, [], fail, false, if◌then◌else◌, none, nonempty, ok, some,
  true, ◌∷◌,
}
use ai_customer_support_plat.Value.{
  Fields, Items, Value, arr, bool, cons, end, field, get, nil, put, str, truthy, value_or_null,
}
use ai_customer_support_plat.Services.Tickets.Persist.{extract_interrupt_payload}
use ai_customer_support_plat.Services.Chat.{Snapshot, StreamItem, callback, messages, updates}
use ai_customer_support_plat.Observability.Trace.{Recorder, on_callback, record_graph_update}

abbrev draft_from : Option Value → Value
draft_from v = if truthy v then value_or_null v else str ""

abbrev with_draft : Option Fields → Fields → Fields
with_draft (some (field k v p)) values =
    if truthy (get values "draft_answer")
    then values
    else put values "draft_answer" (draft_from (get (field k v p) "draft_answer"))
with_draft _ values = values

abbrev flagged_human : Fields → Fields
flagged_human values =
    if truthy (get values "needs_human") then values else put values "needs_human" (bool true)

abbrev interrupted : Items → Fields → Fields
interrupted nil values = values
interrupted (cons v vs) values =
    let marked = flagged_human (put values "__interrupt__" (arr (cons v vs))) in
    with_draft (extract_interrupt_payload marked) marked

unfoldable pub snapshot_to_result : Snapshot → Fields
snapshot_to_result s = interrupted s.interrupts s.values

abbrev pub failed_result : String → Fields
failed_result answer = field "draft_answer" (str answer) (field "needs_human" (bool false) end)

abbrev read_snapshot : Result String Snapshot → Fields
read_snapshot (fail e) = failed_result "Stream completed without snapshot."
read_snapshot (ok s) = snapshot_to_result s

-- `_snapshot_or_error`
unfoldable pub snapshot_or_error : Result String Snapshot → Option String → Fields
unfolding snapshot_to_result
snapshot_or_error s none = read_snapshot s
snapshot_or_error s (some error) = if nonempty error then failed_result error else read_snapshot s

abbrev record_item : StreamItem → Recorder → Recorder
record_item (updates update) r = record_graph_update update r
record_item (messages chunk) r = r
record_item (callback k) r = on_callback k r

-- what the recorder has buffered at the end of a stream
unfoldable pub record_stream : List StreamItem → Recorder → Recorder
record_stream [] r = r
record_stream (item ∷ items) r = record_stream items (record_item item r)

-- `_graph_is_interrupted`
unfoldable pub graph_is_interrupted : Result String Snapshot → Bool
unfolding snapshot_to_result
graph_is_interrupted (fail e) = false
graph_is_interrupted (ok s) = truthy (get (snapshot_to_result s) "__interrupt__")
