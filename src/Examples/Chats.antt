-- ===== src/Examples/Chats.antt =====
-- Runs of the live chat.
use ai_customer_support_plat.Value.{arr, cons, end, field, get, nil, obj, str}
use ai_customer_support_plat.Services.Chat.{
  GraphRun, Snapshot, messages, parts, plain, stream_packets, token_text, tool_names_of, typed,
  updates,
}
use ai_customer_support_plat.Prelude.{[], fail, false, refl, some, true, ◌∷◌, ◌≡◌}

-- a run that looks an order up, says a word and fails
abbrev pub failing_run : GraphRun
failing_run = record {
  stream =
      updates (
        (
          "billing",
          obj (
              field "tool_results" (arr (cons (obj (field "tool" (str "get_order") end)) nil)) end),
        )
        ∷ [])
      ∷ messages (record {
        node = "billing";
        is_chunk = true;
        has_tool_calls = false;
        content = parts (plain "one " ∷ typed "text" "moment" ∷ typed "image" "" ∷ []);
      })
      ∷ [];
  raised = some "timeout";
  snapshot = fail "timeout";
}

-- the texts of what a client sees of it
failing_run_events :
    stream_packets failing_run.stream
    ≡ record { event = "status"; body = obj (field "nodes" (arr (cons (str "billing") nil)) end) }
      ∷ record {
        event = "tool";
        body = obj (field "name" (str "get_order") (field "status" (str "done") end));
      }
      ∷ record { event = "token"; body = obj (field "text" (str "one moment") end) }
      ∷ []
unfolding stream_packets tool_names_of token_text get
failing_run_events = refl

-- a checkpoint that waits for a human
abbrev waiting_snapshot : Snapshot
waiting_snapshot = record {
  values = end;
  interrupts = cons (obj (field "draft_answer" (str "a specialist will help.") end)) nil;
}
