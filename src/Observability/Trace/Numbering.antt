-- ===== src/Observability/Trace/Numbering.antt =====
-- The sequence numbers of the buffered events.
use ai_customer_support_plat.Prelude.{
  Bool, List, Option, String, [], ap, arith, false, if◌then◌else◌, none, nonempty, one_of, refl,
  some, suc, sym, true, zero, ℕ, ◌++◌, ◌+◌, ◌==◌, ◌∙◌, ◌∷◌, ◌≡◌,
}
use ai_customer_support_plat.Value.{Value, arr, end, field, num, obj, str, texts}
use ai_customer_support_plat.Agents.Messages.{ToolResult}
use ai_customer_support_plat.Observability.Trace.{
  BufferedEvent, Callback, EventType, Recorder, add_event, backfill, chain_error, ended,
  first_three, graph_update, guardrail, llm, llm_end, llm_error, llm_start, new_recorder, node,
  on_callback, or_same, patch_here, patch_in, patch_last, record_graph_update, retrieval,
  retriever_end, retriever_start, same_type, started, tool_end, tool_error, tool_names,
  tool_results, tool_start,
}

abbrev pub sequences : List BufferedEvent → List ℕ
sequences [] = []
sequences (e ∷ es) = e.sequence ∷ sequences es

-- n, n + 1, …, k numbers in all
unfoldable pub count_up : ℕ → ℕ → List ℕ
count_up n zero = []
count_up n (suc k) = n ∷ count_up (n + 1) k

-- The events carry the numbers 1, 2, … up to the counter, in their order.
pub record IsNumbered (r : Recorder) : Type 0 where
  pub numbers : sequences r.events ≡ count_up 1 r.sequence

count_up-suc : (n k : ℕ) → count_up n (suc k) ≡ count_up n k ++ (n + k) ∷ []
unfolding count_up
count_up-suc n zero = ap (λ (m : ℕ). m ∷ []) (omega arith)
count_up-suc n (suc k) =
    ap (λ t. n ∷ t)
      (count_up-suc (n + 1) k ∙ ap (λ (m : ℕ). count_up (n + 1) k ++ m ∷ []) (omega arith))

sequences-append :
    (es : List BufferedEvent) (e : BufferedEvent)
    → sequences (es ++ e ∷ []) ≡ sequences es ++ e.sequence ∷ []
sequences-append [] e = refl
sequences-append (x ∷ es) e = ap (λ t. x.sequence ∷ t) (sequences-append es e)

add_event-IsNumbered :
    (ty : EventType) (name : String) (i o : Option Value) (e : Option String) (r : Recorder)
    → IsNumbered r
    → IsNumbered (add_event ty name i o e r)
unfolding add_event
add_event-IsNumbered ty name i o e r h = record {
  numbers =
      sequences-append r.events _
      ∙ (ap (λ t. t ++ (r.sequence + 1) ∷ []) h.numbers
          ∙ (ap (λ (m : ℕ). count_up 1 r.sequence ++ m ∷ []) (omega arith)
              ∙ (sym (count_up-suc 1 r.sequence) ∙ ap (λ (m : ℕ). count_up 1 m) (omega arith))));
}

record_graph_update-IsNumbered :
    (update : List (String × Value)) (r : Recorder)
    → IsNumbered r
    → IsNumbered (record_graph_update update r)
unfolding record_graph_update
record_graph_update-IsNumbered [] r h = h
record_graph_update-IsNumbered ((name, payload) ∷ update) r h =
    record_graph_update-IsNumbered update _ (go (name == "__interrupt__"))
  where
    go :
        (b : Bool)
        → IsNumbered (
            if b
            then add_event guardrail "interrupt" none (some payload) none r
            else add_event node name none (some payload) none r)
    go true = add_event-IsNumbered guardrail "interrupt" none (some payload) none r h
    go false = add_event-IsNumbered node name none (some payload) none r h

backfill-IsNumbered :
    (items : List ToolResult) (existing : List String) (r : Recorder)
    → IsNumbered r
    → IsNumbered (backfill items existing r)
unfolding backfill
backfill-IsNumbered [] existing r h = h
backfill-IsNumbered (item ∷ items) existing r h =
    let name : String = if nonempty item.tool_name then item.tool_name else "unknown" in
    backfill-IsNumbered items _ _ (go (one_of name existing) name)
  where
    go :
        (b : Bool) (name : String)
        → IsNumbered (if b then r else add_event EventType.tool name none (some item.result) none r)
    go true name = h
    go false name = add_event-IsNumbered EventType.tool name none (some item.result) none r h

-- A patch keeps the numbers.
sequences-patch_here :
    (ty : EventType) (change : BufferedEvent → BufferedEvent)
    → ((e : BufferedEvent) → (change e).sequence ≡ e.sequence)
    → (e : BufferedEvent) (es : List BufferedEvent) (m : Option (List BufferedEvent))
    → sequences (or_same es m) ≡ sequences es
    → sequences (or_same (e ∷ es) (patch_here ty change e es m)) ≡ sequences (e ∷ es)
sequences-patch_here ty change same e es (some es') h = ap (λ t. e.sequence ∷ t) h
sequences-patch_here ty change same e es none h = go (same_type e.event_type ty)
  where
    go :
        (b : Bool)
        → sequences (or_same (e ∷ es) (if b then some (change e ∷ es) else none))
          ≡ sequences (e ∷ es)
    go true = ap (λ n. n ∷ sequences es) (same e)
    go false = refl

sequences-patch_in :
    (ty : EventType) (change : BufferedEvent → BufferedEvent)
    → ((e : BufferedEvent) → (change e).sequence ≡ e.sequence)
    → (es : List BufferedEvent) → sequences (or_same es (patch_in ty change es)) ≡ sequences es
unfolding patch_in
sequences-patch_in ty change same [] = refl
sequences-patch_in ty change same (e ∷ es) =
    sequences-patch_here ty change same e es (patch_in ty change es)
      (sequences-patch_in ty change same es)

ended-IsNumbered :
    (ty : EventType) (o : Option Value) (e : Option String) (run_id : String) (now : ℕ)
    (r : Recorder)
    → IsNumbered r
    → IsNumbered (ended ty o e run_id now r)
unfolding ended patch_last
ended-IsNumbered ty o e run_id now r h = record {
  numbers = sequences-patch_in ty _ (λ x. refl) r.events ∙ h.numbers;
}

started-IsNumbered :
    (ty : EventType) (name : String) (i : Value) (run_id : String) (now : ℕ) (r : Recorder)
    → IsNumbered r
    → IsNumbered (started ty name i run_id now r)
unfolding started
started-IsNumbered ty name i run_id now r h =
    add_event-IsNumbered ty name (some i) none none _ (record { numbers = h.numbers })

on_callback-IsNumbered : (k : Callback) (r : Recorder) → IsNumbered r → IsNumbered (on_callback k r)
unfolding on_callback
on_callback-IsNumbered (llm_start name prompts run_id now) r h =
    started-IsNumbered llm name (obj (field "prompts" (arr (texts (first_three prompts))) end))
      run_id now r h
on_callback-IsNumbered (llm_end generations run_id now) r h =
    ended-IsNumbered llm (some (obj (field "generations" (arr (texts generations)) end))) none
      run_id now r h
on_callback-IsNumbered (llm_error error run_id now) r h =
    ended-IsNumbered llm none (some error) run_id now r h
on_callback-IsNumbered (tool_start name input_str run_id now) r h =
    started-IsNumbered EventType.tool name (obj (field "input" (str input_str) end)) run_id now r h
on_callback-IsNumbered (tool_end output run_id now) r h =
    ended-IsNumbered EventType.tool (some output) none run_id now r h
on_callback-IsNumbered (tool_error error run_id now) r h =
    ended-IsNumbered EventType.tool none (some error) run_id now r h
on_callback-IsNumbered (retriever_start name query run_id now) r h =
    started-IsNumbered retrieval name (obj (field "query" (str query) end)) run_id now r h
on_callback-IsNumbered (retriever_end count run_id now) r h =
    ended-IsNumbered retrieval (some (obj (field "document_count" (num count) end))) none run_id now
      r h
on_callback-IsNumbered (chain_error error) r h =
    add_event-IsNumbered node "chain_error" none none (some error) r h
on_callback-IsNumbered (graph_update update) r h = record_graph_update-IsNumbered update r h
on_callback-IsNumbered (tool_results items) r h =
    backfill-IsNumbered items (tool_names r.events) r h

-- all callbacks of a run, in their order
unfoldable pub replay : List Callback → Recorder → Recorder
replay [] r = r
replay (k ∷ ks) r = replay ks (on_callback k r)

-- Whatever callbacks a run makes, its events are numbered 1, 2, … without a gap, in the order in
-- which they were added: no patch and no backfill disturbs the numbers.
pub replay-IsNumbered :
    (ks : List Callback) (r : Recorder) → IsNumbered r → IsNumbered (replay ks r)
unfolding replay
replay-IsNumbered [] r h = h
replay-IsNumbered (k ∷ ks) r h =
    replay-IsNumbered ks (on_callback k r) (on_callback-IsNumbered k r h)

pub new_recorder-IsNumbered : IsNumbered new_recorder
unfolding count_up
new_recorder-IsNumbered = record { numbers = refl }
