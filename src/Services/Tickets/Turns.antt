-- ===== src/Services/Tickets/Turns.antt =====
-- What `persist_graph_result` leaves behind.
use mathlib.Core.Path.{subst}
use ai_customer_support_plat.Value.{Fields, Value}
use ai_customer_support_plat.Services.Tickets.Messages.{
  append_message, last_message, new_message, should_persist_assistant_message, with_message,
}
use ai_customer_support_plat.Services.Tickets.Persist.{
  ResolutionResponse, counted, is_given, needs_human_of, next_status, persist_graph_result,
  record_run, response_of, run_status, say, upserted,
}
use ai_customer_support_plat.Observability.Trace.{Recorder}
use ai_customer_support_plat.Security.Patterns.{Unicode}
use ai_customer_support_plat.Services.Tickets.Outcomes.{
  Appended, Kept, Kept-last, Kept-refl, append_message-Appended, appended, nonempty_apart, refused,
}
use ai_customer_support_plat.Services.Tickets.Answers.{
  AnswerIs, Dated, Repeats, answer_of-AnswerIs, first_time-Dated, persisted_if, unpersisted,
}
use ai_customer_support_plat.Services.Tickets.{
  AgentRun, AgentRunStatus, Desk, Failure, Resolution, Ticket, TicketMessage, TicketStatus,
  assistant, awaiting_human, closed, completed, escalated, failed, in_progress, open_, resolved,
}
use ai_customer_support_plat.Prelude.{
  Bool, List, Option, Result, String, [], and_parts, false, get_last?, if◌then◌else◌, none,
  nonempty, ok, refl, some, strip, sym, true, ℕ, ◌++◌, ◌>>=◌, ◌∷◌, ◌≡◌, ◌≢◌, ◌⊎◌,
}
use ai_customer_support_plat.Tools.Database.{Uuids}

-- the status after a turn
pub data StatusAfter (escalates failed_ : Bool) (old : TicketStatus) : TicketStatus → Type 0 where
  escalation : escalates ≡ true → StatusAfter escalates failed_ old escalated
  failure : escalates ≡ false → failed_ ≡ true → StatusAfter escalates failed_ old open_
  archived :
      escalates ≡ false → failed_ ≡ false → old ≡ closed → StatusAfter escalates failed_ old closed
  talking :
      escalates ≡ false
      → failed_ ≡ false
      → old ≢ closed
      → StatusAfter escalates failed_ old in_progress

next_status-StatusAfter :
    (escalates failed_ : Bool) (old : TicketStatus)
    → StatusAfter escalates failed_ old (next_status escalates failed_ old)
next_status-StatusAfter true f old = escalation refl
next_status-StatusAfter false true old = failure refl refl
next_status-StatusAfter false false closed = archived refl refl refl
next_status-StatusAfter false false open_ = talking refl refl (λ e. cc)
next_status-StatusAfter false false in_progress = talking refl refl (λ e. cc)
next_status-StatusAfter false false resolved = talking refl refl (λ e. cc)
next_status-StatusAfter false false escalated = talking refl refl (λ e. cc)

-- The conversation after an answer: no second bubble for a text that is there already, and else one
-- more message of the assistant.
pub data Bubble (answer : String) (id : ℕ) (ms ms' : List TicketMessage) : Type 0 where
  kept : (strip answer ≡ "") ⊎ Repeats answer (get_last? ms) → ms' ≡ ms → Bubble answer id ms ms'
  added :
      (m : TicketMessage)
      → strip answer ≢ ""
      → (Repeats answer (get_last? ms) → ⊥)
      → m.role ≡ assistant
      → m.content ≡ answer
      → m.ticket_id ≡ id
      → ms' ≡ ms ++ m ∷ []
      → Bubble answer id ms ms'

data Said (u : Uuids) (answer : String) (run_id : ℕ) (d : Desk) : Result Failure Desk → Type 0 where
  quiet :
      should_persist_assistant_message (last_message d) answer ≡ false
      → Said u answer run_id d (ok d)
  spoke :
      (t : Ticket)
      → should_persist_assistant_message (last_message d) answer ≡ true
      → Kept d.ticket t
      → Said u answer run_id d
          (ok (with_message u (new_message u assistant answer (some run_id) none d) t d))

persisted_text :
    (last : Option TicketMessage) (answer : String)
    → should_persist_assistant_message last answer ≡ true
    → nonempty (strip answer) ≡ true
unfolding should_persist_assistant_message
persisted_text last answer h = (and_parts _ _ h).0

say-Said :
    (u : Uuids) (answer : String) (run_id : ℕ) (d : Desk)
    → Said u answer run_id d (say u answer run_id d)
say-Said u answer run_id d =
    go (should_persist_assistant_message (last_message d) answer) refl
      (append_message u assistant answer (some run_id) none d)
      (append_message-Appended u assistant answer (some run_id) none d)
  where
    go :
        (b : Bool)
        → should_persist_assistant_message (last_message d) answer ≡ b
        → (r : Result Failure (TicketMessage × Desk))
        → Appended u assistant answer (some run_id) none d r
        → Said u answer run_id d (if b then (r >>= λ p. ok p.1) else ok d)
    go false e r a = quiet e
    go true e _ (appended t k h) = spoke t e k
    go true e _ (refused n x y) =
        absurd (nonempty_apart (strip answer) (persisted_text (last_message d) answer e) x)

-- the status of a run
pub data RunStatusAfter (failed_ awaiting : Bool) : AgentRunStatus → Type 0 where
  broken_run : failed_ ≡ true → RunStatusAfter failed_ awaiting failed
  paused_run : failed_ ≡ false → awaiting ≡ true → RunStatusAfter failed_ awaiting awaiting_human
  whole_run : failed_ ≡ false → awaiting ≡ false → RunStatusAfter failed_ awaiting completed

run_status-RunStatusAfter : (f a : Bool) → RunStatusAfter f a (run_status f a)
run_status-RunStatusAfter true a = broken_run refl
run_status-RunStatusAfter false true = paused_run refl refl
run_status-RunStatusAfter false false = whole_run refl refl

-- What the turn of a graph leaves behind.
pub record Persisted (unicode : Unicode) (result : Fields) (error : Option String) (d : Desk)
    (r : ResolutionResponse) (d' : Desk) : Type 0 where
  pub same_ticket : d'.ticket.id ≡ d.ticket.id
  pub same_customer : d'.ticket.customer_id ≡ d.ticket.customer_id
  pub status : StatusAfter (needs_human_of result) (is_given error) d.ticket.status d'.ticket.status
  pub since : Dated (needs_human_of result) d.now d.ticket.escalated_at d'.ticket.escalated_at
  pub says_ : AnswerIs unicode result error (needs_human_of result) r.answer
  pub answered :
      (row : Resolution) × ((d'.resolution ≡ some row)
        × ((row.answer ≡ r.answer) × (row.escalated ≡ needs_human_of result)))
  pub bubble : Bubble r.answer d.ticket.id d.messages d'.messages
  pub ran :
      (run : AgentRun) × ((d'.runs ≡ d.runs ++ run ∷ [])
        × ((run.id ≡ r.run_id) × RunStatusAfter (is_given error) r.awaiting_human run.status))

upserted_lem :
    (id : ℕ) (answer : String) (escalates : Bool) (confidence : Value) (old : Option Resolution)
    → ((upserted id answer escalates confidence old).answer ≡ answer)
      × ((upserted id answer escalates confidence old).escalated ≡ escalates)
upserted_lem id answer escalates confidence none = (refl, refl)
upserted_lem id answer escalates confidence (some r) = (refl, refl)

module _ (u : Uuids) (unicode : Unicode) (result : Fields) (recorder : Recorder) (latency_ms : ℕ)
    (error : Option String) (d : Desk) where
  -- the rows of the run, before the answer is said
  abbrev base : Desk
  base = (record_run u unicode result recorder latency_ms error d).1

  abbrev response : ResolutionResponse
  response =
      response_of u unicode result error d
        (record_run u unicode result recorder latency_ms error d).0

  abbrev finished : Desk → Result Failure (ResolutionResponse × Desk)
  finished answered = ok (response, counted (needs_human_of result) answered)

  said-Persisted :
      (d' : Desk)
      → Kept base.ticket d'.ticket
      → d'.resolution ≡ base.resolution
      → d'.runs ≡ base.runs
      → Bubble response.answer d.ticket.id base.messages d'.messages
      → Persisted unicode result error d response d'
  unfolding record_run
  said-Persisted d' k x y b = record {
    same_ticket = k.id_kept;
    same_customer = k.owner_kept;
    status =
        subst (StatusAfter (needs_human_of result) (is_given error) d.ticket.status)
          (sym k.status_kept)
          (next_status-StatusAfter (needs_human_of result) (is_given error) d.ticket.status);
    since =
        subst (Dated (needs_human_of result) d.now d.ticket.escalated_at) (sym k.since_kept)
          (first_time-Dated (needs_human_of result) d.now d.ticket.escalated_at);
    says_ = answer_of-AnswerIs result error unicode;
    answered = (upserted d.ticket.id _ _ _ d.resolution, (x, upserted_lem _ _ _ _ d.resolution));
    bubble = b;
    ran = (_, (y, (refl, run_status-RunStatusAfter (is_given error) response.awaiting_human)));
  }

  own_message : base.ticket.id ≡ d.ticket.id
  unfolding record_run
  own_message = refl

  -- Persisting a turn never fails. It ends in the status that the result calls for, and dates the
  -- first escalation with the clock. The answer is the cleaned draft, or what stands for it; it is
  -- stored as the ticket's resolution, and added to the conversation unless it is blank or the last
  -- bubble says the same. One run is added, with the status of its end.
  pub persist_graph_result-Persisted :
      (r : ResolutionResponse) × ((d' : Desk) × ((persist_graph_result u unicode result recorder
              latency_ms error d
            ≡ ok (r, d'))
          × Persisted unicode result error d r d'))
  unfolding persist_graph_result
  persist_graph_result-Persisted =
      go (say u response.answer response.run_id base)
        (say-Said u response.answer response.run_id base)
    where
      go :
          (s : Result Failure Desk)
          → Said u response.answer response.run_id base s
          → (r : ResolutionResponse) × ((d' : Desk) × (((s >>= finished) ≡ ok (r, d'))
                × Persisted unicode result error d r d'))
      go _ (quiet e) = (
        response,
        (
          counted (needs_human_of result) base,
          (
            refl,
            said-Persisted (counted (needs_human_of result) base) (Kept-refl base.ticket) refl refl
                (kept (unpersisted (last_message base) response.answer e) refl),
          ),
        ),
      )
      go _ (spoke t e k) = (
        response,
        (
          _,
          (
            refl,
            said-Persisted
                (counted (needs_human_of result) (
                  with_message u
                    (new_message u assistant response.answer (some response.run_id) none base) t
                    base))
                (Kept-last k) refl refl
                (added _ (persisted_if (last_message base) response.answer e).0
                  (persisted_if (last_message base) response.answer e).1 refl refl own_message
                  refl),
          ),
        ),
      )
