-- ===== src/Services/Chat/Packets.antt =====
-- What the packets of a turn tell, and what a run of the graph leaves to persist.
use mathlib.Core.Option.{some-injective}
use ai_customer_support_plat.Prelude.{
  List, Option, Result, String, [], ap, fail, inl, inr, none, ok, refl, some, sym, ◌++◌, ◌∙◌, ◌∷◌,
  ◌≡◌, ◌≢◌, ◌⊎◌,
}
use ai_customer_support_plat.Value.{Fields, bool, end, field, get, obj, str}
use ai_customer_support_plat.Tools.Database.{Uuids}
use ai_customer_support_plat.Services.Tickets.{
  Desk, TicketMessage, TicketMessageRole, assistant, customer, human_agent, system,
}
use ai_customer_support_plat.Services.Tickets.Messages.{last_message}
use ai_customer_support_plat.Services.Tickets.Persist.{ResolutionResponse}
use ai_customer_support_plat.Services.Tickets.Answers.{full_text}
use ai_customer_support_plat.Services.Chat.{
  GraphRun, Packet, Snapshot, error_packets, message_packet,
}
use ai_customer_support_plat.Services.Chat.Runner.{
  failed_result, snapshot_or_error, snapshot_to_result,
}
use ai_customer_support_plat.Services.Chat.Customer.{
  assistant_packets, closing_packets, response_done,
}
use ai_customer_support_plat.Services.Chat.Human.{from_snapshot, invoked}

-- The packet of the error that a run has raised.
pub data Failing : Option String → List Packet → Type 0 where
  no_failure : Failing none []
  failing :
      (error : String) (p : Packet)
      → p.event ≡ "error"
      → p.body ≡ obj (field "error" (str error) end)
      → Failing (some error) (p ∷ [])

-- The last message of the conversation, if it is the assistant's.
pub data Spoken (u : Uuids) (d : Desk) : List Packet → Type 0 where
  spoken :
      (m : TicketMessage)
      → last_message d ≡ some m
      → m.role ≡ assistant
      → Spoken u d (message_packet u m ∷ [])
  unspoken : ((m : TicketMessage) → last_message d ≡ some m → m.role ≢ assistant) → Spoken u d []

-- a `done` packet that tells the response
pub record Tells (u : Uuids) (r : ResolutionResponse) (p : Packet) : Type 0 where
  pub named_done : p.event ≡ "done"
  pub told : Fields
  pub body_told : p.body ≡ obj told
  pub its_ticket : get told "ticket_id" ≡ some (str (u.text r.ticket_id))
  pub its_run : get told "run_id" ≡ some (str (u.text r.run_id))
  pub its_answer : get told "answer" ≡ some (str r.answer)
  pub its_escalation : get told "escalated" ≡ some (bool r.escalated)
  pub its_wait : get told "awaiting_human" ≡ some (bool r.awaiting_human)

-- How a turn ends: with the assistant's message, if it is the last one, and `done`.
pub data Ends (u : Uuids) (r : ResolutionResponse) (d : Desk) : List Packet → Type 0 where
  ends :
      (said : List Packet) (p : Packet)
      → Spoken u d said
      → Tells u r p
      → Ends u r d (said ++ p ∷ [])

pub error_packets-Failing : (raised : Option String) → Failing raised (error_packets raised)
error_packets-Failing none = no_failure
error_packets-Failing (some error) = failing error _ refl refl

module _ (u : Uuids) where
  assistant_packets-Spoken : (d : Desk) → Spoken u d (assistant_packets u (last_message d))
  assistant_packets-Spoken d = go (last_message d) refl
    where
      other_role :
          (m : TicketMessage)
          → last_message d ≡ some m
          → m.role ≢ assistant
          → (n : TicketMessage) → last_message d ≡ some n
          → n.role ≢ assistant
      other_role m e k n f h = k (ap (λ x. x.role) (some-injective m n (sym e ∙ f)) ∙ h)

      by_role :
          (m : TicketMessage)
          → last_message d ≡ some m
          → (role : TicketMessageRole) → m.role ≡ role
          → Spoken u d (elim role [ assistant ↦ message_packet u m ∷ [] | _ ↦ [] ])
      by_role m e assistant h = spoken m e h
      by_role m e customer h = unspoken (other_role m e (λ k. cc))
      by_role m e human_agent h = unspoken (other_role m e (λ k. cc))
      by_role m e system h = unspoken (other_role m e (λ k. cc))

      go : (o : Option TicketMessage) → last_message d ≡ o → Spoken u d (assistant_packets u o)
      go none e = unspoken (λ m f. cc)
      go (some m) e = by_role m e m.role refl

  pub closing_packets-Ends :
      (r : ResolutionResponse) (d : Desk) → Ends u r d (closing_packets u r d)
  unfolding response_done get
  closing_packets-Ends r d = ends _ _ (assistant_packets-Spoken d) (record {
    named_done = refl;
    told = _;
    body_told = refl;
    its_ticket = refl;
    its_run = refl;
    its_answer = refl;
    its_escalation = refl;
    its_wait = refl;
  })

-- What is persisted after a customer's turn: the error that the run has raised, unless its text is
-- empty; else the checkpoint, or that there is none.
pub data Left (run : GraphRun) : Fields → Type 0 where
  error_left : (e : String) → run.raised ≡ some e → e ≢ "" → Left run (failed_result e)
  values_left :
      (s : Snapshot)
      → (run.raised ≡ none) ⊎ (run.raised ≡ some "")
      → run.snapshot ≡ ok s
      → Left run (snapshot_to_result s)
  nothing_left :
      (e : String)
      → (run.raised ≡ none) ⊎ (run.raised ≡ some "")
      → run.snapshot ≡ fail e
      → Left run (failed_result "Stream completed without snapshot.")

pub snapshot_or_error-Left : (run : GraphRun) → Left run (snapshot_or_error run.snapshot run.raised)
unfolding snapshot_or_error snapshot_to_result
snapshot_or_error-Left run = go run.raised refl
  where
    kept :
        (run.raised ≡ none) ⊎ (run.raised ≡ some "")
        → (s : Result String Snapshot) → run.snapshot ≡ s
        → Left run (snapshot_or_error s none)
    kept h (fail e) k = nothing_left e h k
    kept h (ok s) k = values_left s h k

    go : (o : Option String) → run.raised ≡ o → Left run (snapshot_or_error run.snapshot o)
    go none e = kept (inl e) run.snapshot refl
    go (some String.[]) e = kept (inr e) run.snapshot refl
    go (some (String.◌∷◌ c s)) e = error_left (String.◌∷◌ c s) e (full_text (String.◌∷◌ c s) refl)

-- What is persisted after a resumed run, with its error: the error that the run has raised, or that of
-- reading the checkpoint; else the checkpoint.
pub data Resumed (run : GraphRun) : Fields → Option String → Type 0 where
  error_resumed : (e : String) → run.raised ≡ some e → Resumed run (failed_result e) (some e)
  unread :
      (e : String)
      → run.raised ≡ none
      → run.snapshot ≡ fail e
      → Resumed run (failed_result e) (some e)
  values_resumed :
      (s : Snapshot)
      → run.raised ≡ none
      → run.snapshot ≡ ok s
      → Resumed run (snapshot_to_result s) none

abbrev Resumption : GraphRun → Fields × Option String → Type 0
Resumption run x = Resumed run x.0 x.1

pub invoked-Resumed : (run : GraphRun) → Resumed run (invoked run).0 (invoked run).1
unfolding invoked snapshot_to_result
invoked-Resumed run = go run.raised refl
  where
    from :
        run.raised ≡ none
        → (s : Result String Snapshot) → run.snapshot ≡ s
        → Resumption run (from_snapshot s)
    from h (fail e) k = unread e h k
    from h (ok s) k = values_resumed s h k

    go :
        (o : Option String)
        → run.raised ≡ o
        → Resumption run (elim o [
          | some error ↦ (failed_result error, some error)
          | none ↦ from_snapshot run.snapshot
        ])
    go none e = from e run.snapshot refl
    go (some error) e = error_resumed error e
