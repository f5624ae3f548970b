-- ===== src/Services/Tickets/History.antt =====
-- The life of a conversation as steps of the service, and what holds after any of them.
use mathlib.Core.Path.{subst}
use ai_customer_support_plat.Value.{Fields}
use ai_customer_support_plat.Security.Patterns.{Unicode}
use ai_customer_support_plat.Observability.Trace.{Recorder}
use ai_customer_support_plat.Services.Tickets.{Desk, TicketMessage, TicketMessageRole, in_progress}
use ai_customer_support_plat.Services.Tickets.Messages.{append_message}
use ai_customer_support_plat.Services.Tickets.Persist.{ResolutionResponse, persist_graph_result}
use ai_customer_support_plat.Services.Tickets.Lifecycle.{
  assign_agent, close_ticket, confirm_resolution, set_status,
}
use ai_customer_support_plat.Services.Tickets.Turns.{persist_graph_result-Persisted}
use ai_customer_support_plat.Services.Tickets.Validity.{
  Continues, IsValid, Moved, Moved-quiet, Moved-refl, Moved-trans, Persisted-Moved,
  append_message-Moved, close_ticket-Moved, confirm_resolution-Moved, returned_desk,
}
use ai_customer_support_plat.Prelude.{Option, String, ok, refl, sym, ℕ, ◌∙◌, ◌≡◌}
use ai_customer_support_plat.Tools.Database.{Uuids}

-- A call that returns moves the conversation; a call that raises is rolled back. Time passes, and
-- the routes set a conversation in progress themselves.
pub data Step (u : Uuids) (unicode : Unicode) (d : Desk) : Desk → Type 0 where
  said :
      (role : TicketMessageRole) (content : String) (run : Option ℕ) (extra : Option Fields)
      (m : TicketMessage) (d' : Desk)
      → append_message u role content run extra d ≡ ok (m, d')
      → Step u unicode d d'
  answered_ :
      (result : Fields) (recorder : Recorder) (latency_ms : ℕ) (error : Option String)
      (r : ResolutionResponse) (d' : Desk)
      → persist_graph_result u unicode result recorder latency_ms error d ≡ ok (r, d')
      → Step u unicode d d'
  closed_ :
      (reason : Option String) (m : TicketMessage) (d' : Desk)
      → close_ticket u reason d ≡ ok (m, d')
      → Step u unicode d d'
  confirmed :
      (m : Option TicketMessage) (d' : Desk)
      → confirm_resolution u d ≡ ok (m, d')
      → Step u unicode d d'
  taken_over : (agent : String) → Step u unicode d (assign_agent agent d)
  resumed : Step u unicode d (set_status in_progress d)
  waited : (time : ℕ) → Step u unicode d (record d { now = time })

pub data Reach (u : Uuids) (unicode : Unicode) (d : Desk) : Desk → Type 0 where
  here : Reach u unicode d d
  next : (e f : Desk) → Reach u unicode d e → Step u unicode e f → Reach u unicode d f

Step-Moved : (u : Uuids) (unicode : Unicode) (d d' : Desk) → Step u unicode d d' → Moved d d'
Step-Moved u unicode d _ (said role content run extra m d' e) =
    subst (Moved d) (returned_desk d d' _ m e) (append_message-Moved u role content run extra d)
Step-Moved u unicode d _ (answered_ result recorder latency_ms error r d' e) =
    let (r0, (d0, (e0, p))) =
      persist_graph_result-Persisted u unicode result recorder latency_ms error d in
    subst (Moved d) (sym (returned_desk d d0 _ r0 e0) ∙ returned_desk d d' _ r e)
      (Persisted-Moved unicode result error d d0 r0 p)
Step-Moved u unicode d _ (closed_ reason m d' e) =
    subst (Moved d) (returned_desk d d' _ m e) (close_ticket-Moved u reason d)
Step-Moved u unicode d _ (confirmed m d' e) =
    subst (Moved d) (returned_desk d d' _ m e) (confirm_resolution-Moved u d)
Step-Moved u unicode d _ (taken_over agent) =
    unfold assign_agent in Moved-quiet d _ refl refl (λ v. v.queued)
Step-Moved u unicode d _ resumed = Moved-quiet d _ refl refl (λ v h. cc)
Step-Moved u unicode d _ (waited time) = Moved-quiet d _ refl refl (λ v. v.queued)

Reach-Moved : (u : Uuids) (unicode : Unicode) (d d' : Desk) → Reach u unicode d d' → Moved d d'
Reach-Moved u unicode d _ here = Moved-refl d
Reach-Moved u unicode d _ (next e f r s) =
    Moved-trans (Reach-Moved u unicode d e r) (Step-Moved u unicode e f s)

-- Through any calls of the service, in any order: the conversation is never rewritten, only
-- continued; every message is the ticket's own; and a ticket that waits for a human has its time in
-- the queue.
pub Reach-IsValid :
    (u : Uuids) (unicode : Unicode) (d d' : Desk)
    → Reach u unicode d d'
    → IsValid d
    → IsValid d' × Continues d.messages d'.messages
Reach-IsValid u unicode d d' r v = let m = Reach-Moved u unicode d d' r in (m.stays v, m.goes_on)
