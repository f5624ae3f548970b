-- ===== src/Services/Tickets/Validity.antt =====
-- What every call of the service keeps of a conversation.
use ai_customer_support_plat.Value.{Fields}
use ai_customer_support_plat.Services.Tickets.Messages.{append_message}
use ai_customer_support_plat.Services.Tickets.Persist.{ResolutionResponse, needs_human_of}
use ai_customer_support_plat.Services.Tickets.Lifecycle.{
  close_system_message, close_ticket, confirm_resolution, confirm_system_message, noticed,
  set_status, shut,
}
use ai_customer_support_plat.Services.Tickets.Outcomes.{
  Appended, Kept, append_message-Appended, appended, refused,
}
use ai_customer_support_plat.Services.Tickets.Turns.{
  Bubble, Persisted, StatusAfter, added, archived, escalation, failure, kept, talking,
}
use ai_customer_support_plat.Prelude.{
  Bool, Bool-cases, List, Option, Result, String, [], ap, fail, inl, inr, is_some, none, ok, refl,
  sym, true, true_not_false, ℕ, ◌++◌, ◌>>=◌, ◌∙◌, ◌∷◌, ◌≡◌,
}
use ai_customer_support_plat.Tools.Database.{Uuids}
use ai_customer_support_plat.Security.Patterns.{Unicode}
use ai_customer_support_plat.Services.Tickets.Answers.{Dated, first, before_, never}
use ai_customer_support_plat.Services.Tickets.{
  Desk, Failure, Ticket, TicketMessage, TicketMessageRole, TicketStatus, is_closed, is_escalated,
  is_resolved, resolved, system,
}

-- The messages of the second conversation go on from those of the first.
pub data Continues (ms : List TicketMessage) (ms' : List TicketMessage) : Type 0 where
  and_then : (new : List TicketMessage) → ms' ≡ ms ++ new → Continues ms ms'

-- What holds of a conversation: an escalated ticket has its time in the queue, and the messages are
-- the ticket's own.
abbrev pub Own : ℕ → List TicketMessage → Type 0
Own id [] = Unit
Own id (m ∷ ms) = (m.ticket_id ≡ id) × Own id ms

pub record IsValid (d : Desk) : Type 0 where
  pub queued : is_escalated d.ticket.status ≡ true → is_some d.ticket.escalated_at ≡ true
  pub own : Own d.ticket.id d.messages

-- what a step does to both
pub record Moved (d d' : Desk) : Type 0 where
  pub goes_on : Continues d.messages d'.messages
  pub stays : IsValid d → IsValid d'
  pub same : d'.ticket.id ≡ d.ticket.id

Own-append :
    (id : ℕ) (ms : List TicketMessage) (m : TicketMessage)
    → Own id ms
    → m.ticket_id ≡ id
    → Own id (ms ++ m ∷ [])
Own-append id [] m h e = (e, tt)
Own-append id (x ∷ ms) m h e = (h.0, Own-append id ms m h.1 e)

append-nil : (ms : List TicketMessage) → ms ≡ ms ++ []
append-nil [] = refl
append-nil (m ∷ ms) = ap (λ t. m ∷ t) (append-nil ms)

append_assoc : (ms ns os : List TicketMessage) → (ms ++ ns) ++ os ≡ ms ++ (ns ++ os)
append_assoc [] ns os = refl
append_assoc (m ∷ ms) ns os = ap (λ t. m ∷ t) (append_assoc ms ns os)

Continues-refl : (ms : List TicketMessage) → Continues ms ms
Continues-refl ms = and_then [] (append-nil ms)

Continues-trans :
    (ms ns os : List TicketMessage) → Continues ms ns → Continues ns os → Continues ms os
Continues-trans ms ns os (and_then a e) (and_then b f) =
    and_then (a ++ b) (f ∙ (ap (λ t. t ++ b) e ∙ append_assoc ms a b))

-- A ticket that keeps its state stays in the queue.
queued-Kept :
    (t t' : Ticket)
    → Kept t t'
    → (is_escalated t.status ≡ true → is_some t.escalated_at ≡ true)
    → is_escalated t'.status ≡ true
    → is_some t'.escalated_at ≡ true
queued-Kept t t' k q h = rw k.since_kept (q (ap is_escalated (sym k.status_kept) ∙ h))

pub Moved-trans : {a b c : Desk} → Moved a b → Moved b c → Moved a c
Moved-trans {a} {b} {c} m n = record {
  goes_on = Continues-trans a.messages b.messages c.messages m.goes_on n.goes_on;
  stays = λ v. n.stays (m.stays v);
  same = n.same ∙ m.same;
}

-- a step that writes no message and does not escalate
pub Moved-quiet :
    (d d' : Desk)
    → d'.messages ≡ d.messages
    → d'.ticket.id ≡ d.ticket.id
    → (IsValid d → is_escalated d'.ticket.status ≡ true → is_some d'.ticket.escalated_at ≡ true)
    → Moved d d'
Moved-quiet d d' e i q = record {
  goes_on = and_then [] (e ∙ append-nil d.messages);
  stays = λ v. record { queued = q v; own = rw (e, i) v.own };
  same = i;
}

unfoldable pub desk_of : {A : Type 0} → Desk → Result Failure (A × Desk) → Desk
desk_of d (ok (a, d')) = d'
desk_of d (fail e) = d

-- One more message of the ticket keeps a conversation valid.
Moved-message :
    (d d' : Desk) (m : TicketMessage)
    → d'.messages ≡ d.messages ++ m ∷ []
    → m.ticket_id ≡ d.ticket.id
    → d'.ticket.id ≡ d.ticket.id
    → (IsValid d → is_escalated d'.ticket.status ≡ true → is_some d'.ticket.escalated_at ≡ true)
    → Moved d d'
Moved-message d d' m e i j q = record {
  goes_on = and_then (m ∷ []) e;
  stays =
      λ v. record { queued = q v; own = rw (e, j) (Own-append d.ticket.id d.messages m v.own i) };
  same = j;
}

append-Moved :
    (u : Uuids) (role : TicketMessageRole) (content : String) (run : Option ℕ)
    (extra : Option Fields) (d : Desk) (r : Result Failure (TicketMessage × Desk))
    → Appended u role content run extra d r
    → Moved d (desk_of d r)
unfolding desk_of
append-Moved u role content run extra d _ (appended t k h) =
    Moved-message d _ _ refl refl k.id_kept (λ v. queued-Kept d.ticket t k v.queued)
append-Moved u role content run extra d _ (refused n e x) =
    Moved-quiet d d refl refl (λ v. v.queued)

pub append_message-Moved :
    (u : Uuids) (role : TicketMessageRole) (content : String) (run : Option ℕ)
    (extra : Option Fields) (d : Desk)
    → Moved d (desk_of d (append_message u role content run extra d))
append_message-Moved u role content run extra d =
    append-Moved u role content run extra d _ (append_message-Appended u role content run extra d)

queued_after :
    {escalates failed_ : Bool} {old new : TicketStatus}
    → StatusAfter escalates failed_ old new
    → is_escalated new ≡ true
    → escalates ≡ true
queued_after (escalation e) h = e
queued_after (failure e f) h = cc
queued_after (archived e f o) h = cc
queued_after (talking e f o) h = cc

Dated-some :
    (b : Bool) (now : ℕ) (old time : Option ℕ)
    → Dated b now old time
    → b ≡ true
    → is_some time ≡ true
Dated-some b now _ _ (first e) h = refl
Dated-some b now _ _ (before_ t) h = refl
Dated-some b now _ _ (never e) h = absurd (true_not_false h e)

pub Persisted-Moved :
    (unicode : Unicode) (result : Fields) (error : Option String) (d d' : Desk)
    (r : ResolutionResponse)
    → Persisted unicode result error d r d'
    → Moved d d'
Persisted-Moved unicode result error d d' r p = go p.bubble
  where
    queue : IsValid d → is_escalated d'.ticket.status ≡ true → is_some d'.ticket.escalated_at ≡ true
    queue v h =
        Dated-some (needs_human_of result) d.now d.ticket.escalated_at d'.ticket.escalated_at
          p.since (queued_after p.status h)

    go : Bubble r.answer d.ticket.id d.messages d'.messages → Moved d d'
    go (kept s e) = Moved-quiet d d' e p.same_ticket queue
    go (added m s n a b i e) = Moved-message d d' m e i p.same_ticket queue

shut-Moved : (reason : Option String) (d : Desk) → Moved d (shut reason d)
shut-Moved reason d = Moved-quiet d _ refl refl (λ v h. cc)

pub Moved-refl : (d : Desk) → Moved d d
Moved-refl d = Moved-quiet d d refl refl (λ v. v.queued)

-- a call behind a change that moves the conversation by itself
Moved-then :
    {A : Type 0} (d e : Desk) (r : Result Failure (A × Desk))
    → Moved d e
    → Moved e (desk_of e r)
    → Moved d (desk_of d r)
unfolding desk_of
Moved-then d e (ok (a, d')) m n = Moved-trans m n
Moved-then d e (fail x) m n = Moved-refl d

pub close_ticket-Moved :
    (u : Uuids) (reason : Option String) (d : Desk) → Moved d (desk_of d (close_ticket u reason d))
unfolding close_ticket
close_ticket-Moved u reason d = elim (Bool-cases (is_closed d.ticket.status)) [
  | inl e ↦ rw e (unfold desk_of in Moved-refl d)
  | inr e ↦ rw e (
      Moved-then d (shut reason d) _ (shut-Moved reason d)
        (append_message-Moved u system close_system_message none none (shut reason d)))
]

desk_of-noticed :
    (u : Uuids) (d : Desk) (r : Result Failure (TicketMessage × Desk))
    → desk_of d (r >>= λ x. ok (noticed u x)) ≡ desk_of d r
unfolding desk_of
desk_of-noticed u d (ok (m, d')) = refl
desk_of-noticed u d (fail e) = refl

resolved-Moved : (d : Desk) → Moved d (set_status resolved d)
resolved-Moved d = Moved-quiet d _ refl refl (λ v h. cc)

pub confirm_resolution-Moved : (u : Uuids) (d : Desk) → Moved d (desk_of d (confirm_resolution u d))
unfolding confirm_resolution
confirm_resolution-Moved u d = elim (Bool-cases (is_closed d.ticket.status)) [
  | inl e ↦ rw e (unfold desk_of in Moved-refl d)
  | inr e ↦ elim (Bool-cases (is_resolved d.ticket.status)) [
    | inl f ↦ rw e (rw f (unfold desk_of in Moved-refl d))
    | inr f ↦ rw e (
        rw f (
          rw (desk_of-noticed u d) (
            Moved-then d (set_status resolved d) _ (resolved-Moved d) (
              append_message-Moved u system confirm_system_message none none
                (set_status resolved d)))))
  ]
]

-- The desk of a call that has returned.
pub returned_desk :
    {A : Type 0} (d d' : Desk) (r : Result Failure (A × Desk)) (a : A)
    → r ≡ ok (a, d')
    → desk_of d r ≡ d'
unfolding desk_of
returned_desk d d' r a e = ap (desk_of d) e
