-- ===== src/Services/Tickets/Endings.antt =====
-- How a conversation is closed or confirmed, and what the calls do the second time.
use ai_customer_support_plat.Services.Tickets.Messages.{append_message, new_message, with_message}
use ai_customer_support_plat.Services.Tickets.Lifecycle.{
  already_closed, close_system_message, close_ticket, confirm_resolution, confirm_system_message,
  noted, noticed, set_status, shut,
}
use ai_customer_support_plat.Services.Tickets.Outcomes.{
  Appended, append_message-Appended, appended, refused,
}
use ai_customer_support_plat.Tools.Database.{Uuids}
use ai_customer_support_plat.Prelude.{
  Bool, Option, Result, String, [], ap, fail, false, if◌then◌else◌, inl, inr, none, ok, refl, some,
  sym, true, true_not_false, ℕ, ◌++◌, ◌>>=◌, ◌⁀◌, ◌∙◌, ◌∷◌, ◌≡◌, ◌≢◌, ◌⊎◌,
}
use ai_customer_support_plat.Services.Tickets.{
  Desk, Failure, Resolution, TicketMessage, TicketStatus, closed, escalated, in_progress, is_closed,
  is_escalated, is_resolved, open_, resolved, system,
}

-- The resolution after a closing: as it was where no reason is given, and else with the reason as its
-- answer, or behind the answer that it had.
pub data ReasonKept (id : ℕ) (was_escalated : Bool) (reason : Option String)
    : Option Resolution → Option Resolution → Type 0 where
  no_reason :
      (old : Option Resolution)
      → (reason ≡ none) ⊎ (reason ≡ some "")
      → ReasonKept id was_escalated reason old old
  fresh :
      (text : String) (r : Resolution)
      → reason ≡ some text
      → text ≢ ""
      → r.ticket_id ≡ id
      → r.answer ≡ "Closed by agent. " ⁀ text
      → r.escalated ≡ was_escalated
      → ReasonKept id was_escalated reason none (some r)
  behind :
      (text : String) (old r : Resolution)
      → reason ≡ some text
      → text ≢ ""
      → r.answer ≡ old.answer ⁀ "\n\nClosed by agent. " ⁀ text
      → r.escalated ≡ old.escalated
      → ReasonKept id was_escalated reason (some old) (some r)

noted-ReasonKept :
    (id : ℕ) (b : Bool) (reason : Option String) (old : Option Resolution)
    → ReasonKept id b reason old (noted id b reason old)
noted-ReasonKept id b none old = no_reason old (inl refl)
noted-ReasonKept id b (some String.[]) old = no_reason old (inr refl)
noted-ReasonKept id b (some (String.◌∷◌ c s)) none =
    fresh (String.◌∷◌ c s) _ refl (λ e. cc) refl refl refl
noted-ReasonKept id b (some (String.◌∷◌ c s)) (some old) =
    behind (String.◌∷◌ c s) old _ refl (λ e. cc) refl refl

-- How `close_ticket` ends.
pub data Closing (u : Uuids) (reason : Option String) (d : Desk)
    : Result Failure (TicketMessage × Desk) → Type 0 where
  conflict : d.ticket.status ≡ closed → Closing u reason d (fail (already_closed u d))
  shut_ :
      (m : TicketMessage) (d' : Desk)
      → d.ticket.status ≢ closed
      → m.role ≡ system
      → m.content ≡ close_system_message
      → d'.messages ≡ d.messages ++ m ∷ []
      → d'.ticket.status ≡ closed
      → d'.ticket.assigned_agent ≡ none
      → d'.ticket.customer_id ≡ d.ticket.customer_id
      → ReasonKept d.ticket.id (is_escalated d.ticket.status) reason d.resolution d'.resolution
      → close_ticket u reason d' ≡ fail (already_closed u d')
      → confirm_resolution u d' ≡ fail (already_closed u d')
      → Closing u reason d (ok (m, d'))

-- How `confirm_resolution` ends.
pub data Confirming (u : Uuids) (d : Desk)
    : Result Failure (Option TicketMessage × Desk) → Type 0 where
  conflict_ : d.ticket.status ≡ closed → Confirming u d (fail (already_closed u d))
  before : d.ticket.status ≡ resolved → Confirming u d (ok (none, d))
  marked :
      (m : TicketMessage) (d' : Desk)
      → d.ticket.status ≢ closed
      → d.ticket.status ≢ resolved
      → m.role ≡ system
      → m.content ≡ confirm_system_message
      → d'.messages ≡ d.messages ++ m ∷ []
      → d'.ticket.status ≡ resolved
      → d'.ticket.assigned_agent ≡ d.ticket.assigned_agent
      → d'.resolution ≡ d.resolution
      → confirm_resolution u d' ≡ ok (none, d')
      → Confirming u d (ok (some m, d'))

is_closed-closed : (s : TicketStatus) → is_closed s ≡ true → s ≡ closed
is_closed-closed closed e = refl
is_closed-closed open_ e = cc
is_closed-closed in_progress e = cc
is_closed-closed resolved e = cc
is_closed-closed escalated e = cc

is_resolved-resolved : (s : TicketStatus) → is_resolved s ≡ true → s ≡ resolved
is_resolved-resolved resolved e = refl
is_resolved-resolved open_ e = cc
is_resolved-resolved in_progress e = cc
is_resolved-resolved closed e = cc
is_resolved-resolved escalated e = cc

-- the tests tell the statuses apart
tested_apart :
    (test : TicketStatus → Bool) (s s' : TicketStatus) → test s ≡ false → test s' ≡ true → s ≢ s'
tested_apart test s s' e f x = absurd (true_not_false f (sym (ap test x) ∙ e))

close_again :
    (u : Uuids) (reason : Option String) (d : Desk)
    → d.ticket.status ≡ closed
    → close_ticket u reason d ≡ fail (already_closed u d)
unfolding close_ticket
close_again u reason d e = rw e refl

confirm_after_close :
    (u : Uuids) (d : Desk)
    → d.ticket.status ≡ closed
    → confirm_resolution u d ≡ fail (already_closed u d)
unfolding confirm_resolution
confirm_after_close u d e = rw e refl

confirm_again :
    (u : Uuids) (d : Desk) → d.ticket.status ≡ resolved → confirm_resolution u d ≡ ok (none, d)
unfolding confirm_resolution
confirm_again u d e = rw e refl

-- Closing fails exactly on a closed ticket. Otherwise the ticket is closed and no agent has it, the
-- notice is the conversation's last message, the resolution has the reason, if one is given, as its
-- answer or behind the answer that it had, and neither closing nor confirming works from there.
pub close_ticket-Closing :
    (u : Uuids) (reason : Option String) (d : Desk) → Closing u reason d (close_ticket u reason d)
unfolding close_ticket
close_ticket-Closing u reason d = go (is_closed d.ticket.status) refl
  where
    shut-Closing :
        is_closed d.ticket.status ≡ false
        → (r : Result Failure (TicketMessage × Desk))
        → Appended u system close_system_message none none (shut reason d) r
        → Closing u reason d r
    shut-Closing e _ (appended t k h) =
        shut_ (new_message u system close_system_message none none (shut reason d))
          (with_message u (new_message u system close_system_message none none (shut reason d)) t
            (shut reason d))
          (tested_apart is_closed d.ticket.status closed e refl) refl refl refl k.status_kept
          k.agent_kept k.owner_kept
          (noted-ReasonKept d.ticket.id (is_escalated d.ticket.status) reason d.resolution)
          (close_again u reason
            (with_message u (new_message u system close_system_message none none (shut reason d)) t
              (shut reason d))
            k.status_kept)
          (confirm_after_close u
            (with_message u (new_message u system close_system_message none none (shut reason d)) t
              (shut reason d))
            k.status_kept)
    shut-Closing e _ (refused n x y) = absurd (n refl)

    go :
        (b : Bool)
        → is_closed d.ticket.status ≡ b
        → Closing u reason d (
            if b
            then fail (already_closed u d)
            else append_message u system close_system_message none none (shut reason d))
    go true e = conflict (is_closed-closed d.ticket.status e)
    go false e =
        shut-Closing e _
          (append_message-Appended u system close_system_message none none (shut reason d))

-- Confirming fails exactly on a closed ticket and changes nothing on a resolved one. Otherwise the
-- ticket is resolved, its agent and resolution stay, the notice is the conversation's last message,
-- and confirming again changes nothing.
pub confirm_resolution-Confirming : (u : Uuids) (d : Desk) → Confirming u d (confirm_resolution u d)
unfolding confirm_resolution
confirm_resolution-Confirming u d =
    go (is_closed d.ticket.status) refl (is_resolved d.ticket.status) refl
  where
    marked-Confirming :
        is_closed d.ticket.status ≡ false
        → is_resolved d.ticket.status ≡ false
        → (r : Result Failure (TicketMessage × Desk))
        → Appended u system confirm_system_message none none (set_status resolved d) r
        → Confirming u d (r >>= λ p. ok (noticed u p))
    marked-Confirming e f _ (appended t k h) =
        marked (new_message u system confirm_system_message none none (set_status resolved d))
          (with_message u
            (new_message u system confirm_system_message none none (set_status resolved d)) t
            (set_status resolved d))
          (tested_apart is_closed d.ticket.status closed e refl)
          (tested_apart is_resolved d.ticket.status resolved f refl) refl refl refl k.status_kept
          k.agent_kept refl
          (confirm_again u
            (with_message u
              (new_message u system confirm_system_message none none (set_status resolved d)) t
              (set_status resolved d))
            k.status_kept)
    marked-Confirming e f _ (refused n x y) = absurd (n refl)

    go :
        (b : Bool)
        → is_closed d.ticket.status ≡ b
        → (c : Bool) → is_resolved d.ticket.status ≡ c
        → Confirming u d (
            if b
            then fail (already_closed u d)
            else if c
            then ok (none, d)
            else (append_message u system confirm_system_message none none (set_status resolved d)
                >>= λ r. ok (noticed u r)))
    go true e c f = conflict_ (is_closed-closed d.ticket.status e)
    go false e true f = before (is_resolved-resolved d.ticket.status f)
    go false e false f =
        marked-Confirming e f _ (
          append_message-Appended u system confirm_system_message none none (set_status resolved d))
