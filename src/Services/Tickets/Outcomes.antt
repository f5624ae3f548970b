-- ===== src/Services/Tickets/Outcomes.antt =====
-- What each operation of the service returns, errors included.
use Prim.Native.Char.{Char, code}
use ai_customer_support_plat.Security.Answers.{
  is_line_break, split_lines, starts_line_feed, take_text,
}
use ai_customer_support_plat.Tools.Database.{Uuids}
use ai_customer_support_plat.Services.Tickets.Messages.{
  append_message, described, first_line, introduced, new_message, subject_placeholders, titled,
  with_message,
}
use ai_customer_support_plat.Value.{Fields}
use ai_customer_support_plat.Services.Tickets.{
  Desk, Failure, Ticket, TicketMessage, TicketMessageRole, assistant, customer, human_agent,
  index_error, system,
}
use ai_customer_support_plat.Prelude.{
  Bool, Bool-cases, List, Option, Result, String, [], and_parts, ap, arith, fail, false,
  if◌then◌else◌, inl, inr, nat_beq, nonempty, ok, one_of, push_char, refl, some, strip, sym, true,
  ℕ, ◌&&◌, ◌++◌, ◌>>=◌, ◌∙◌, ◌∷◌, ◌≡◌, ◌≢◌,
}

-- what a message leaves of the ticket as it was
pub record Kept (t t' : Ticket) : Type 0 where
  pub id_kept : t'.id ≡ t.id
  pub owner_kept : t'.customer_id ≡ t.customer_id
  pub status_kept : t'.status ≡ t.status
  pub since_kept : t'.escalated_at ≡ t.escalated_at
  pub agent_kept : t'.assigned_agent ≡ t.assigned_agent
  pub order_kept : t'.order_id ≡ t.order_id

pub Kept-refl : (t : Ticket) → Kept t t
Kept-refl t = record {
  id_kept = refl;
  owner_kept = refl;
  status_kept = refl;
  since_kept = refl;
  agent_kept = refl;
  order_kept = refl;
}

-- The time of the last message is none of these.
pub Kept-last :
    {t t' : Ticket} {time : Option ℕ} → Kept t t' → Kept t (record t' { last_message_at = time })
Kept-last k = record {
  id_kept = k.id_kept;
  owner_kept = k.owner_kept;
  status_kept = k.status_kept;
  since_kept = k.since_kept;
  agent_kept = k.agent_kept;
  order_kept = k.order_kept;
}

push_char-cons : (c : Char) (ls : List String) → push_char c ls ≢ []
push_char-cons c [] e = cc
push_char-cons c (l ∷ ls) e = cc

starts_line_feed-nonempty : (s : String) → starts_line_feed s ≡ true → nonempty s ≡ true
starts_line_feed-nonempty String.[] h = cc
starts_line_feed-nonempty (String.◌∷◌ c s) h = refl

-- A text that is not empty has a first line.
split_lines-cons : (s : String) → nonempty s ≡ true → split_lines s ≢ []
unfolding split_lines
split_lines-cons String.[] h e = cc
split_lines-cons (String.◌∷◌ c s) h e =
    go (split_lines s) (nat_beq (code c) 13 && starts_line_feed s) (is_line_break (code c))
      (λ x. split_lines-cons s (starts_line_feed-nonempty s (and_parts _ _ x).1)) e
  where
    go :
        (rest : List String) (both line_break : Bool)
        → (both ≡ true → rest ≢ [])
        → (if both then rest else if line_break then "" ∷ rest else push_char c rest) ≢ []
    go rest true line_break k x = k refl x
    go rest false true k x = cc
    go rest false false k x = push_char-cons c rest x

pub nonempty_apart : (s : String) → nonempty s ≡ true → s ≢ ""
nonempty_apart String.[] h e = cc
nonempty_apart (String.◌∷◌ c s) h e = cc

data FirstLine (content : String) : Result Failure String → Type 0 where
  line : (l : String) → strip content ≢ "" → FirstLine content (ok l)
  blank_text : strip content ≡ "" → FirstLine content (fail index_error)

first_line-FirstLine : (content : String) → FirstLine content (first_line content)
unfolding first_line
first_line-FirstLine content = go (strip content) refl
  where
    pick :
        (s : String)
        → strip content ≡ s
        → nonempty s ≡ true
        → (ls : List String) → split_lines s ≡ ls
        → FirstLine content (elim ls [ [] ↦ fail index_error | l ∷ _ ↦ ok (take_text 80 l) ])
    pick s e n [] x = absurd (split_lines-cons s n x)
    pick s e n (l ∷ ls) x = line (take_text 80 l) (λ empty. nonempty_apart s n (sym e ∙ empty))

    go :
        (s : String)
        → strip content ≡ s
        → FirstLine content
            (elim (split_lines s) [ [] ↦ fail index_error | l ∷ _ ↦ ok (take_text 80 l) ])
    go String.[] e = unfold split_lines in blank_text e
    go (String.◌∷◌ c s) e = pick (String.◌∷◌ c s) e refl (split_lines (String.◌∷◌ c s)) refl

-- why a message leaves the ticket with a subject
pub data HasTitle (role : TicketMessageRole) (content : String) (t : Ticket) : Type 0 where
  by_system : role ≡ system → HasTitle role content t
  titled_before : one_of t.subject subject_placeholders ≡ false → HasTitle role content t
  by_content : strip content ≢ "" → HasTitle role content t

pub data Introduced (role : TicketMessageRole) (content : String) (t : Ticket)
    : Result Failure Ticket → Type 0 where
  taken : (t' : Ticket) → Kept t t' → HasTitle role content t → Introduced role content t (ok t')
  blank :
      role ≢ system
      → strip content ≡ ""
      → one_of t.subject subject_placeholders ≡ true
      → Introduced role content t (fail index_error)

Kept-described : (content : String) (t : Ticket) → Kept t (described content t)
Kept-described content t = elim (Bool-cases (nonempty t.description)) [
  | inl e ↦ rw e (Kept-refl t)
  | inr e ↦ rw e (record {
    id_kept = refl;
    owner_kept = refl;
    status_kept = refl;
    since_kept = refl;
    agent_kept = refl;
    order_kept = refl;
  })
]

subject-described : (content : String) (t : Ticket) → (described content t).subject ≡ t.subject
subject-described content t = ground arith

titled-Introduced :
    (role : TicketMessageRole) (content : String) (t t' : Ticket)
    → role ≢ system
    → Kept t t'
    → t'.subject ≡ t.subject
    → Introduced role content t (titled content t')
titled-Introduced role content t t' n k e =
    go (one_of t'.subject subject_placeholders) refl (first_line content)
      (first_line-FirstLine content)
  where
    go :
        (b : Bool)
        → one_of t'.subject subject_placeholders ≡ b
        → (r : Result Failure String) → FirstLine content r
        → Introduced role content t
            (if b then (r >>= λ l. ok (record t' { subject = l })) else ok t')
    go true x _ (line l y) =
        taken (record t' { subject = l })
          (record {
            id_kept = k.id_kept;
            owner_kept = k.owner_kept;
            status_kept = k.status_kept;
            since_kept = k.since_kept;
            agent_kept = k.agent_kept;
            order_kept = k.order_kept;
          })
          (by_content y)
    go true x _ (blank_text y) = blank n y (ap (λ s. one_of s subject_placeholders) (sym e) ∙ x)
    go false x r y =
        taken t' k (titled_before (ap (λ s. one_of s subject_placeholders) (sym e) ∙ x))

introduced-Introduced :
    (role : TicketMessageRole) (content : String) (t : Ticket)
    → Introduced role content t (introduced role content t)
introduced-Introduced system content t = taken t (Kept-refl t) (by_system refl)
introduced-Introduced customer content t =
    titled-Introduced customer content t _ (λ e. cc) (Kept-described content t)
      (subject-described content t)
introduced-Introduced assistant content t =
    titled-Introduced assistant content t _ (λ e. cc) (Kept-described content t)
      (subject-described content t)
introduced-Introduced human_agent content t =
    titled-Introduced human_agent content t _ (λ e. cc) (Kept-described content t)
      (subject-described content t)

-- What `append_message` returns.
pub data Appended (u : Uuids) (role : TicketMessageRole) (content : String) (run : Option ℕ)
    (extra : Option Fields) (d : Desk) : Result Failure (TicketMessage × Desk) → Type 0 where
  appended :
      (t : Ticket)
      → Kept d.ticket t
      → HasTitle role content d.ticket
      → Appended u role content run extra d (
          ok (
            new_message u role content run extra d,
            with_message u (new_message u role content run extra d) t d,
          ))
  refused :
      role ≢ system
      → strip content ≡ ""
      → one_of d.ticket.subject subject_placeholders ≡ true
      → Appended u role content run extra d (fail index_error)

pub append_message-Appended :
    (u : Uuids) (role : TicketMessageRole) (content : String) (run : Option ℕ)
    (extra : Option Fields) (d : Desk)
    → Appended u role content run extra d (append_message u role content run extra d)
unfolding append_message
append_message-Appended u role content run extra d =
    go (introduced role content d.ticket) (introduced-Introduced role content d.ticket)
  where
    go :
        (r : Result Failure Ticket)
        → Introduced role content d.ticket r
        → Appended u role content run extra d (
            r >>= λ t. ok (
              new_message u role content run extra d,
              with_message u (new_message u role content run extra d) t d,
            ))
    go _ (taken t k h) = appended t k h
    go _ (blank n e x) = refused n e x

-- A conversation with one more message.
pub record Stored (role : TicketMessageRole) (content : String) (run : Option ℕ) (d : Desk)
    (m : TicketMessage) (d' : Desk) : Type 0 where
  pub said_by : m.role ≡ role
  pub saying : m.content ≡ content
  pub about : m.ticket_id ≡ d.ticket.id
  pub by_run : m.agent_run_id ≡ run
  pub at_time : m.created_at ≡ d.now
  pub last : d'.messages ≡ d.messages ++ m ∷ []
  pub active : d'.ticket.last_message_at ≡ some d.now
  pub ticket_kept : Kept d.ticket d'.ticket
  pub same_resolution : d'.resolution ≡ d.resolution
  pub same_runs : d'.runs ≡ d.runs
  pub same_events : d'.events ≡ d.events

-- How a message ends.
pub data Ending (role : TicketMessageRole) (content : String) (run : Option ℕ) (d : Desk)
    : Result Failure (TicketMessage × Desk) → Type 0 where
  stored_ :
      (m : TicketMessage) (d' : Desk)
      → Stored role content run d m d'
      → HasTitle role content d.ticket
      → Ending role content run d (ok (m, d'))
  untitled_ :
      role ≢ system
      → strip content ≡ ""
      → one_of d.ticket.subject subject_placeholders ≡ true
      → Ending role content run d (fail index_error)

pub with_message-Stored :
    (u : Uuids) (role : TicketMessageRole) (content : String) (run : Option ℕ)
    (extra : Option Fields) (d : Desk) (t : Ticket)
    → Kept d.ticket t
    → Stored role content run d
        (new_message u role content run extra d)
        (with_message u (new_message u role content run extra d) t d)
with_message-Stored u role content run extra d t k = record {
  said_by = refl;
  saying = refl;
  about = refl;
  by_run = refl;
  at_time = refl;
  last = refl;
  active = refl;
  ticket_kept = Kept-last k;
  same_resolution = refl;
  same_runs = refl;
  same_events = refl;
}

-- A message is stored at the end of the conversation, with its role, its text, its run and the clock;
-- the clock is the ticket's last activity, and its id, owner, order, status, agent and escalation
-- time stay, as do the resolution, the runs and the events. The one failure is an `IndexError`, for
-- a blank message of a speaker when the ticket has no subject yet: the system's own notices never
-- fail.
pub append_message-Ending :
    (u : Uuids) (role : TicketMessageRole) (content : String) (run : Option ℕ)
    (extra : Option Fields) (d : Desk)
    → Ending role content run d (append_message u role content run extra d)
append_message-Ending u role content run extra d =
    go _ (append_message-Appended u role content run extra d)
  where
    go :
        (r : Result Failure (TicketMessage × Desk))
        → Appended u role content run extra d r
        → Ending role content run d r
    go _ (appended t k h) = stored_ _ _ (with_message-Stored u role content run extra d t k) h
    go _ (refused n e x) = untitled_ n e x
