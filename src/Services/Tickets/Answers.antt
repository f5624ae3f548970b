-- ===== src/Services/Tickets/Answers.antt =====
-- What a turn answers, when an answer is said, and when an escalation is dated.
use mathlib.Core.Path.{subst}
use mathlib.Core.Option.{some-injective}
use ai_customer_support_plat.Value.{Fields, Value, end, field, get, truthy_value}
use ai_customer_support_plat.Policy.Escalation.{text_of}
use ai_customer_support_plat.Security.Patterns.{Unicode}
use ai_customer_support_plat.Security.Answers.{sanitize_customer_answer}
use ai_customer_support_plat.Agents.Escalation.{customer_escalation_message}
use ai_customer_support_plat.Services.Tickets.{
  TicketMessage, TicketMessageRole, assistant, customer, human_agent, system,
}
use ai_customer_support_plat.Services.Tickets.Messages.{
  repeats_last, same_bubble, should_persist_assistant_message,
}
use ai_customer_support_plat.Prelude.{
  Bool, Bool-cases, Option, String, and_parts, ap, eq_iff, false, if◌then◌else◌, inl, inr, none,
  nonempty, not, not-true, refl, some, strip, sym, true, true_not_false, ℕ, ◌&&◌, ◌∙◌, ◌≡◌, ◌≢◌,
  ◌⊎◌,
}
use ai_customer_support_plat.Services.Tickets.Persist.{
  answer_of, answer_or, error_text, extract_interrupt_payload, first_time, is_given, needs_human_of,
  raw_answer, text_or,
}

-- The text of an entry that says something.
pub data Says (d : Fields) (key : String) : String → Type 0 where
  says : (v : Value) → get d key ≡ some v → truthy_value v ≡ true → Says d key (text_of v)

-- An entry that is missing or says nothing.
pub data IsSilent (d : Fields) (key : String) : Type 0 where
  missing_ : get d key ≡ none → IsSilent d key
  falsy : (v : Value) → get d key ≡ some v → truthy_value v ≡ false → IsSilent d key

-- an error with a text
pub data Raised : Option String → String → Type 0 where
  raised_ : (e : String) → e ≢ "" → Raised (some e) e

-- The graph waits at no interrupt with a payload.
abbrev pub NotWaiting : Fields → Type 0
NotWaiting result =
    (k : String) (v : Value) (payload : Fields)
    → extract_interrupt_payload result ≡ some (field k v payload)
    → ⊥

-- The text from which the answer of a result is made: the draft of the interrupt, if the graph waits at
-- one; else the draft of the result; else the error.
pub data RawText (result : Fields) (error : Option String) : String → Type 0 where
  waiting_draft :
      (k : String) (v : Value) (payload : Fields) (text : String)
      → extract_interrupt_payload result ≡ some (field k v payload)
      → Says (field k v payload) "draft_answer" text
      → RawText result error (strip text)
  waiting_silent :
      (k : String) (v : Value) (payload : Fields)
      → extract_interrupt_payload result ≡ some (field k v payload)
      → IsSilent (field k v payload) "draft_answer"
      → RawText result error (strip "")
  drafted :
      (text : String)
      → NotWaiting result
      → Says result "draft_answer" text
      → RawText result error text
  failed_ :
      (text : String)
      → NotWaiting result
      → IsSilent result "draft_answer"
      → Raised error text
      → RawText result error text
  nothing_said :
      NotWaiting result
      → IsSilent result "draft_answer"
      → ((text : String) → Raised error text → ⊥)
      → RawText result error "No answer generated."

-- The answer: the cleaned text, or what stands for it when nothing is left.
pub data AnswerIs (unicode : Unicode) (result : Fields) (error : Option String) (escalates : Bool)
    : String → Type 0 where
  cleaned :
      (raw : String)
      → RawText result error raw
      → sanitize_customer_answer unicode raw ≢ ""
      → AnswerIs unicode result error escalates (sanitize_customer_answer unicode raw)
  handed :
      (raw : String)
      → RawText result error raw
      → sanitize_customer_answer unicode raw ≡ ""
      → escalates ≡ true
      → AnswerIs unicode result error escalates customer_escalation_message
  broken :
      (raw text : String)
      → RawText result error raw
      → sanitize_customer_answer unicode raw ≡ ""
      → escalates ≡ false
      → Raised error text
      → AnswerIs unicode result error escalates text
  silent_ :
      (raw : String)
      → RawText result error raw
      → sanitize_customer_answer unicode raw ≡ ""
      → escalates ≡ false
      → ((text : String) → Raised error text → ⊥)
      → AnswerIs unicode result error escalates "No answer generated."

empty_text : (s : String) → nonempty s ≡ false → s ≡ ""
empty_text String.[] h = refl
empty_text (String.◌∷◌ c s) h = cc

pub full_text : (s : String) → nonempty s ≡ true → s ≢ ""
full_text String.[] h e = cc
full_text (String.◌∷◌ c s) h e = cc

-- what an error is
data ErrorIs (error : Option String) : Type 0 where
  some_error : is_given error ≡ true → Raised error (error_text error) → ErrorIs error
  no_error : is_given error ≡ false → ((text : String) → Raised error text → ⊥) → ErrorIs error

error-ErrorIs : (error : Option String) → ErrorIs error
error-ErrorIs none = no_error refl none_raised
  where
    none_raised : (text : String) → Raised none text → ⊥
    none_raised text h = unraised _ h refl
      where
        unraised : (o : Option String) → Raised o text → o ≡ none → ⊥
        unraised _ (raised_ e n) x = cc
error-ErrorIs (some e) = elim (Bool-cases (nonempty e)) [
  | inl h ↦ some_error h (raised_ e (full_text e h))
  | inr h ↦ no_error h (λ text r. empty_raised (some e) text r (ap some (empty_text e h)))
]
  where
    empty_raised : (o : Option String) (text : String) → Raised o text → o ≡ some "" → ⊥
    empty_raised _ _ (raised_ f n) x = n (some-injective f "" x)

-- the text of an entry, with a default
data EntryIs (d : Fields) (key default : String) : String → Type 0 where
  entry_says : (text : String) → Says d key text → EntryIs d key default text
  entry_silent : IsSilent d key → EntryIs d key default default

entry-EntryIs :
    (d : Fields) (key default : String) → EntryIs d key default (text_or (get d key) default)
entry-EntryIs d key default = go (get d key) refl
  where
    go : (o : Option Value) → get d key ≡ o → EntryIs d key default (text_or o default)
    go none e = entry_silent (missing_ e)
    go (some v) e = elim (Bool-cases (truthy_value v)) [
      | inl h ↦ rw h (entry_says (text_of v) (says v e h))
      | inr h ↦ rw h (entry_silent (falsy v e h))
    ]

module _ (result : Fields) (error : Option String) where
  by_result :
      NotWaiting result
      → RawText result error (
          text_or
            (get result "draft_answer")
            (if is_given error then error_text error else "No answer generated."))
  by_result nw = go _ _ (entry-EntryIs result "draft_answer" _) (error-ErrorIs error) refl
    where
      go :
          (default text : String)
          → EntryIs result "draft_answer" default text
          → ErrorIs error
          → default ≡ (if is_given error then error_text error else "No answer generated.")
          → RawText result error text
      go default _ (entry_says text s) x e = drafted text nw s
      go default _ (entry_silent s) (some_error h r) e =
          subst (RawText result error) (sym (e ∙ rw h refl)) (failed_ (error_text error) nw s r)
      go default _ (entry_silent s) (no_error h n) e =
          subst (RawText result error) (sym (e ∙ rw h refl)) (nothing_said nw s n)

  raw_answer-RawText :
      RawText result error (raw_answer (extract_interrupt_payload result) result error)
  unfolding raw_answer
  raw_answer-RawText = go (extract_interrupt_payload result) refl
    where
      at_payload :
          (k : String) (v : Value) (p : Fields) (text : String)
          → extract_interrupt_payload result ≡ some (field k v p)
          → EntryIs (field k v p) "draft_answer" "" text
          → RawText result error (strip text)
      at_payload k v p _ e (entry_says text s) = waiting_draft k v p text e s
      at_payload k v p _ e (entry_silent s) = waiting_silent k v p e s

      go :
          (o : Option Fields)
          → extract_interrupt_payload result ≡ o
          → RawText result error (raw_answer o result error)
      go none e = by_result (λ k v p x. cc)
      go (some end) e = by_result (λ k v p x. cc)
      go (some (field k v p)) e =
          at_payload k v p _ e (entry-EntryIs (field k v p) "draft_answer" "")

  pub answer_of-AnswerIs :
      (unicode : Unicode)
      → AnswerIs unicode result error (needs_human_of result) (answer_of unicode result error)
  unfolding answer_of
  answer_of-AnswerIs unicode =
      go (raw_answer (extract_interrupt_payload result) result error) raw_answer-RawText
        (needs_human_of result) (error-ErrorIs error)
    where
      go :
          (raw : String)
          → RawText result error raw
          → (b : Bool) → ErrorIs error
          → AnswerIs unicode result error b
              (answer_or b error (sanitize_customer_answer unicode raw))
      go raw w b x = elim (Bool-cases (nonempty (sanitize_customer_answer unicode raw))) [
        | inl h ↦ rw h (cleaned raw w (full_text _ h))
        | inr h ↦ rw h (left b (empty_text _ h) x)
      ]
        where
          left :
              (b : Bool)
              → sanitize_customer_answer unicode raw ≡ ""
              → ErrorIs error
              → AnswerIs unicode result error b (
                  if b
                  then customer_escalation_message
                  else if is_given error
                  then error_text error
                  else "No answer generated.")
          left true e x = handed raw w e refl
          left false e (some_error h r) = rw h (broken raw (error_text error) w e refl r)
          left false e (no_error h n) = rw h (silent_ raw w e refl n)

-- The last bubble of the conversation says the same.
pub data Repeats (answer : String) : Option TicketMessage → Type 0 where
  repeats :
      (m : TicketMessage)
      → (m.role ≡ assistant) ⊎ (m.role ≡ human_agent)
      → strip m.content ≡ strip answer
      → Repeats answer (some m)

same_bubble-role :
    (role : TicketMessageRole) (content text : String)
    → same_bubble role content text ≡ true
    → ((role ≡ assistant) ⊎ (role ≡ human_agent)) × (strip content ≡ text)
same_bubble-role assistant content text h = (inl refl, (eq_iff (strip content) text).0 h)
same_bubble-role human_agent content text h = (inr refl, (eq_iff (strip content) text).0 h)
same_bubble-role customer content text h = cc
same_bubble-role system content text h = cc

role_same_bubble :
    (role : TicketMessageRole) (content text : String)
    → (role ≡ assistant) ⊎ (role ≡ human_agent)
    → strip content ≡ text
    → same_bubble role content text ≡ true
role_same_bubble role content text (inl e) h = rw e ((eq_iff (strip content) text).1 h)
role_same_bubble role content text (inr e) h = rw e ((eq_iff (strip content) text).1 h)

repeats_last-Repeats :
    (last : Option TicketMessage) (answer : String)
    → repeats_last last (strip answer) ≡ true
    → Repeats answer last
repeats_last-Repeats none answer h = cc
repeats_last-Repeats (some m) answer h =
    let p = same_bubble-role m.role m.content (strip answer) h in repeats m p.0 p.1

Repeats-last :
    (last : Option TicketMessage) (answer : String)
    → Repeats answer last
    → repeats_last last (strip answer) ≡ true
Repeats-last _ answer (repeats m r e) = role_same_bubble m.role m.content (strip answer) r e

pub unpersisted :
    (last : Option TicketMessage) (answer : String)
    → should_persist_assistant_message last answer ≡ false
    → (strip answer ≡ "") ⊎ Repeats answer last
unfolding should_persist_assistant_message
unpersisted last answer h = elim (Bool-cases (nonempty (strip answer))) [
  | inr e ↦ inl (empty_text _ e)
  | inl e ↦ elim (Bool-cases (repeats_last last (strip answer))) [
    | inl r ↦ inr (repeats_last-Repeats last answer r)
    | inr r ↦ absurd (true_not_false (ap (λ b. nonempty (strip answer) && not b) r ∙ rw e refl) h)
  ]
]

pub persisted_if :
    (last : Option TicketMessage) (answer : String)
    → should_persist_assistant_message last answer ≡ true
    → (strip answer ≢ "") × (Repeats answer last → ⊥)
unfolding should_persist_assistant_message
persisted_if last answer h =
    let p = and_parts (nonempty (strip answer)) (not (repeats_last last (strip answer))) h in
    (
      full_text _ p.0,
      λ r.
          true_not_false (Repeats-last last answer r)
            (not-true (repeats_last last (strip answer)) p.1),
    )

-- When an escalation is dated: at the first one, and then never again.
pub data Dated (escalates : Bool) (now : ℕ) : Option ℕ → Option ℕ → Type 0 where
  first : escalates ≡ true → Dated escalates now none (some now)
  before_ : (time : ℕ) → Dated escalates now (some time) (some time)
  never : escalates ≡ false → Dated escalates now none none

pub first_time-Dated :
    (b : Bool) (now : ℕ) (old : Option ℕ) → Dated b now old (first_time b now old)
first_time-Dated true now none = first refl
first_time-Dated true now (some time) = before_ time
first_time-Dated false now none = never refl
first_time-Dated false now (some time) = before_ time
