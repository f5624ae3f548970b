-- ===== src/Agents/Escalation.antt =====
-- app/agents/escalation.py: the text with which the customer is handed over.
use ai_customer_support_plat.Prelude.{
  Bool, Option, String, false, has_prefix, if◌then◌else◌, lower, lower-append, none, nonempty, not,
  occurs_in, occurs_in-behind, or_left, refl, some, strip, true, ◌||◌, ◌⁀◌, ◌≡◌,
}

-- CUSTOMER_ESCALATION_MESSAGE
abbrev pub customer_escalation_message : String
customer_escalation_message =
    "Vou encaminhar seu atendimento para um especialista avaliar o seu problema. Alguém da equipe continua a partir daqui."

-- any(marker in lowered for marker in _HANDOFF_MARKERS)
unfoldable pub has_handoff_marker : String → Bool
has_handoff_marker lowered = occurs_in "especialista" lowered || occurs_in "encaminh" lowered

-- draft_answer or ""
abbrev pub text_or_empty : Option String → String
text_or_empty none = ""
text_or_empty (some s) = s

reply_for : String → String
reply_for text =
    if not (nonempty text)
    then customer_escalation_message
    else if has_handoff_marker (lower text)
    then text
    else text ⁀ "\n\n" ⁀ customer_escalation_message

unfoldable pub customer_escalation_reply : Option String → String
unfolding reply_for
customer_escalation_reply draft_answer = reply_for (strip (text_or_empty draft_answer))

marked : (s : String) → occurs_in "especialista" s ≡ true → has_handoff_marker s ≡ true
unfolding has_handoff_marker
marked s h = or_left _ h

notice-marked : occurs_in "especialista" (lower ("\n\n" ⁀ customer_escalation_message)) ≡ true
unfolding occurs_in has_prefix lower
notice-marked = refl

behind-marked :
    (s : String) → has_handoff_marker (lower (s ⁀ "\n\n" ⁀ customer_escalation_message)) ≡ true
behind-marked s =
    rw (lower-append s ("\n\n" ⁀ customer_escalation_message))
      (marked _ (occurs_in-behind "especialista" (lower s) _ notice-marked))

message-marked : has_handoff_marker (lower customer_escalation_message) ≡ true
message-marked = unfold has_handoff_marker occurs_in has_prefix lower in refl

reply_for-marked : (text : String) → has_handoff_marker (lower (reply_for text)) ≡ true
unfolding reply_for
reply_for-marked text = pick (nonempty text) (has_handoff_marker (lower text)) refl
  where
    pick :
        (b m : Bool)
        → has_handoff_marker (lower text) ≡ m
        → has_handoff_marker (
            lower (
              if not b
              then customer_escalation_message
              else if m
              then text
              else text ⁀ "\n\n" ⁀ customer_escalation_message))
          ≡ true
    pick false m e = message-marked
    pick true true e = e
    pick true false e = behind-marked text

-- Whatever draft a worker has left, the customer's text says that a specialist takes over.
pub customer_escalation_reply-marked :
    (draft : Option String) → has_handoff_marker (lower (customer_escalation_reply draft)) ≡ true
unfolding customer_escalation_reply
customer_escalation_reply-marked draft = reply_for-marked (strip (text_or_empty draft))
