-- ===== src/Security/Guardrails/Outcomes.antt =====
-- What passes the guardrails.
use mathlib.Core.Path.{subst}
use ai_customer_support_plat.Security.Patterns.{Unicode}
use ai_customer_support_plat.Security.Answers.{sanitize_customer_answer, text_length}
use ai_customer_support_plat.Prelude.{
  Bool, String, arith, false, length, true, ℕ, ◌↔◌, ◌≡◌, ◌≤◌, ◌⊎◌,
}
use ai_customer_support_plat.Security.Guardrails.{claims_refund, passed, released, validate_output}

-- an answer that may reach the customer
pub record IsAllowed (u : Unicode) (refund_executed : Bool) (text : String) : Type 0 where
  pub honest : (claims_refund u text ≡ false) ⊎ (refund_executed ≡ true)
  pub short : text_length text ≤ 20000

released_lem :
    (claim executed : Bool) (length : ℕ) (cleaned answer : String)
    → released claim executed length cleaned ≡ passed answer
    → (cleaned ≡ answer) × (((claim ≡ false) ⊎ (executed ≡ true)) × (length ≤ 20000))
released_lem claim executed length cleaned answer h = ground arith

released_if :
    (claim executed : Bool) (length : ℕ) (cleaned : String)
    → (claim ≡ false) ⊎ (executed ≡ true)
    → length ≤ 20000
    → released claim executed length cleaned ≡ passed cleaned
released_if claim executed length cleaned h k = ground arith

IsAllowed-if :
    (u : Unicode) (text answer : String) (executed : Bool)
    → validate_output u text executed ≡ passed answer
    → (sanitize_customer_answer u text ≡ answer) × IsAllowed u executed answer
unfolding validate_output
IsAllowed-if u text answer executed h =
    let cleaned : String = sanitize_customer_answer u text in
    let (e, (honest, short)) =
      released_lem (claims_refund u cleaned) executed (text_length cleaned) cleaned answer h in
    (e, subst (IsAllowed u executed) e (record { honest = honest; short = short }))

-- The output guardrail lets through the cleaned text and no other, and exactly when that text is at
-- most 20,000 characters long and claims no refund, unless a refund was executed.
pub validate_output_iff :
    (u : Unicode) (text answer : String) (executed : Bool)
    → (validate_output u text executed ≡ passed answer)
      ↔ ((sanitize_customer_answer u text ≡ answer) × IsAllowed u executed answer)
unfolding validate_output
validate_output_iff u text answer executed = (
  IsAllowed-if u text answer executed,
  λ h. rw h.0 (
      released_if (claims_refund u answer) executed (text_length answer) answer h.1.honest
        h.1.short),
)
