-- ===== src/Security/Guardrails.antt =====
-- `sanitize_input` and `validate_output` of app/security/guardrails.py. Whether a character belongs to
-- a word is asked of its lower case.
pub mod Outcomes
use ai_customer_support_plat.Security.Patterns.{
  Pattern, Unicode, either, literal, lower_text, optional, search, search_word, spaces, ◌‣◌,
}
use ai_customer_support_plat.Security.Answers.{sanitize_customer_answer, text_length}
use ai_customer_support_plat.Prelude.{
  Bool, List, String, [], false, if◌then◌else◌, length, ltb, not, strip, ℕ, ◌&&◌, ◌||◌, ◌∷◌,
}

-- INJECTION_PATTERNS
abbrev pub injection_patterns : List Pattern
injection_patterns =
    (literal "ignore" ‣ spaces ‣ literal "previous" ‣ spaces ‣ literal "instructions")
    ∷ (literal "ignore" ‣ spaces ‣ literal "a" ‣ spaces ‣ literal "pol")
    ∷ (literal "disregard" ‣ spaces ‣ literal "all")
    ∷ (literal "system" ‣ spaces ‣ literal "prompt")
    ∷ (literal "you" ‣ spaces ‣ literal "are" ‣ spaces ‣ literal "now")
    ∷ (literal "eu" ‣ spaces ‣ literal "sou" ‣ spaces ‣ literal "administrador")
    ∷ (literal "i"
        ‣ spaces
        ‣ literal "am"
        ‣ spaces
        ‣ optional (literal "a" ‣ optional (literal "n") ‣ spaces)
        ‣ literal "admin")
    ∷ []

-- REFUND_CLAIM_PATTERN, behind its `\b`
abbrev pub refund_claim_pattern : Pattern
refund_claim_pattern =
    either (literal "refund") (literal "reembolso")
    ‣ spaces
    ‣ either (literal "has" ‣ spaces ‣ literal "been")
        (either (literal "foi") (either (literal "was") (literal "está")))
    ‣ spaces
    ‣ either (literal "processed") (either (literal "aprovado") (literal "approved"))

-- The text that passes, or the reason of a `GuardrailViolation`.
pub data Checked : Type 0 where
  passed : String → Checked
  violation : String → Checked

unfoldable pub any_pattern : List Pattern → String → Bool
unfolding search
any_pattern [] s = false
any_pattern (p ∷ ps) s = search p s || any_pattern ps s

-- REFUND_CLAIM_PATTERN.search(text)
unfoldable pub claims_refund : Unicode → String → Bool
unfolding search_word lower_text
claims_refund u text = search_word u false refund_claim_pattern (lower_text u text)

-- the tests of `sanitize_input`, by what they find
abbrev pub admitted : Bool → ℕ → String → Checked
admitted injection length cleaned =
    if injection
    then violation "Potential prompt injection detected"
    else if ltb 10000 length
    then violation "Input exceeds maximum length"
    else passed cleaned

unfoldable pub sanitize_input : Unicode → String → Checked
sanitize_input u text =
    let cleaned = strip text in
    admitted (any_pattern injection_patterns (lower_text u cleaned)) (text_length cleaned) cleaned

-- the tests of `validate_output`, by what they find
abbrev pub released : Bool → Bool → ℕ → String → Checked
released claim refund_executed length cleaned =
    if claim && not refund_executed
    then violation "Output claims refund without executed refund"
    else if ltb 20000 length
    then violation "Output exceeds maximum length"
    else passed cleaned

unfoldable pub validate_output : Unicode → String → Bool → Checked
validate_output u text refund_executed =
    let cleaned = sanitize_customer_answer u text in
    released (claims_refund u cleaned) refund_executed (text_length cleaned) cleaned
