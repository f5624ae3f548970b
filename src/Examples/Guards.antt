-- ===== src/Examples/Guards.antt =====
-- Runs of the guardrails.
use Prim.Native.Char.{code}
use ai_customer_support_plat.Tools.Workers.{billing}
use ai_customer_support_plat.Security.Patterns.{Unicode}
use ai_customer_support_plat.Security.Answers.{sanitize_customer_answer}
use ai_customer_support_plat.Security.Guardrails.{passed, validate_output}
use ai_customer_support_plat.Security.Guardrails.Outcomes.{IsAllowed, validate_output_iff}
use ai_customer_support_plat.Agents.Escalation.{text_or_empty}
use ai_customer_support_plat.Policy.Types.{company_config}
use ai_customer_support_plat.Graph.Edges.{resolution_node}
use ai_customer_support_plat.Graph.Nodes.{HumanPayload, resume_escalation, worker_node}
use ai_customer_support_plat.Graph.Guards.{Draft, output_guardrails_node, turn_claims_no_refund}
use ai_customer_support_plat.Examples.Data.{restless_model, search_kb, uuids, world}
use ai_customer_support_plat.Examples.Graph.{opened, prompt}
use ai_customer_support_plat.Prelude.{[], false, is_space, not, ◌↔◌, ◌≡◌}

-- the characters of ASCII, of which this text has small letters and spaces only
abbrev pub unicode : Unicode
unicode = record { lower_char = λ c. c; is_word = λ c. not (is_space (code c)) }

validate_output_iff_example :
    (validate_output unicode "your order has left." false ≡ passed "your order has left.") ↔ (
      (sanitize_customer_answer unicode "your order has left." ≡ "your order has left.")
      × IsAllowed unicode false "your order has left.")
validate_output_iff_example =
    validate_output_iff unicode "your order has left." "your order has left." false

turn_claims_no_refund_example :
    let t =
      (worker_node uuids [] company_config search_kb restless_model prompt billing
        (opened, world)).0 in
    Draft unicode false
      (text_or_empty (output_guardrails_node unicode (resolution_node t)).draft_answer)
    × Draft unicode false (
        text_or_empty
          (output_guardrails_node unicode (
            resume_escalation
              (HumanPayload.text "your refund has been processed.")
              t)).draft_answer)
turn_claims_no_refund_example =
    turn_claims_no_refund uuids [] company_config search_kb restless_model prompt unicode billing
      opened world (HumanPayload.text "your refund has been processed.")
