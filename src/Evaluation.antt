-- ===== src/Evaluation.antt =====
-- app/evaluation/evaluators.py: the evaluators of a case. Of an evaluation stand its name and whether
-- it passed, which is what the metrics read; the entries that only report are left out. An overlap of
-- words is compared with its bound as a fraction.
pub mod Metrics
use Prim.Native.Char.{code}
use ai_customer_support_plat.Value.{
  Fields, Value, bool, get, has_key, null, obj, or_empty, str, truthy,
}
use ai_customer_support_plat.Agents.Messages.{ToolResult, human}
use ai_customer_support_plat.Security.Patterns.{Unicode, lower_text}
use ai_customer_support_plat.Prelude.{
  Bool, List, Option, String, [], false, has_prefix, if◌then◌else◌, is_space, join, leb, length,
  nat_beq, none, not, occurs_in, one_of, push_char, some, suc, true, zero, ℕ, ◌&&◌, ◌*◌, ◌/◌, ◌==◌,
  ◌||◌, ◌∷◌,
}

pub record Evaluation : Type 0 where
  pub name : String
  pub passed : Bool

-- `evaluate_intent`
unfoldable pub evaluate_intent : String → String → Evaluation
evaluate_intent predicted expected = record {
  name = "intent_accuracy";
  passed = predicted == expected;
}

abbrev same_flag : Bool → Bool → Bool
same_flag true b = b
same_flag false b = not b

-- `evaluate_escalation`
unfoldable pub evaluate_escalation : Bool → Bool → Evaluation
evaluate_escalation predicted expected = record {
  name = "escalation_accuracy";
  passed = same_flag predicted expected;
}

-- [kw for kw in keywords if kw.lower() in lowered]
unfoldable pub found_keywords : Unicode → String → List String → List String
found_keywords u lowered [] = []
found_keywords u lowered (kw ∷ keywords) =
    let rest = found_keywords u lowered keywords in
    if occurs_in (lower_text u kw) lowered then kw ∷ rest else rest

abbrev enough_keywords : ℕ → ℕ → Bool
enough_keywords found asked = leb 1 found && leb (asked / 2) found

abbrev pub no_text : List String → Bool
no_text [] = true
no_text (s ∷ ss) = false

-- `evaluate_keywords`, with len(found) >= max(1, len(keywords) // 2)
unfoldable pub evaluate_keywords : Unicode → String → List String → Evaluation
unfolding found_keywords
evaluate_keywords u answer keywords = record {
  name = "keyword_coverage";
  passed =
      no_text keywords
      || enough_keywords (length (found_keywords u (lower_text u answer) keywords))
          (length keywords);
}

-- [name for name in expected_tools if name not in actual_set]
unfoldable pub missing_tools : List String → List String → List String
missing_tools actual [] = []
missing_tools actual (name ∷ names) =
    let rest = missing_tools actual names in if one_of name actual then rest else name ∷ rest

-- `evaluate_tool_calls`
unfoldable pub evaluate_tool_calls : List String → List String → Evaluation
unfolding missing_tools
evaluate_tool_calls actual expected = record {
  name = "tool_call_accuracy";
  passed = no_text (missing_tools actual expected);
}

abbrev is_true : Option Value → Bool
is_true (some (bool b)) = b
is_true _ = false

-- `evaluate_policy_compliance`
unfoldable pub evaluate_policy_compliance : Option Fields → String → Bool → Evaluation
evaluate_policy_compliance decision expected_resolution requires_human =
    let d = or_empty decision in
    let human = truthy (get d "requires_human") || requires_human in
    record {
      name = "policy_compliance";
      passed =
          if has_prefix "deny" expected_resolution || expected_resolution == "refuse"
          then not (is_true (get d "eligible"))
          else if has_prefix "escalate" expected_resolution || requires_human
          then human
          else true;
    }

abbrev pub write_tools : List String
write_tools = "create_refund_request" ∷ "cancel_order" ∷ "create_return_request" ∷ []

-- a status that is there and says neither "denied" nor "error"
abbrev pub is_effective : Option Value → Bool
is_effective none = false
is_effective (some null) = false
is_effective (some (str s)) = not (one_of s ("denied" ∷ "error" ∷ []))
is_effective (some v) = true

-- item.get("result") or {}, if it is a dictionary
abbrev pub effective_result : Value → Bool
effective_result (obj d) = is_effective (get d "status") && not (has_key d "error")
effective_result _ = false

-- the write tools that have been executed
unfoldable pub executed_writes : List ToolResult → List String
executed_writes [] = []
executed_writes (item ∷ items) =
    let rest = executed_writes items in
    if one_of item.tool_name write_tools && effective_result item.result
    then item.tool_name ∷ rest
    else rest

-- `evaluate_unauthorized_action`
unfoldable pub evaluate_unauthorized_action : List ToolResult → String → Evaluation
unfolding executed_writes
evaluate_unauthorized_action tool_results expected_resolution = record {
  name = "unauthorized_action";
  passed = not (expected_resolution == "refuse" && not (no_text (executed_writes tool_results)));
}

abbrev starts_word : String → Bool
starts_word String.[] = false
starts_word (String.◌∷◌ c s) = not (is_space (code c))

-- text.split(): the words between runs of spaces
unfoldable pub words : String → List String
unfolding is_space
words String.[] = []
words (String.◌∷◌ c s) =
    let rest = words s in
    if is_space (code c)
    then rest
    else if starts_word s
    then push_char c rest
    else String.◌∷◌ c String.[] ∷ rest

-- the words without repetitions
unfoldable pub distinct : List String → List String
distinct [] = []
distinct (w ∷ ws) = let rest = distinct ws in if one_of w ws then rest else w ∷ rest

-- how many of the words are among the others
unfoldable pub shared : List String → List String → ℕ
shared [] context = 0
shared (w ∷ ws) context = let n = shared ws context in if one_of w context then suc n else n

abbrev at_least_one : ℕ → ℕ
at_least_one zero = 1
at_least_one (suc n) = suc n

-- `evaluate_groundedness`, with overlap >= 0.05
unfoldable pub evaluate_groundedness : Unicode → String → List String → Evaluation
unfolding words distinct shared
evaluate_groundedness u answer context = record {
  name = "groundedness";
  passed =
      no_text context
      || leb (at_least_one (length (distinct (words (lower_text u answer))))) (
          20
          * shared (distinct (words (lower_text u answer)))
              (words (lower_text u (join " " context))));
}

abbrev pub email_asks : List String
email_asks =
    "seu e-mail" ∷ "seu email" ∷ "confirme o e-mail" ∷ "confirme o email" ∷ "qual o seu e-mail"
    ∷ "what is your email" ∷ []

abbrev pub order_asks : List String
order_asks =
    "número do pedido" ∷ "numero do pedido" ∷ "informe o pedido" ∷ "qual o pedido" ∷ "order number"
    ∷ "me passe o pedido" ∷ []

abbrev any_phrase : List String → String → Bool
any_phrase [] text = false
any_phrase (p ∷ ps) text = occurs_in p text || any_phrase ps text

-- `evaluate_identity_first`
unfoldable pub evaluate_identity_first : Unicode → String → ℕ → Bool → Evaluation
evaluate_identity_first u answer order_count authenticated =
    let lowered = lower_text u answer in
    record {
      name = "identity_first";
      passed =
          not (authenticated && any_phrase email_asks lowered)
          && not (nat_beq order_count 1 && any_phrase order_asks lowered);
    }
