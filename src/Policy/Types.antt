-- ===== src/Policy/Types.antt =====
-- The decision types of app/policies/types.py, their `model_dump(mode="json")`, and the entries of
-- data/company/company.yaml that the rules read.
use ai_customer_support_plat.Prelude.{Bool, List, Option, String, none, some, ℕ}
use ai_customer_support_plat.Value.{Fields, Value, arr, bool, end, field, money, null, texts}

-- Amounts are Decimals with two places, counted in cents; the fee rate is counted in percent.
pub record CompanyConfig : Type 0 where
  pub standard_window_days : ℕ
  pub approval_threshold_brl : ℕ
  pub restocking_fee_rate : ℕ
  pub electronics_inspection_after_days : ℕ
  pub legal_days : Option ℕ

-- the values of data/company/company.yaml
abbrev pub company_config : CompanyConfig
company_config = record {
  standard_window_days = 30;
  approval_threshold_brl = 100000;
  restocking_fee_rate = 10;
  electronics_inspection_after_days = 7;
  legal_days = some 7;
}

pub record RefundDecision : Type 0 where
  pub eligible : Bool
  pub requires_human : Bool
  pub reasons : List String
  pub restocking_fee_rate : Option ℕ
  pub max_amount : Option ℕ
  pub original_payment_method_only : Bool
  pub inspection_required : Bool
  pub policy_ids : List String

pub record CancelDecision : Type 0 where
  pub eligible : Bool
  pub requires_human : Bool
  pub reasons : List String
  pub policy_ids : List String

pub record EscalationDecision : Type 0 where
  pub escalate : Bool
  pub reasons : List String
  pub policy_ids : List String

abbrev pub money_or_null : Option ℕ → Value
money_or_null none = null
money_or_null (some n) = money n

-- RefundDecision.model_dump(mode="json")
abbrev pub dump_refund : RefundDecision → Fields
dump_refund d = field "eligible" (bool d.eligible) (
    field "requires_human" (bool d.requires_human) (
      field "reasons" (arr (texts d.reasons)) (
        field "restocking_fee_rate" (money_or_null d.restocking_fee_rate) (
          field "max_amount" (money_or_null d.max_amount) (
            field "original_payment_method_only" (bool d.original_payment_method_only) (
              field "inspection_required" (bool d.inspection_required)
                (field "policy_ids" (arr (texts d.policy_ids)) end)))))))

-- CancelDecision.model_dump(mode="json")
abbrev pub dump_cancel : CancelDecision → Fields
dump_cancel d = field "eligible" (bool d.eligible) (
    field "requires_human" (bool d.requires_human)
      (field "reasons" (arr (texts d.reasons)) (field "policy_ids" (arr (texts d.policy_ids)) end)))
