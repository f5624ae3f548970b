-- ===== src/Policy/Refund.antt =====
-- `can_refund` of app/policies/rules.py.
pub mod Eligibility
pub mod Amount
use ai_customer_support_plat.Prelude.{
  Bool, List, Option, String, [], false, if◌then◌else◌, ltb, none, not, one_of, some, true, ℕ, ◌&&◌,
  ◌++◌, ◌==◌, ◌||◌, ◌∷◌,
}
use ai_customer_support_plat.Policy.Types.{CompanyConfig, RefundDecision}

-- ELECTRONICS
abbrev pub electronics : List String
electronics = "smartphones" ∷ "laptops" ∷ "monitors" ∷ "headphones" ∷ []

-- The keyword arguments of `can_refund`, but for `company`. `shipment_status` is not read.
pub record RefundQuery : Type 0 where
  pub days_since_delivery : Option ℕ
  pub amount : ℕ
  pub product_category : String
  pub final_sale : Bool
  pub reason : String
  pub identity_verified : Bool
  pub warranty_days : ℕ
  pub duplicate_charge : Bool
  pub shipment_status : Option String

-- A refusal: the other fields of the decision keep their defaults.
abbrev refused : Bool → String → List String → RefundDecision
refused human why policies = record {
  eligible = false;
  requires_human = human;
  reasons = why ∷ [];
  restocking_fee_rate = none;
  max_amount = none;
  original_payment_method_only = true;
  inspection_required = false;
  policy_ids = policies;
}

abbrev granted : CompanyConfig → RefundQuery → List String → ℕ → Bool → List String → RefundDecision
granted c q why fee inspection policies = record {
  eligible = true;
  requires_human = ltb c.approval_threshold_brl q.amount || inspection;
  reasons = why ++ (if inspection then "INSPECTION_REQUIRED" ∷ [] else []);
  restocking_fee_rate = some fee;
  max_amount = some q.amount;
  original_payment_method_only = true;
  inspection_required = inspection;
  policy_ids = policies;
}

-- company.get("withdrawal", {}).get("legal_days", 7)
unfoldable pub legal_window : CompanyConfig → ℕ
legal_window c = elim c.legal_days [ none ↦ 7 | some days ↦ days ]

-- `reason == "withdrawal"`
withdrawal_refund : CompanyConfig → RefundQuery → Option ℕ → RefundDecision
withdrawal_refund c q none =
    refused false "NOT_DELIVERED" ("refund_policy" ∷ "withdrawal_policy" ∷ [])
withdrawal_refund c q (some days) =
    if ltb (legal_window c) days
    then refused false "OUTSIDE_WITHDRAWAL_WINDOW" ("refund_policy" ∷ "withdrawal_policy" ∷ [])
    else granted c q ("WITHDRAWAL" ∷ []) 0 false ("refund_policy" ∷ "withdrawal_policy" ∷ [])

unfoldable pub needs_inspection : CompanyConfig → RefundQuery → ℕ → Bool
needs_inspection c q days =
    one_of q.product_category electronics && ltb c.electronics_inspection_after_days days

-- The rest of `can_refund`, from `if days_since_delivery is None`.
delivered_refund : CompanyConfig → RefundQuery → Option ℕ → RefundDecision
delivered_refund c q none = refused false "NOT_DELIVERED" ("refund_policy" ∷ [])
delivered_refund c q (some days) =
    if q.final_sale && q.reason == "customer_preference"
    then refused false "FINAL_SALE" ("refund_policy" ∷ "return_policy" ∷ [])
    else if q.reason == "defective_product"
    then (if ltb q.warranty_days days
        then refused false "OUTSIDE_WARRANTY" ("refund_policy" ∷ "warranty_policy" ∷ [])
        else granted c q
            ((if ltb c.standard_window_days days then "WARRANTY_EXCEPTION" else "DEFECTIVE") ∷ []) 0
            (needs_inspection c q days) ("refund_policy" ∷ "warranty_policy" ∷ []))
    else if ltb c.standard_window_days days
    then refused false "OUTSIDE_WINDOW" ("refund_policy" ∷ [])
    else granted c q ("WITHIN_WINDOW" ∷ []) c.restocking_fee_rate (needs_inspection c q days)
        ("refund_policy" ∷ [])

unfoldable pub can_refund : CompanyConfig → RefundQuery → RefundDecision
unfolding withdrawal_refund delivered_refund
can_refund c q =
    if not q.identity_verified
    then refused true "IDENTITY_REQUIRED" ("refund_policy" ∷ "account_policy" ∷ [])
    else if q.reason == "withdrawal"
    then withdrawal_refund c q q.days_since_delivery
    else if q.duplicate_charge
    then granted c q ("DUPLICATE_CHARGE" ∷ []) 0 false ("payment_policy" ∷ "refund_policy" ∷ [])
    else delivered_refund c q q.days_since_delivery
