-- ===== src/Policy/Refund/Amount.antt =====
-- The money, the fee and the human approval of a refund decision, and how it ages.
use ai_customer_support_plat.Prelude.{
  Option-cases, arith, false, inl, inr, ltb, none, not, refl, some, true, ℕ, ◌==◌, ◌||◌, ◌≡◌, ◌≤◌,
  ◌⊎◌,
}
use ai_customer_support_plat.Policy.Types.{CompanyConfig, RefundDecision}
use ai_customer_support_plat.Policy.Refund.{RefundQuery, can_refund}
use ai_customer_support_plat.Policy.Refund.Eligibility.{
  Ground, can_refund_iff, charged_twice, defect, withdrawal, within_window,
}

-- What an eligible decision promises, and what a refusal withholds.
pub record Granted (c : CompanyConfig) (q : RefundQuery) (d : RefundDecision) : Type 0 where
  pub whole_amount : d.max_amount ≡ some q.amount
  pub approval : d.requires_human ≡ (ltb c.approval_threshold_brl q.amount || d.inspection_required)
  pub fee :
      (d.restocking_fee_rate ≡ some 0)
      ⊎ ((d.restocking_fee_rate ≡ some c.restocking_fee_rate)
          × ((q.reason == "defective_product") ≡ false))

pub record Refused (q : RefundQuery) (d : RefundDecision) : Type 0 where
  pub no_amount : d.max_amount ≡ none
  pub no_fee : d.restocking_fee_rate ≡ none
  pub human_for_identity : d.requires_human ≡ not q.identity_verified

module _ (c : CompanyConfig) (q : RefundQuery) where
  granted_lem : (can_refund c q).eligible ≡ true → Granted c q (can_refund c q)
  unfolding can_refund
  granted_lem h = elim (Option-cases q.days_since_delivery) [
    | inl e ↦ record { whole_amount = ground arith; approval = ground arith; fee = ground arith }
    | inr (days, e) ↦ record {
      whole_amount = ground arith;
      approval = ground arith;
      fee = ground arith;
    }
  ]

  refused_lem : (can_refund c q).eligible ≡ false → Refused q (can_refund c q)
  unfolding can_refund
  refused_lem h = elim (Option-cases q.days_since_delivery) [
    | inl e ↦ record {
      no_amount = ground arith;
      no_fee = ground arith;
      human_for_identity = ground arith;
    }
    | inr (days, e) ↦ record {
      no_amount = ground arith;
      no_fee = ground arith;
      human_for_identity = ground arith;
    }
  ]

-- An eligible refund is for the whole amount, charges the restocking fee only when the product is
-- not defective, and is left to a human exactly when it is above the approval threshold or needs an
-- inspection; a refusal names no amount and no fee, and is left to a human exactly when the
-- identity is not verified.
pub can_refund_terms :
    (c : CompanyConfig) (q : RefundQuery)
    → ((can_refund c q).eligible ≡ true → Granted c q (can_refund c q))
      × ((can_refund c q).eligible ≡ false → Refused q (can_refund c q))
can_refund_terms c q = (granted_lem c q, refused_lem c q)

-- the same question, asked when `days` have passed since the delivery
abbrev pub asked_after : ℕ → RefundQuery → RefundQuery
asked_after days q = record q { days_since_delivery = some days }

earlier_Ground :
    (c : CompanyConfig) (q : RefundQuery) (early late : ℕ)
    → early ≤ late
    → Ground c (asked_after late q)
    → Ground c (asked_after early q)
earlier_Ground c q early late le (withdrawal days r d w) = withdrawal early r refl (ground arith)
earlier_Ground c q early late le (charged_twice r d) = charged_twice r d
earlier_Ground c q early late le (defect days r d w) = defect early r refl (ground arith)
earlier_Ground c q early late le (within_window days r x s d w) =
    within_window early r x s refl (ground arith)

-- Waiting never opens a refund: what is eligible some days after the delivery was eligible on every
-- earlier day.
pub can_refund_earlier :
    (c : CompanyConfig) (q : RefundQuery) (early late : ℕ)
    → early ≤ late
    → (can_refund c (asked_after late q)).eligible ≡ true
    → (can_refund c (asked_after early q)).eligible ≡ true
can_refund_earlier c q early late le h =
    let (v, g) = (can_refund_iff c (asked_after late q)).0 h in
    (can_refund_iff c (asked_after early q)).1 (v, earlier_Ground c q early late le g)
