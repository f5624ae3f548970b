-- ===== src/Policy/Refund/Eligibility.antt =====
-- What `can_refund` grants, and on what grounds.
use ai_customer_support_plat.Prelude.{
  Bool, Bool-cases, Option-cases, String, arith, eq_iff, false, inl, inr, refl, some, test_apart,
  test_false, test_true, tested_ne, true, ℕ, ◌&&◌, ◌==◌, ◌↔◌, ◌≡◌, ◌≢◌, ◌≤◌, ◌⊎◌,
}
use ai_customer_support_plat.Policy.Types.{CompanyConfig}
use ai_customer_support_plat.Policy.Refund.{RefundQuery, can_refund, legal_window}

-- The lawful grounds of a refund, each by its own conditions and in no order.
pub data Ground (c : CompanyConfig) (q : RefundQuery) : Type 0 where
  withdrawal :
      (days : ℕ)
      → q.reason ≡ "withdrawal"
      → q.days_since_delivery ≡ some days
      → days ≤ legal_window c
      → Ground c q
  charged_twice : q.reason ≢ "withdrawal" → q.duplicate_charge ≡ true → Ground c q
  defect :
      (days : ℕ)
      → q.reason ≡ "defective_product"
      → q.days_since_delivery ≡ some days
      → days ≤ q.warranty_days
      → Ground c q
  within_window :
      (days : ℕ)
      → q.reason ≢ "withdrawal"
      → q.reason ≢ "defective_product"
      → (q.final_sale ≡ false) ⊎ (q.reason ≢ "customer_preference")
      → q.days_since_delivery ≡ some days
      → days ≤ c.standard_window_days
      → Ground c q

module _ (c : CompanyConfig) (q : RefundQuery) (v : q.identity_verified ≡ true) where
  grant_withdrawal :
      (days : ℕ)
      → (q.reason == "withdrawal") ≡ true
      → q.days_since_delivery ≡ some days
      → days ≤ legal_window c
      → (can_refund c q).eligible ≡ true
  unfolding can_refund
  grant_withdrawal days r d w = ground arith

  grant_duplicate :
      (q.reason == "withdrawal") ≡ false
      → q.duplicate_charge ≡ true
      → (can_refund c q).eligible ≡ true
  unfolding can_refund
  grant_duplicate r d = ground arith

  grant_defect :
      (days : ℕ)
      → (q.reason == "withdrawal") ≡ false
      → (q.reason == "customer_preference") ≡ false
      → (q.reason == "defective_product") ≡ true
      → q.days_since_delivery ≡ some days
      → days ≤ q.warranty_days
      → (can_refund c q).eligible ≡ true
  unfolding can_refund
  grant_defect days r p x d w = ground arith

  grant_within_window :
      (days : ℕ)
      → (q.reason == "withdrawal") ≡ false
      → (q.reason == "defective_product") ≡ false
      → (q.final_sale && q.reason == "customer_preference") ≡ false
      → q.days_since_delivery ≡ some days
      → days ≤ c.standard_window_days
      → (can_refund c q).eligible ≡ true
  unfolding can_refund
  grant_within_window days r x s d w = ground arith

and_false : (b : Bool) {s t : String} → (b ≡ false) ⊎ (s ≢ t) → (b && s == t) ≡ false
and_false true (inl e) = cc
and_false true (inr n) = test_false n
and_false false _ = refl

Ground-can_refund :
    (c : CompanyConfig) (q : RefundQuery)
    → q.identity_verified ≡ true
    → Ground c q
    → (can_refund c q).eligible ≡ true
Ground-can_refund c q v (withdrawal days r d w) = grant_withdrawal c q v days (test_true r) d w
Ground-can_refund c q v (charged_twice r d) = grant_duplicate c q v (test_false r) d
Ground-can_refund c q v (defect days r d w) =
    grant_defect c q v days (test_apart _ r refl) (test_apart _ r refl) (test_true r) d w
Ground-can_refund c q v (within_window days r x s d w) =
    grant_within_window c q v days (test_false r) (test_false x) (and_false q.final_sale s) d w

eligible-identity :
    (c : CompanyConfig) (q : RefundQuery)
    → (can_refund c q).eligible ≡ true
    → q.identity_verified ≡ true
unfolding can_refund
eligible-identity c q h = ground arith

module _ (c : CompanyConfig) (q : RefundQuery) (h : (can_refund c q).eligible ≡ true) where
  by_withdrawal :
      (q.reason == "withdrawal") ≡ true
      → (days : ℕ) × (q.days_since_delivery ≡ some days) × (days ≤ legal_window c)
  unfolding can_refund
  by_withdrawal r = elim (Option-cases q.days_since_delivery) [
    | inl e ↦ absurd (ground arith)
    | inr (days, e) ↦ (days, e, ground arith)
  ]

  by_delivery :
      (q.reason == "withdrawal") ≡ false
      → q.duplicate_charge ≡ false
      → (days : ℕ) × (q.days_since_delivery ≡ some days)
        × ((q.final_sale && q.reason == "customer_preference") ≡ false)
        × ((q.reason == "defective_product") ≡ true → days ≤ q.warranty_days)
        × ((q.reason == "defective_product") ≡ false → days ≤ c.standard_window_days)
  unfolding can_refund
  by_delivery r n = elim (Option-cases q.days_since_delivery) [
    | inl e ↦ absurd (ground arith)
    | inr (days, e) ↦ (days, e, ground arith, ground arith, ground arith)
  ]

not_final : (b : Bool) {s t : String} → (b && s == t) ≡ false → (b ≡ false) ⊎ (s ≢ t)
not_final false h = inl refl
not_final true h = inr (tested_ne h)

can_refund-Ground :
    (c : CompanyConfig) (q : RefundQuery) → (can_refund c q).eligible ≡ true → Ground c q
can_refund-Ground c q h = elim (Bool-cases (q.reason == "withdrawal")) [
  | inl r ↦ let (days, d, w) = by_withdrawal c q h r in withdrawal days ((eq_iff _ _).0 r) d w
  | inr r ↦ elim (Bool-cases q.duplicate_charge) [
    | inl d ↦ charged_twice (tested_ne r) d
    | inr n ↦
        let (days, d, s, w, w') = by_delivery c q h r n in
        elim (Bool-cases (q.reason == "defective_product")) [
          | inl x ↦ defect days ((eq_iff _ _).0 x) d (w x)
          | inr x ↦
              within_window days (tested_ne r) (tested_ne x) (not_final q.final_sale s) d (w' x)
        ]
  ]
]

-- `can_refund` finds a refund eligible exactly when the identity is verified and one of the lawful
-- grounds holds: a withdrawal in its legal window, a duplicate charge outside a withdrawal, a
-- defect under warranty, or any other reason in the standard window that is no change of mind about
-- a final sale.
pub can_refund_iff :
    (c : CompanyConfig) (q : RefundQuery)
    → ((can_refund c q).eligible ≡ true) ↔ ((q.identity_verified ≡ true) × Ground c q)
can_refund_iff c q =
    (λ h. (eligible-identity c q h, can_refund-Ground c q h), λ g. Ground-can_refund c q g.0 g.1)
