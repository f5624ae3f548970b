-- ===== src/Policy/Escalation/Catalog.antt =====
-- The catalog as a whole: which Facts escalate, whatever the order in which the rule looks at them.
use ai_customer_support_plat.Prelude.{
  Bool, Bool-cases, List, Option, String, [], and_both, and_parts, any_at, any_elim, any_of, ap,
  arith, false, if◌then◌else◌, inl, inr, none, one_of, or_cases, or_left, refl, some, test_at, true,
  ℕ, ◌&&◌, ◌==◌, ◌||◌, ◌↔◌, ◌∙◌, ◌∷◌, ◌≡◌,
}
use ai_customer_support_plat.Value.{Fields, Value, get, is_false, is_text, truthy, truthy_value}
use ai_customer_support_plat.Policy.Types.{EscalationDecision}
use ai_customer_support_plat.Policy.Escalation.{
  always_escalate, escalation_from_facts, in_thread, named_trigger, should_escalate, text_of,
}

-- The grounds of an escalation, each by itself.
pub data CatalogHit (facts : Fields) : Type 0 where
  account_suspended : is_text (get facts "account_status") "suspended" ≡ true → CatalogHit facts
  account_closed : is_text (get facts "account_status") "closed" ≡ true → CatalogHit facts
  identity_failed :
      truthy (get facts "identity_checked") ≡ true
      → is_false (get facts "identity_verified") ≡ true
      → CatalogHit facts
  parcel_missing :
      is_text (get facts "shipment_status") "delivered" ≡ true
      → is_false (get facts "customer_received") ≡ true
      → CatalogHit facts
  fraud_reported : truthy (get facts "fraud_reported") ≡ true → CatalogHit facts
  charged_back : truthy (get facts "chargeback") ≡ true → CatalogHit facts
  privacy : truthy (get facts "privacy_beyond_own_profile") ≡ true → CatalogHit facts
  technical : truthy (get facts "product_technical_assistance") ≡ true → CatalogHit facts
  insists : truthy (get facts "customer_insists_after_refusal") ≡ true → CatalogHit facts
  named :
      (v : Value)
      → get facts "escalation_trigger" ≡ some v
      → truthy_value v ≡ true
      → one_of (text_of v) always_escalate ≡ true
      → CatalogHit facts

-- A trigger escalates if it always does, or if the customer insists after a lawful refusal.
should_escalate_iff :
    (t : String) (b : Bool)
    → (should_escalate t b).escalate ≡ (one_of t always_escalate || ((t == "lawful_refusal") && b))
unfolding should_escalate
should_escalate_iff t b = ground arith

-- The ladder of `escalation_from_facts` over its tests.
ladder :
    (suspended closed checked failed delivered missing fraud chargeback privacy technical
      insists : Bool)
    (rest : EscalationDecision)
    → (if suspended || closed
        then should_escalate "unusable_identity" false
        else if checked && failed
        then should_escalate "unusable_identity" false
        else if delivered && missing
        then should_escalate "delivered_but_missing" false
        else if fraud || chargeback
        then should_escalate "fraud" false
        else if privacy
        then should_escalate "privacy_beyond_own_profile" false
        else if technical
        then should_escalate "product_technical_assistance" false
        else if insists
        then should_escalate "lawful_refusal" true
        else rest).escalate
      ≡ any_of (
          suspended
          ∷ closed
          ∷ (checked && failed)
          ∷ (delivered && missing)
          ∷ fraud
          ∷ chargeback
          ∷ privacy
          ∷ technical
          ∷ insists
          ∷ rest.escalate
          ∷ [])
unfolding should_escalate any_of
ladder true _ _ _ _ _ _ _ _ _ _ rest = refl
ladder false true _ _ _ _ _ _ _ _ _ rest = refl
ladder false false true true _ _ _ _ _ _ _ rest = refl
ladder false false true false d m f c p t i rest = ground arith
ladder false false false x d m f c p t i rest = ground arith

-- The trigger that the Facts name: it escalates if the catalog always does.
named-Hit :
    (facts : Fields)
    → (named_trigger facts (get facts "escalation_trigger")).escalate ≡ true
    → truthy (get facts "customer_insists_after_refusal") ≡ false
    → CatalogHit facts
named-Hit facts h n = go (get facts "escalation_trigger") refl h
  where
    always :
        (t : String) → (should_escalate t false).escalate ≡ true → one_of t always_escalate ≡ true
    always t x = elim (or_cases _ _ (rw should_escalate_iff at x)) [
      | inl y ↦ y
      | inr y ↦ let (_, f) = and_parts (t == "lawful_refusal") false y in absurd (cc)
    ]

    go_true :
        (v : Value)
        → get facts "escalation_trigger" ≡ some v
        → (b : Bool) → truthy_value v ≡ b
        → (if b
            then should_escalate (text_of v) (truthy (get facts "customer_insists_after_refusal"))
            else in_thread "NO_CATALOG_HIT" []).escalate
          ≡ true
        → CatalogHit facts
    go_true v e true t k = named v e t (always (text_of v) (rw n at k))
    go_true v e false t k = cc

    go :
        (o : Option Value)
        → get facts "escalation_trigger" ≡ o
        → (named_trigger facts o).escalate ≡ true
        → CatalogHit facts
    go none e k = cc
    go (some v) e k = go_true v e (truthy_value v) refl k

module _ (facts : Fields) where
  -- what the rule looks at, in its order
  abbrev tests : List Bool
  tests =
      is_text (get facts "account_status") "suspended"
      ∷ is_text (get facts "account_status") "closed"
      ∷ (truthy (get facts "identity_checked") && is_false (get facts "identity_verified"))
      ∷ (is_text (get facts "shipment_status") "delivered"
          && is_false (get facts "customer_received"))
      ∷ truthy (get facts "fraud_reported")
      ∷ truthy (get facts "chargeback")
      ∷ truthy (get facts "privacy_beyond_own_profile")
      ∷ truthy (get facts "product_technical_assistance")
      ∷ truthy (get facts "customer_insists_after_refusal")
      ∷ (named_trigger facts (get facts "escalation_trigger")).escalate
      ∷ []

  escalates_ladder : (escalation_from_facts facts).escalate ≡ any_of tests
  unfolding escalation_from_facts
  escalates_ladder =
      ladder (is_text (get facts "account_status") "suspended")
        (is_text (get facts "account_status") "closed") (truthy (get facts "identity_checked"))
        (is_false (get facts "identity_verified"))
        (is_text (get facts "shipment_status") "delivered")
        (is_false (get facts "customer_received")) (truthy (get facts "fraud_reported"))
        (truthy (get facts "chargeback")) (truthy (get facts "privacy_beyond_own_profile"))
        (truthy (get facts "product_technical_assistance"))
        (truthy (get facts "customer_insists_after_refusal"))
        (named_trigger facts (get facts "escalation_trigger"))

  hit_if_escalated : (escalation_from_facts facts).escalate ≡ true → CatalogHit facts
  hit_if_escalated h = elim (Bool-cases (truthy (get facts "customer_insists_after_refusal"))) [
    | inl x ↦ insists x
    | inr n ↦
        any_elim (CatalogHit facts) _
          (
            account_suspended,
            (
              account_closed,
              (
                λ x. let (a, b) = and_parts _ _ x in identity_failed a b,
                (
                  λ x. let (a, b) = and_parts _ _ x in parcel_missing a b,
                  (
                    fraud_reported,
                    (
                      charged_back,
                      (privacy, (technical, (insists, (λ x. named-Hit facts x n, tt)))),
                    ),
                  ),
                ),
              ),
            ),
          )
          (rw escalates_ladder at h)
  ]

  named-escalates :
      (v : Value)
      → get facts "escalation_trigger" ≡ some v
      → truthy_value v ≡ true
      → one_of (text_of v) always_escalate ≡ true
      → (named_trigger facts (get facts "escalation_trigger")).escalate ≡ true
  named-escalates v e t o = rw e (rw t (rw should_escalate_iff (or_left _ o)))

  escalated_by_test :
      (n : ℕ) {b : Bool}
      → test_at n tests ≡ some b
      → b ≡ true
      → (escalation_from_facts facts).escalate ≡ true
  escalated_by_test n e h = rw escalates_ladder (any_at n tests (e ∙ ap some h))

  escalated_if_hit : CatalogHit facts → (escalation_from_facts facts).escalate ≡ true
  escalated_if_hit (account_suspended h) = escalated_by_test 0 refl h
  escalated_if_hit (account_closed h) = escalated_by_test 1 refl h
  escalated_if_hit (identity_failed h k) = escalated_by_test 2 refl (and_both h k)
  escalated_if_hit (parcel_missing h k) = escalated_by_test 3 refl (and_both h k)
  escalated_if_hit (fraud_reported h) = escalated_by_test 4 refl h
  escalated_if_hit (charged_back h) = escalated_by_test 5 refl h
  escalated_if_hit (privacy h) = escalated_by_test 6 refl h
  escalated_if_hit (technical h) = escalated_by_test 7 refl h
  escalated_if_hit (insists h) = escalated_by_test 8 refl h
  escalated_if_hit (named v e t o) = escalated_by_test 9 refl (named-escalates v e t o)

-- The escalation rule escalates exactly on the grounds of the catalog: no ground is masked by one
-- that is looked at before it, and nothing else escalates.
pub escalation_from_facts_iff :
    (facts : Fields) → ((escalation_from_facts facts).escalate ≡ true) ↔ CatalogHit facts
escalation_from_facts_iff facts = (hit_if_escalated facts, escalated_if_hit facts)
