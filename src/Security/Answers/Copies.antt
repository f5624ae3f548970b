-- ===== src/Security/Answers/Copies.antt =====
-- What the collapse of repeated answers does.
use mathlib.Core.Path.{subst}
use ai_customer_support_plat.Security.Answers.{
  collapse_concatenated_copy, collapse_into, copies, take_text, text_length,
}
use ai_customer_support_plat.Prelude.{
  Bool-cases, String, ap, arith, eq_iff, false, inl, inr, ltb, nat_beq, not, refl, suc, sym,
  tested_ne, zero, ℕ, ◌%◌, ◌*◌, ◌+◌, ◌/◌, ◌==◌, ◌⁀◌, ◌∙◌, ◌≡◌, ◌≤◌, ◌⊎◌,
}

-- The text is two to four copies of a unit of twenty characters or more.
pub record Repeats (n : ℕ) (unit text : String) : Type 0 where
  pub least : 2 ≤ n
  pub most : n ≤ 4
  pub long : 20 ≤ text_length unit
  pub whole : copies n unit ≡ text

text_length-append : (s t : String) → text_length (s ⁀ t) ≡ text_length s + text_length t
unfolding text_length
text_length-append String.[] t = ground arith
text_length-append (String.◌∷◌ c s) t = ground (arith, text_length-append s t)

text_length-copies : (n : ℕ) (t : String) → text_length (copies n t) ≡ n * text_length t
unfolding copies
text_length-copies zero t = unfold text_length in ground arith
text_length-copies (suc n) t =
    rw (text_length-append t (copies n t)) (ground (arith, text_length-copies n t))

take_text-append : (s t : String) → take_text (text_length s) (s ⁀ t) ≡ s
unfolding take_text text_length
take_text-append String.[] String.[] = refl
take_text-append String.[] (String.◌∷◌ d t) = refl
take_text-append (String.◌∷◌ c s) t = ap (λ r. String.◌∷◌ c r) (take_text-append s t)

two_to_four : (n : ℕ) → 2 ≤ n → n ≤ 4 → (n ≡ 2) ⊎ ((n ≡ 3) ⊎ (n ≡ 4))
two_to_four n lo hi = ground arith

quotient_lem : (n k m : ℕ) → 2 ≤ n → n ≤ 4 → m ≡ n * k → (m % n ≡ 0) × (m / n ≡ k)
quotient_lem n k m lo hi e = elim (two_to_four n lo hi) [
  | inl two ↦ rw two (omega (arith, rw two at e), omega (arith, rw two at e))
  | inr (inl three) ↦ rw three (omega (arith, rw three at e), omega (arith, rw three at e))
  | inr (inr four) ↦ rw four (omega (arith, rw four at e), omega (arith, rw four at e))
]

-- A text of copies is divided into them.
module _ (n : ℕ) (text : String) where
  part : String
  part = take_text (text_length text / n) text

  divides :
      (unit : String)
      → Repeats n unit text
      → (text_length text % n ≡ 0) × (text_length text / n ≡ text_length unit)
  divides unit r =
      quotient_lem n (text_length unit) (text_length text) r.least r.most
        (ap text_length (sym r.whole) ∙ text_length-copies n unit)

  copies-prefix :
      (k : ℕ) (unit : String)
      → copies (suc k) unit ≡ text
      → take_text (text_length unit) text ≡ unit
  unfolding copies
  copies-prefix k unit e = rw (sym e) (take_text-append unit (copies k unit))

  prefix_lem :
      (m : ℕ) (unit : String)
      → 2 ≤ m
      → copies m unit ≡ text
      → take_text (text_length unit) text ≡ unit
  prefix_lem zero unit lo e = absurd (omega arith)
  prefix_lem (suc k) unit lo e = copies-prefix k unit e

  part-unit : (unit : String) → Repeats n unit text → part ≡ unit
  unfolding part
  part-unit unit r = rw (divides unit r).1 (prefix_lem n unit r.least r.whole)

-- one round of the loop
data Round (n : ℕ) (text rest : String) : String → Type 0 where
  collapsed : (unit : String) → Repeats n unit text → Round n text rest unit
  passed_by : ((unit : String) → ¬ (Repeats n unit text)) → Round n text rest rest

copied :
    (n : ℕ) (text : String)
    → 2 ≤ n
    → n ≤ 4
    → ltb (text_length text / n) 20 ≡ false
    → copies n (take_text (text_length text / n) text) ≡ text
    → Repeats n (take_text (text_length text / n) text) text
copied n text lo hi b whole =
    let unit : String = take_text (text_length text / n) text in
    let (_, q) =
      quotient_lem n (text_length unit) (text_length text) lo hi
        (ap text_length (sym whole) ∙ text_length-copies n unit) in
    record { least = lo; most = hi; long = ground arith; whole = whole }

collapse_into-Round :
    (n : ℕ) (text rest : String) → 2 ≤ n → n ≤ 4 → Round n text rest (collapse_into n text rest)
unfolding collapse_into part
collapse_into-Round n text rest lo hi = elim (Bool-cases (not (nat_beq (text_length text % n) 0))) [
  | inl a ↦ rw a (passed_by (λ unit r. ground (arith, divides n text unit r)))
  | inr a ↦ elim (Bool-cases (ltb (text_length text / n) 20)) [
    | inl b ↦ rw a (rw b (passed_by (λ unit r. ground (arith, divides n text unit r))))
    | inr b ↦ elim (Bool-cases (copies n (take_text (text_length text / n) text) == text)) [
      | inl c ↦ rw a (rw b (rw c (collapsed _ (copied n text lo hi b ((eq_iff _ _).0 c)))))
      | inr c ↦
          rw a
            (rw b (rw c (passed_by (λ unit r. tested_ne c (rw (part-unit n text unit r) r.whole)))))
    ]
  ]
]

-- A text that is copies of a long unit collapses into a unit; any other text stays.
pub data Collapse (text : String) : String → Type 0 where
  one_copy : (n : ℕ) (unit : String) → Repeats n unit text → Collapse text unit
  untouched : ((n : ℕ) (unit : String) → ¬ (Repeats n unit text)) → Collapse text text

next-Round :
    (n : ℕ) (text rest out : String)
    → Round n text rest out
    → (((unit : String) → ¬ (Repeats n unit text)) → Collapse text rest)
    → Collapse text out
next-Round n text rest _ (collapsed unit r) k = one_copy n unit r
next-Round n text rest _ (passed_by never) k = k never

none_left :
    (text : String)
    → ((unit : String) → ¬ (Repeats 2 unit text))
    → ((unit : String) → ¬ (Repeats 3 unit text))
    → ((unit : String) → ¬ (Repeats 4 unit text))
    → (n : ℕ) (unit : String) → ¬ (Repeats n unit text)
none_left text no2 no3 no4 n unit r = elim (two_to_four n r.least r.most) [
  | inl e ↦ no2 unit (subst (λ m. Repeats m unit text) e r)
  | inr (inl e) ↦ no3 unit (subst (λ m. Repeats m unit text) e r)
  | inr (inr e) ↦ no4 unit (subst (λ m. Repeats m unit text) e r)
]

forty_at_least : (n : ℕ) (unit text : String) → Repeats n unit text → 40 ≤ text_length text
forty_at_least n unit text r =
    let e : text_length text ≡ n * text_length unit =
      ap text_length (sym r.whole) ∙ text_length-copies n unit in
    elim (two_to_four n r.least r.most) [
      | inl two ↦ omega (arith, r.long, rw two at e)
      | inr (inl three) ↦ omega (arith, r.long, rw three at e)
      | inr (inr four) ↦ omega (arith, r.long, rw four at e)
    ]

-- The collapse of a pasted answer finds the copies: a text that is two, three or four copies of a
-- unit of twenty characters or more becomes such a unit, and every other text stays as it is.
pub collapse_concatenated_copy-Collapse :
    (text : String) → Collapse text (collapse_concatenated_copy text)
unfolding collapse_concatenated_copy
collapse_concatenated_copy-Collapse text = elim (Bool-cases (ltb (text_length text) 40)) [
  | inl b ↦ rw b (untouched (λ n unit r. ground (arith, forty_at_least n unit text r)))
  | inr b ↦ rw b (
      next-Round 2 text _ _ (collapse_into-Round 2 text _ (omega arith) (omega arith)) (λ no2.
        next-Round 3 text _ _ (collapse_into-Round 3 text _ (omega arith) (omega arith)) (λ no3.
          next-Round 4 text _ _ (collapse_into-Round 4 text text (omega arith) (omega arith))
            (λ no4. untouched (none_left text no2 no3 no4)))))
]
