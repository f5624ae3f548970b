-- ===== src/Security/Answers/Reason.antt =====
-- The internal reason of an escalation, in the text of an answer.
use Prim.Native.Char.{Char}
use ai_customer_support_plat.Security.Patterns.{Unicode, lower_text}
use ai_customer_support_plat.Security.Answers.{cut_reason, reason_starts}
use ai_customer_support_plat.Prelude.{
  Bool, Bool-cases, String, and_both, and_parts, both_false, false, false_parts, has_prefix,
  if◌then◌else◌, inl, inr, occurs_in, refl, true, true_not_false, ◌≡◌,
}

-- "Escalation reason:" stands somewhere in the text, in any case
abbrev pub names_reason : Unicode → String → Bool
names_reason u s = occurs_in "escalation reason:" (lower_text u s)

-- Cutting a text makes nothing stand at its start that did not stand there.
has_prefix-cut_reason :
    (u : Unicode) (p s : String)
    → has_prefix p (lower_text u (cut_reason u s)) ≡ true
    → has_prefix p (lower_text u s) ≡ true
unfolding cut_reason has_prefix lower_text
has_prefix-cut_reason u String.[] s h = refl
has_prefix-cut_reason u (String.◌∷◌ a p) String.[] h = h
has_prefix-cut_reason u (String.◌∷◌ a p) (String.◌∷◌ c s) h =
    go (has_prefix-cut_reason u p s) (reason_starts u (String.◌∷◌ c s)) h
  where
    go :
        (has_prefix p (lower_text u (cut_reason u s)) ≡ true → has_prefix p (lower_text u s) ≡ true)
        → (b : Bool)
        → has_prefix
            (String.◌∷◌ a p)
            (lower_text u (if b then String.[] else String.◌∷◌ c (cut_reason u s)))
          ≡ true
        → has_prefix (String.◌∷◌ a p) (lower_text u (String.◌∷◌ c s)) ≡ true
    go ih true x = cc
    go ih false x = let (e, r) = and_parts _ _ x in and_both e (ih r)

has_prefix-behind_char :
    (u : Unicode) (p : String) (c : Char) (s : String)
    → has_prefix p (lower_text u (String.◌∷◌ c (cut_reason u s))) ≡ true
    → has_prefix p (lower_text u (String.◌∷◌ c s)) ≡ true
unfolding has_prefix lower_text
has_prefix-behind_char u String.[] c s h = refl
has_prefix-behind_char u (String.◌∷◌ a p) c s h =
    let (e, r) = and_parts _ _ h in and_both e (has_prefix-cut_reason u p s r)

-- The two ways in which a text with a first character names the reason.
names_reason-cons :
    (u : Unicode) (c : Char) (s : String)
    → has_prefix "escalation reason:" (lower_text u (String.◌∷◌ c s)) ≡ false
    → names_reason u s ≡ false
    → names_reason u (String.◌∷◌ c s) ≡ false
unfolding occurs_in lower_text
names_reason-cons u c s h k = both_false h k

reason_starts-prefix :
    (u : Unicode) (s : String)
    → reason_starts u s ≡ false
    → has_prefix "escalation reason:" (lower_text u s) ≡ false
unfolding reason_starts
reason_starts-prefix u s h = (false_parts _ _ h).0

-- No answer that has been cut names the reason of the escalation.
pub cut_reason-silent : (u : Unicode) (s : String) → names_reason u (cut_reason u s) ≡ false
unfolding cut_reason
cut_reason-silent u String.[] = unfold occurs_in has_prefix lower_text in refl
cut_reason-silent u (String.◌∷◌ c s) =
    go (cut_reason-silent u s) (reason_starts u (String.◌∷◌ c s)) refl
  where
    no_prefix :
        reason_starts u (String.◌∷◌ c s) ≡ false
        → has_prefix "escalation reason:" (lower_text u (String.◌∷◌ c (cut_reason u s))) ≡ false
    no_prefix e =
        elim (Bool-cases
          (has_prefix "escalation reason:" (lower_text u (String.◌∷◌ c (cut_reason u s))))) [
            | inl x ↦ absurd (
                true_not_false (has_prefix-behind_char u "escalation reason:" c s x)
                  (reason_starts-prefix u (String.◌∷◌ c s) e))
            | inr x ↦ x
          ]

    go :
        names_reason u (cut_reason u s) ≡ false
        → (b : Bool) → reason_starts u (String.◌∷◌ c s) ≡ b
        → names_reason u (if b then String.[] else String.◌∷◌ c (cut_reason u s)) ≡ false
    go ih true e = unfold occurs_in has_prefix lower_text in refl
    go ih false e = names_reason-cons u c (cut_reason u s) (no_prefix e) ih
