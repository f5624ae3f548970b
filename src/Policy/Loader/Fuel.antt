-- ===== src/Policy/Loader/Fuel.antt =====
-- The fuel of the parser is enough for every text.
use ai_customer_support_plat.Prelude.{
  Bool-cases, List, Option, String, [], arith, fail, has_prefix, inl, inr, length, ltb, none,
  nonempty, not, ok, refl, some, strip, suc, zero, ℕ, ◌+◌, ◌<◌, ◌>>=◌, ◌||◌, ◌∷◌, ◌≡◌, ◌≤◌, ◌⊎◌,
}
use ai_customer_support_plat.Value.{Fields, Items, Value, end, null, put}
use ai_customer_support_plat.Policy.Loader.{
  Line, Numerals, Parsed, as_list, as_mapping, content_lines, deeper, drop_text, enough_fuel,
  key_and_rest, list_item, mapping_item, not_a_mapping, out_of_fuel, parse_block, parse_list,
  parse_mapping, parse_scalar, parse_simple_yaml, push_item, unexpected_indent, value_of,
}
use ai_customer_support_plat.Security.Answers.{split_lines}

-- The parser has not run out of fuel, and leaves at most so many lines.
abbrev pub Within : {A : Type 0} → ℕ → Parsed A → Type 0
Within n (ok (a, rest)) = length rest ≤ n
Within n (fail (unexpected_indent s)) = Unit
Within n (fail not_a_mapping) = ⊥
Within n (fail out_of_fuel) = ⊥

Within-weaken : {A : Type 0} (n k : ℕ) (m : Parsed A) → n ≤ k → Within n m → Within k m
Within-weaken n k (ok (a, rest)) le h = omega arith
Within-weaken n k (fail (unexpected_indent s)) le h = tt
Within-weaken n k (fail not_a_mapping) le h = h
Within-weaken n k (fail out_of_fuel) le h = h

Within-bind :
    {A B : Type 0} (n k : ℕ) (m : Parsed A) (f : A × List Line → Parsed B)
    → Within n m
    → ((a : A) (rest : List Line) → length rest ≤ n → Within k (f (a, rest)))
    → Within k (m >>= f)
Within-bind n k (ok (a, rest)) f h g = g a rest h
Within-bind n k (fail (unexpected_indent s)) f h g = tt
Within-bind n k (fail not_a_mapping) f h g = absurd h
Within-bind n k (fail out_of_fuel) f h g = absurd h

module _ (numerals : Numerals) where
  list_item-Within :
      (again : List Line → Parsed Items) (block : ℕ → List Line → Parsed Value) (indent : ℕ)
      (content : String) (i : ℕ) (ls : List Line)
      → ((rest : List Line) → length rest ≤ length ls → Within (length rest) (again rest))
      → ((j : ℕ) → Within (length ls) (block j ls))
      → Within (suc (length ls)) (list_item numerals again block indent content i ls)
  list_item-Within again block indent content i ls more inner =
      elim (Bool-cases (ltb i indent || not (has_prefix "- " content))) [
        | inl e ↦ rw e (omega arith)
        | inr e ↦ elim (Bool-cases (nonempty (strip (drop_text 2 content)))) [
          | inl f ↦
              rw e
                (rw f (push (parse_scalar numerals (strip (drop_text 2 content))) ls (omega arith)))
          | inr f ↦ rw e (rw f (nested (deeper numerals i ls)))
        ]
      ]
    where
      push :
          (v : Value) (rest : List Line)
          → length rest ≤ length ls
          → Within (suc (length ls)) (again rest >>= push_item numerals v)
      push v rest le =
          Within-bind (length rest) (suc (length ls)) (again rest) (push_item numerals v)
            (more rest le) (λ vs left k. omega arith)

      nested :
          (o : Option ℕ)
          → Within (suc (length ls)) (elim o [
            | none ↦ again ls >>= push_item numerals null
            | some j ↦ block j ls >>= λ p. (again p.1 >>= push_item numerals p.0)
          ])
      nested none = push null ls (omega arith)
      nested (some j) =
          Within-bind (length ls) (suc (length ls)) (block j ls)
            (λ p. (again p.1 >>= push_item numerals p.0)) (inner j) (λ v rest k. push v rest k)

  mapping_item-Within :
      (again : Fields → List Line → Parsed Fields) (block : ℕ → List Line → Parsed Value)
      (indent : ℕ) (result : Fields) (i : ℕ) (content : String) (kr : String × String)
      (ls : List Line)
      → ((d : Fields) (rest : List Line)
          → length rest ≤ length ls
          → Within (length rest) (again d rest))
      → ((j : ℕ) → Within (length ls) (block j ls))
      → Within (suc (length ls)) (mapping_item numerals again block indent result i content kr ls)
  mapping_item-Within again block indent result i content kr ls more inner =
      elim (Bool-cases (ltb i indent)) [
        | inl e ↦ rw e (omega arith)
        | inr e ↦ elim (Bool-cases (ltb indent i)) [
          | inl f ↦ rw e (rw f tt)
          | inr f ↦ elim (Bool-cases (has_prefix "- " content)) [
            | inl g ↦ rw e (rw f (rw g (omega arith)))
            | inr g ↦ elim (Bool-cases (nonempty kr.1)) [
              | inl h ↦ rw e (
                  rw f (
                    rw g (
                      rw h
                        (go_on (put result kr.0 (parse_scalar numerals kr.1)) ls (omega arith)))))
              | inr h ↦ rw e (rw f (rw g (rw h (nested (deeper numerals i ls)))))
            ]
          ]
        ]
      ]
    where
      go_on :
          (d : Fields) (rest : List Line)
          → length rest ≤ length ls
          → Within (suc (length ls)) (again d rest)
      go_on d rest le =
          Within-weaken (length rest) (suc (length ls)) (again d rest) (omega arith)
            (more d rest le)

      nested :
          (o : Option ℕ)
          → Within (suc (length ls)) (elim o [
            | none ↦ again (put result kr.0 null) ls
            | some j ↦ block j ls >>= λ p. again (put result kr.0 p.0) p.1
          ])
      nested none = go_on (put result kr.0 null) ls (omega arith)
      nested (some j) =
          Within-bind (length ls) (suc (length ls)) (block j ls)
            (λ p. again (put result kr.0 p.0) p.1) (inner j)
            (λ v rest k. go_on (put result kr.0 v) rest k)

  mutual
    unfolding parse_list parse_mapping parse_block

    parse_list-Within :
        (f indent : ℕ) (ls : List Line)
        → length ls + length ls < f
        → Within (length ls) (parse_list numerals f indent ls)
    parse_list-Within zero indent ls h = absurd (omega arith)
    parse_list-Within (suc f) indent [] h = omega arith
    parse_list-Within (suc f) indent ((i, content) ∷ ls) h =
        list_item-Within (parse_list numerals f indent) (parse_block numerals f) indent content i ls
          (λ rest le. parse_list-Within f indent rest (omega arith))
          (λ j. parse_block-Within f j ls (omega arith))

    parse_mapping-Within :
        (f indent : ℕ) (d : Fields) (ls : List Line)
        → length ls + length ls < f
        → Within (length ls) (parse_mapping numerals f indent d ls)
    parse_mapping-Within zero indent d ls h = absurd (omega arith)
    parse_mapping-Within (suc f) indent d [] h = omega arith
    parse_mapping-Within (suc f) indent d ((i, content) ∷ ls) h =
        mapping_item-Within (parse_mapping numerals f indent) (parse_block numerals f) indent d i
          content (key_and_rest numerals content) ls
          (λ e rest le. parse_mapping-Within f indent e rest (omega arith))
          (λ j. parse_block-Within f j ls (omega arith))

    parse_block-Within :
        (f indent : ℕ) (ls : List Line)
        → suc (length ls + length ls) < f
        → Within (length ls) (parse_block numerals f indent ls)
    parse_block-Within zero indent ls h = absurd (omega arith)
    parse_block-Within (suc f) indent [] h = omega arith
    parse_block-Within (suc f) indent ((i, content) ∷ ls) h =
        elim (Bool-cases (has_prefix "- " content)) [
          | inl e ↦ rw e (
              Within-bind (suc (length ls)) (suc (length ls))
                (parse_list numerals f indent ((i, content) ∷ ls)) (as_list numerals)
                (parse_list-Within f indent ((i, content) ∷ ls) (omega arith)) (λ vs rest k. k))
          | inr e ↦ rw e (
              Within-bind (suc (length ls)) (suc (length ls))
                (parse_mapping numerals f indent end ((i, content) ∷ ls)) (as_mapping numerals)
                (parse_mapping-Within f indent end ((i, content) ∷ ls) (omega arith))
                (λ d rest k. k))
        ]

  ended :
      (n : ℕ) (m : Parsed Value)
      → Within n m
      → ((v : Value) × ((m >>= value_of numerals) ≡ ok v))
        ⊎ ((line : String) × ((m >>= value_of numerals) ≡ fail (unexpected_indent line)))
  ended n (ok (v, rest)) h = inl (v, refl)
  ended n (fail (unexpected_indent line)) h = inr (line, refl)
  ended n (fail not_a_mapping) h = absurd h
  ended n (fail out_of_fuel) h = absurd h

  -- On every text the parser ends with a value or the error of an unexpected indent: its fuel is
  -- enough.
  pub parse_simple_yaml-ends :
      (text : String)
      → ((v : Value) × (parse_simple_yaml numerals text ≡ ok v))
        ⊎ ((line : String) × (parse_simple_yaml numerals text ≡ fail (unexpected_indent line)))
  unfolding parse_simple_yaml
  parse_simple_yaml-ends text =
      let ls = content_lines (split_lines text) in
      ended (length ls) (parse_block numerals (enough_fuel numerals ls) 0 ls)
        (parse_block-Within (enough_fuel numerals ls) 0 ls (omega arith))
