-- ===== src/Policy/Loader.antt =====
-- `parse_simple_yaml` of app/policies/loader.py. What Python's `int` and `float` read is given. The
-- lines that are left stand for the index; each round of a loop takes a line or ends, and a block is
-- entered behind a line, so that twice as much fuel as lines, and two, is enough.
pub mod Fuel
pub mod Print
pub mod RoundTrip
pub mod Written
use Prim.Native.Char.{code}
use ai_customer_support_plat.Prelude.{
  Bool, List, Option, Result, String, [], fail, false, has_prefix, if◌then◌else◌, length, lower,
  lstrip, ltb, nat_beq, none, nonempty, not, occurs_in, ok, one_of, rstrip, some, split_first,
  strip, suc, true, zero, ℕ, ◌&&◌, ◌+◌, ◌>>=◌, ◌||◌, ◌∷◌,
}
use ai_customer_support_plat.Value.{
  Fields, Items, Value, arr, bool, cons, end, nil, null, obj, put, str,
}
use ai_customer_support_plat.Security.Answers.{split_lines}

pub record Numerals : Type 0 where
  pub int : String → Option Value
  pub float : String → Option Value

abbrev pub Line : Type 0
Line = ℕ × String

-- What the loader raises, or that the fuel is used up.
pub data YamlError : Type 0 where
  unexpected_indent : String → YamlError
  not_a_mapping : YamlError
  out_of_fuel : YamlError

abbrev pub Parsed : Type 0 → Type 0
Parsed A = Result YamlError (A × List Line)

-- text[n:]
abbrev pub drop_text : ℕ → String → String
drop_text zero s = s
drop_text (suc n) String.[] = String.[]
drop_text (suc n) (String.◌∷◌ c s) = drop_text n s

abbrev pub first_part : String → Option (String × String) → String
first_part raw none = raw
first_part raw (some (a, b)) = a

-- raw.split("#", 1)[0]
abbrev pub before_hash : String → String
before_hash raw = first_part raw (split_first 35 raw)

-- len(raw) - len(raw.lstrip(" "))
unfoldable pub leading_spaces : String → ℕ
leading_spaces String.[] = 0
leading_spaces (String.◌∷◌ c s) =
    let rest = leading_spaces s in if nat_beq (code c) 32 then suc rest else 0

-- the lines that say something, with their indents
unfoldable pub content_lines : List String → List Line
unfolding leading_spaces
content_lines [] = []
content_lines (raw ∷ raws) =
    let rest = content_lines raws in
    let stripped = rstrip (before_hash raw) in
    if nonempty stripped then (leading_spaces raw, lstrip stripped) ∷ rest else rest

abbrev ends_with_char : ℕ → String → Bool
ends_with_char n String.[] = false
ends_with_char n (String.◌∷◌ c String.[]) = nat_beq (code c) n
ends_with_char n (String.◌∷◌ c (String.◌∷◌ d s)) = ends_with_char n (String.◌∷◌ d s)

abbrev starts_with_char : ℕ → String → Bool
starts_with_char n String.[] = false
starts_with_char n (String.◌∷◌ c s) = nat_beq (code c) n

abbrev without_last : String → String
without_last String.[] = String.[]
without_last (String.◌∷◌ c String.[]) = String.[]
without_last (String.◌∷◌ c (String.◌∷◌ d s)) = String.◌∷◌ c (without_last (String.◌∷◌ d s))

abbrev quoted_by : ℕ → String → Bool
quoted_by n s = starts_with_char n s && ends_with_char n s

abbrev number_or_text : String → Option Value → Value
number_or_text value none = str value
number_or_text value (some v) = v

module _ (numerals : Numerals) where
  -- `_parse_scalar`
  unfoldable pub parse_scalar : String → Value
  parse_scalar value =
      let lowered = lower value in
      if quoted_by 34 value || quoted_by 39 value
      then str (without_last (drop_text 1 value))
      else if one_of lowered ("true" ∷ "yes" ∷ [])
      then bool true
      else if one_of lowered ("false" ∷ "no" ∷ [])
      then bool false
      else if one_of lowered ("null" ∷ "none" ∷ "~" ∷ [])
      then null
      else if occurs_in "." value
      then number_or_text value (numerals.float value)
      else number_or_text value (numerals.int value)

  abbrev pub stripped_pair : String → Option (String × String) → String × String
  stripped_pair content none = (strip content, String.[])
  stripped_pair content (some (key, remainder)) = (strip key, strip remainder)

  -- content.partition(":"), both sides stripped
  abbrev pub key_and_rest : String → String × String
  key_and_rest content = stripped_pair content (split_first 58 content)

  -- the indent of the next line, if it is deeper
  abbrev pub deeper : ℕ → List Line → Option ℕ
  deeper indent [] = none
  deeper indent ((i, content) ∷ ls) = if ltb indent i then some i else none

  abbrev pub push_item : Value → Items × List Line → Parsed Items
  push_item v (vs, rest) = ok (cons v vs, rest)

  abbrev pub as_list : Items × List Line → Parsed Value
  as_list (vs, rest) = ok (arr vs, rest)

  abbrev pub as_mapping : Fields × List Line → Parsed Value
  as_mapping (d, rest) = ok (obj d, rest)

  -- One round of `_parse_list`: what is done with a line, by how the parser goes on.
  abbrev pub list_item :
      (List Line → Parsed Items)
      → (ℕ → List Line → Parsed Value)
      → ℕ
      → String
      → ℕ
      → List Line
      → Parsed Items
  list_item again block indent content i ls =
      let item = strip (drop_text 2 content) in
      if ltb i indent || not (has_prefix "- " content)
      then ok (nil, (i, content) ∷ ls)
      else if nonempty item
      then (again ls >>= push_item (parse_scalar item))
      else elim (deeper i ls) [
        | none ↦ again ls >>= push_item null
        | some j ↦ block j ls >>= λ p. (again p.1 >>= push_item p.0)
      ]

  -- One round of `_parse_mapping`.
  abbrev pub mapping_item :
      (Fields → List Line → Parsed Fields)
      → (ℕ → List Line → Parsed Value)
      → ℕ
      → Fields
      → ℕ
      → String
      → String × String
      → List Line
      → Parsed Fields
  mapping_item again block indent result i content (key, remainder) ls =
      if ltb i indent
      then ok (result, (i, content) ∷ ls)
      else if ltb indent i
      then fail (unexpected_indent content)
      else if has_prefix "- " content
      then ok (result, (i, content) ∷ ls)
      else if nonempty remainder
      then again (put result key (parse_scalar remainder)) ls
      else elim (deeper i ls) [
        | none ↦ again (put result key null) ls
        | some j ↦ block j ls >>= λ p. again (put result key p.0) p.1
      ]

  unfoldable mutual
    -- `_parse_list`
    pub parse_list : ℕ → ℕ → List Line → Parsed Items
    parse_list zero indent ls = fail out_of_fuel
    parse_list (suc f) indent [] = ok (nil, [])
    parse_list (suc f) indent ((i, content) ∷ ls) =
        list_item (parse_list f indent) (parse_block f) indent content i ls

    -- `_parse_mapping`
    pub parse_mapping : ℕ → ℕ → Fields → List Line → Parsed Fields
    parse_mapping zero indent result ls = fail out_of_fuel
    parse_mapping (suc f) indent result [] = ok (result, [])
    parse_mapping (suc f) indent result ((i, content) ∷ ls) =
        mapping_item (parse_mapping f indent) (parse_block f) indent result i content
          (key_and_rest content) ls

    -- `_parse_block`
    pub parse_block : ℕ → ℕ → List Line → Parsed Value
    parse_block zero indent ls = fail out_of_fuel
    parse_block (suc f) indent [] = ok (obj end, [])
    parse_block (suc f) indent ((i, content) ∷ ls) =
        let list = parse_list f indent ((i, content) ∷ ls) >>= as_list in
        let mapping = parse_mapping f indent end ((i, content) ∷ ls) >>= as_mapping in
        if has_prefix "- " content then list else mapping

  abbrev pub enough_fuel : List Line → ℕ
  enough_fuel ls = length ls + length ls + 2

  abbrev pub value_of : Value × List Line → Result YamlError Value
  value_of (v, rest) = ok v

  -- `parse_simple_yaml`
  unfoldable pub parse_simple_yaml : String → Result YamlError Value
  parse_simple_yaml text =
      let lines = content_lines (split_lines text) in
      parse_block (enough_fuel lines) 0 lines >>= value_of

  abbrev only_mapping : Value → Result YamlError Fields
  only_mapping (obj d) = ok d
  only_mapping _ = fail not_a_mapping

  abbrev unless_loaded : Option Value → Result YamlError Fields → Result YamlError Fields
  unless_loaded (some (obj d)) parsed = ok d
  unless_loaded _ parsed = parsed

  -- `load_company_config` of a text, with what PyYAML makes of it, if it is there and does not raise
  unfoldable pub load_company_config : Option Value → String → Result YamlError Fields
  load_company_config loaded text = unless_loaded loaded (parse_simple_yaml text >>= only_mapping)
