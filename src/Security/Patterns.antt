-- ===== src/Security/Patterns.antt =====
-- The patterns of app/security/guardrails.py and what `re.search` does with them. A pattern is
-- matched at a place in every way that it can be, as whether there is a match is all that is asked.
use Prim.Native.Char.{Char, code}
use ai_customer_support_plat.Prelude.{
  Bool, List, Option, String, [], false, if◌then◌else◌, is_space, nat_beq, none, not, some, true,
  ◌&&◌, ◌++◌, ◌||◌, ◌∷◌,
}

-- What Python reads of the Unicode database: `str.lower` of a character, and whether it belongs to a
-- word, `\w`.
pub record Unicode : Type 0 where
  pub lower_char : Char → Char
  pub is_word : Char → Bool

pub data Pattern : Type 0 where
  literal : String → Pattern
  spaces : Pattern
  optional : Pattern → Pattern
  either : Pattern → Pattern → Pattern
  then_ : Pattern → Pattern → Pattern

-- text.lower()
unfoldable pub lower_text : Unicode → String → String
lower_text u String.[] = String.[]
lower_text u (String.◌∷◌ c s) = String.◌∷◌ (u.lower_char c) (lower_text u s)

-- the text behind a literal
unfoldable pub after : String → String → Option String
after String.[] s = some s
after (String.◌∷◌ a p) String.[] = none
after (String.◌∷◌ a p) (String.◌∷◌ c s) =
    let rest = after p s in if nat_beq (code a) (code c) then rest else none

abbrev as_list : Option String → List String
as_list none = []
as_list (some s) = s ∷ []

-- `\s*` and `\s+`: a run of spaces of any length
after_spaces : String → List String
unfolding is_space
after_spaces String.[] = String.[] ∷ []
after_spaces (String.◌∷◌ c s) =
    let more = after_spaces s in
    if is_space (code c) then String.◌∷◌ c s ∷ more else String.◌∷◌ c s ∷ []

abbrev after_some_spaces : String → List String
after_some_spaces String.[] = []
after_some_spaces (String.◌∷◌ c s) = if is_space (code c) then after_spaces s else []

abbrev each_rest : (String → List String) → List String → List String
each_rest f [] = []
each_rest f (s ∷ ss) = f s ++ each_rest f ss

-- the texts that can be left behind a match at the start of a text
unfoldable pub rests : Pattern → String → List String
unfolding after after_spaces
rests (literal w) s = as_list (after w s)
rests spaces s = after_some_spaces s
rests (optional p) s = s ∷ rests p s
rests (either p q) s = rests p s ++ rests q s
rests (then_ p q) s = each_rest (rests q) (rests p s)

abbrev pub some_rest : List String → Bool
some_rest [] = false
some_rest (_ ∷ _) = true

-- re.search(pattern, text)
unfoldable pub search : Pattern → String → Bool
search p String.[] = some_rest (rests p String.[])
search p (String.◌∷◌ c s) = some_rest (rests p (String.◌∷◌ c s)) || search p s

-- The same behind `\b`, for a pattern that begins with a letter: the character before the match, if
-- there is one, belongs to no word.
unfoldable pub search_word : Unicode → Bool → Pattern → String → Bool
search_word u inside p String.[] = not inside && some_rest (rests p String.[])
search_word u inside p (String.◌∷◌ c s) =
    (not inside && some_rest (rests p (String.◌∷◌ c s))) || search_word u (u.is_word c) p s

infixr 60 ◌‣◌
abbrev pub ◌‣◌ : Pattern → Pattern → Pattern
p ‣ q = then_ p q
