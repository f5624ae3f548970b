-- ===== src/Prelude/Text.antt =====
-- The text methods of Python that the program calls, over `String`: `strip`, `lower`, `upper`,
-- `in`. Case is that of the ASCII letters.
use Prim.Native.Char.{Char, code}
use Prim.Native.Nat.{ℕ}
use Prim.Native.String.{String}
use mathlib.Core.Path.{◌≡◌, refl, ap}
use mathlib.Core.Bool.{Bool, true, false, ◌&&◌, ◌||◌}
use ai_customer_support_plat.Prelude.Tests.{or_right, nat_beq, leb, if◌then◌else◌}

-- s + t
infixr 65 ◌⁀◌
abbrev pub ◌⁀◌ : String → String → String
String.[] ⁀ t = t
(String.◌∷◌ c s) ⁀ t = String.◌∷◌ c (s ⁀ t)

-- `str.isspace`
unfoldable pub is_space : ℕ → Bool
is_space n =
    (leb 9 n && leb n 13)
    || (leb 28 n && leb n 32)
    || nat_beq n 133
    || nat_beq n 160
    || nat_beq n 5760
    || (leb 8192 n && leb n 8202)
    || nat_beq n 8232
    || nat_beq n 8233
    || nat_beq n 8239
    || nat_beq n 8287
    || nat_beq n 12288

unfoldable pub lstrip : String → String
unfolding is_space
lstrip String.[] = String.[]
lstrip (String.◌∷◌ c s) = let rest = lstrip s in if is_space (code c) then rest else String.◌∷◌ c s

-- the character before a stripped rest
abbrev pub keep_unless_last_space : Char → String → String
keep_unless_last_space c String.[] = if is_space (code c) then String.[] else String.◌∷◌ c String.[]
keep_unless_last_space c (String.◌∷◌ d s) = String.◌∷◌ c (String.◌∷◌ d s)

unfoldable pub rstrip : String → String
unfolding is_space
rstrip String.[] = String.[]
rstrip (String.◌∷◌ c s) = keep_unless_last_space c (rstrip s)

unfoldable pub strip : String → String
unfolding lstrip rstrip
strip s = rstrip (lstrip s)

-- the character of `to` that stands where `c` stands in `from`
abbrev translate : String → String → Char → Char
translate (String.◌∷◌ a from) (String.◌∷◌ b to) c =
    if nat_beq (code c) (code a) then b else translate from to c
translate _ _ c = c

abbrev map_text : (Char → Char) → String → String
map_text f String.[] = String.[]
map_text f (String.◌∷◌ c s) = String.◌∷◌ (f c) (map_text f s)

unfoldable pub upper : String → String
upper = map_text (translate "abcdefghijklmnopqrstuvwxyz" "ABCDEFGHIJKLMNOPQRSTUVWXYZ")

unfoldable pub lower : String → String
lower = map_text (translate "ABCDEFGHIJKLMNOPQRSTUVWXYZ" "abcdefghijklmnopqrstuvwxyz")

map_text-append :
    (f : Char → Char) (s t : String) → map_text f (s ⁀ t) ≡ map_text f s ⁀ map_text f t
map_text-append f String.[] t = refl
map_text-append f (String.◌∷◌ c s) t = ap (λ r. String.◌∷◌ (f c) r) (map_text-append f s t)

pub lower-append : (s t : String) → lower (s ⁀ t) ≡ lower s ⁀ lower t
unfolding lower
lower-append s t = map_text-append _ s t

-- s.startswith(p)
unfoldable pub has_prefix : String → String → Bool
has_prefix String.[] s = true
has_prefix (String.◌∷◌ a p) String.[] = false
has_prefix (String.◌∷◌ a p) (String.◌∷◌ c s) = nat_beq (code a) (code c) && has_prefix p s

-- p in s
unfoldable pub occurs_in : String → String → Bool
unfolding has_prefix
occurs_in p String.[] = has_prefix p String.[]
occurs_in p (String.◌∷◌ c s) = has_prefix p (String.◌∷◌ c s) || occurs_in p s

-- bool(s)
abbrev pub nonempty : String → Bool
nonempty String.[] = false
nonempty (String.◌∷◌ c s) = true

-- What occurs at the end of a text occurs in it.
pub occurs_in-behind : (p s t : String) → occurs_in p t ≡ true → occurs_in p (s ⁀ t) ≡ true
unfolding occurs_in
occurs_in-behind p String.[] t h = h
occurs_in-behind p (String.◌∷◌ c s) t h = or_right _ (occurs_in-behind p s t h)
