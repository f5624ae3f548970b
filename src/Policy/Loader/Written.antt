-- ===== src/Policy/Loader/Written.antt =====
-- The text of a document and its lines.
use Prim.Native.Char.{Char, code}
use ai_customer_support_plat.Value.{Value}
use ai_customer_support_plat.Policy.Loader.{
  Line, Numerals, Parsed, before_hash, content_lines, enough_fuel, first_part, leading_spaces,
  parse_block, parse_simple_yaml, value_of,
}
use ai_customer_support_plat.Policy.Loader.Print.{IsTree, Tree, print_block, tree_value}
use ai_customer_support_plat.Policy.Loader.RoundTrip.{IsBlock, parse_block-print}
use ai_customer_support_plat.Security.Answers.{is_line_break, split_lines}
use ai_customer_support_plat.Prelude.{
  Bool, List, String, [], and_parts, ap, append_assoc_text, arith, false, free, if◌then◌else◌,
  is_space, lstrip, nat_beq, nonempty, not, not-true, ok, refl, rstrip, rstrip-char,
  split_first-free, suc, sym, true, zero, ℕ, ◌&&◌, ◌>>=◌, ◌⁀◌, ◌∙◌, ◌∷◌, ◌≡◌,
}

abbrev pub spaces : ℕ → String
spaces zero = String.[]
spaces (suc n) = " " ⁀ spaces n

-- The lines as a text, each with its indent and a line feed.
unfoldable pub text_of : List Line → String
text_of [] = String.[]
text_of ((i, content) ∷ ls) = spaces i ⁀ content ⁀ "\n" ⁀ text_of ls

abbrev pub unbroken : String → Bool
unbroken String.[] = true
unbroken (String.◌∷◌ c s) = not (is_line_break (code c)) && unbroken s

abbrev pub starts_unspaced : String → Bool
starts_unspaced String.[] = false
starts_unspaced (String.◌∷◌ c s) = not (is_space (code c))

-- A line that is written has no space at its ends, no number sign and no line break.
abbrev pub IsClean : String → Type 0
IsClean s =
    (starts_unspaced s ≡ true) × ((rstrip s ≡ s) × ((free 35 s ≡ true) × (unbroken s ≡ true)))

abbrev pub AllClean : List Line → Type 0
AllClean [] = Unit
AllClean ((i, content) ∷ ls) = IsClean content × AllClean ls

no_return : (n : ℕ) → is_line_break n ≡ false → nat_beq n 13 ≡ false
unfolding is_line_break
no_return n h = ground arith

-- a character that does not end its line
split_lines-char :
    (c : Char) (s l : String) (ls : List String)
    → is_line_break (code c) ≡ false
    → split_lines s ≡ l ∷ ls
    → split_lines (String.◌∷◌ c s) ≡ String.◌∷◌ c l ∷ ls
unfolding split_lines
split_lines-char c s l ls h e = rw (no_return (code c) h) (rw h (rw e refl))

split_lines-feed : (s : String) → split_lines ("\n" ⁀ s) ≡ String.[] ∷ split_lines s
unfolding split_lines is_line_break
split_lines-feed s = refl

split_lines-line :
    (l s : String) → unbroken l ≡ true → split_lines (l ⁀ "\n" ⁀ s) ≡ l ∷ split_lines s
split_lines-line String.[] s h = split_lines-feed s
split_lines-line (String.◌∷◌ c l) s h =
    split_lines-char c (l ⁀ "\n" ⁀ s) l (split_lines s) (not-true _ (and_parts _ _ h).0)
      (split_lines-line l s (and_parts (not (is_line_break (code c))) _ h).1)

spaces-unbroken : (i : ℕ) (s : String) → unbroken s ≡ true → unbroken (spaces i ⁀ s) ≡ true
unfolding is_line_break
spaces-unbroken zero s h = h
spaces-unbroken (suc i) s h = spaces-unbroken i s h

spaces-free : (i : ℕ) (s : String) → free 35 s ≡ true → free 35 (spaces i ⁀ s) ≡ true
spaces-free zero s h = h
spaces-free (suc i) s h = spaces-free i s h

no_hash : (s : String) → free 35 s ≡ true → before_hash s ≡ s
no_hash s h = ap (first_part s) (split_first-free 35 s h)

rstrip-spaces :
    (i : ℕ) (s : String)
    → nonempty s ≡ true
    → rstrip s ≡ s
    → (rstrip (spaces i ⁀ s) ≡ spaces i ⁀ s) × (nonempty (spaces i ⁀ s) ≡ true)
rstrip-spaces zero s n h = (h, n)
rstrip-spaces (suc i) s n h =
    let p = rstrip-spaces i s n h in (rstrip-char " " (spaces i ⁀ s) p.1 p.0, refl)

nonspace : (n : ℕ) → is_space n ≡ false → nat_beq n 32 ≡ false
unfolding is_space
nonspace n h = ground arith

leading_spaces-spaces :
    (i : ℕ) (s : String) → starts_unspaced s ≡ true → leading_spaces (spaces i ⁀ s) ≡ i
unfolding leading_spaces
leading_spaces-spaces zero String.[] h = cc
leading_spaces-spaces zero (String.◌∷◌ c s) h = rw (nonspace (code c) (not-true _ h)) refl
leading_spaces-spaces (suc i) s h = ap suc (leading_spaces-spaces i s h)

lstrip-spaces : (i : ℕ) (s : String) → starts_unspaced s ≡ true → lstrip (spaces i ⁀ s) ≡ s
unfolding lstrip is_space
lstrip-spaces zero String.[] h = cc
lstrip-spaces zero (String.◌∷◌ c s) h = rw (not-true (is_space (code c)) h) refl
lstrip-spaces (suc i) s h = lstrip-spaces i s h

starts-nonempty : (s : String) → starts_unspaced s ≡ true → nonempty s ≡ true
starts-nonempty String.[] h = cc
starts-nonempty (String.◌∷◌ c s) h = refl

-- what `content_lines` makes of a raw line, by the line without its comment
abbrev line_or_skip : String → String → List Line → List Line
line_or_skip raw stripped rest =
    if nonempty stripped then (leading_spaces raw, lstrip stripped) ∷ rest else rest

content_lines-line :
    (i : ℕ) (s : String) (raws : List String)
    → IsClean s
    → content_lines ((spaces i ⁀ s) ∷ raws) ≡ (i, s) ∷ content_lines raws
unfolding content_lines
content_lines-line i s raws h =
    let p = rstrip-spaces i s (starts-nonempty s h.0) h.1.0 in
    ap (λ r. line_or_skip (spaces i ⁀ s) (rstrip r) (content_lines raws))
      (no_hash (spaces i ⁀ s) (spaces-free i s h.1.1.0))
    ∙ (ap (λ r. line_or_skip (spaces i ⁀ s) r (content_lines raws)) p.0
        ∙ rw p.1 (rw (leading_spaces-spaces i s h.0) (rw (lstrip-spaces i s h.0) refl)))

-- The lines come back from their text.
content_lines-text_of :
    (ls : List Line) → AllClean ls → content_lines (split_lines (text_of ls)) ≡ ls
unfolding text_of
content_lines-text_of [] h = unfold split_lines content_lines in refl
content_lines-text_of ((i, s) ∷ ls) h =
    ap (λ t. content_lines (split_lines t))
      (sym (append_assoc_text (spaces i) s ("\n" ⁀ text_of ls)))
    ∙ (ap content_lines
          (split_lines-line (spaces i ⁀ s) (text_of ls) (spaces-unbroken i s h.0.1.1.1))
        ∙ (content_lines-line i s (split_lines (text_of ls)) h.0
            ∙ ap (λ r. (i, s) ∷ r) (content_lines-text_of ls h.1)))

-- A document that is not a bare scalar, without empty lists and mappings, is read as it was written:
-- the parser returns its value from its text. Its keys and scalars have no space at their ends; the
-- keys have no colon and do not start like an item; no line has a number sign or a line break in it.
pub parse_simple_yaml-written :
    (numerals : Numerals) (t : Tree)
    → IsBlock t
    → IsTree t
    → AllClean (print_block 0 t [])
    → parse_simple_yaml numerals (text_of (print_block 0 t [])) ≡ ok (tree_value numerals t)
unfolding parse_simple_yaml
parse_simple_yaml-written numerals t b h clean =
    let ls = print_block 0 t [] in
    ap (λ (k : List Line). parse_block numerals (enough_fuel numerals k) 0 k >>= value_of numerals)
      (content_lines-text_of ls clean)
    ∙ ap (λ (r : Parsed Value). r >>= value_of numerals)
        (parse_block-print numerals (enough_fuel numerals ls) 0 t [] b h tt (omega arith))
