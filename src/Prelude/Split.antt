-- ===== src/Prelude/Split.antt =====
-- `split` and `partition` at one character, and texts without a character or without spaces.
use Prim.Native.Char.{Char, code}
use Prim.Native.Nat.{ℕ}
use Prim.Native.String.{String}
use mathlib.Core.Path.{◌≡◌, refl, ap, ◌∙◌}
use mathlib.Core.Bool.{Bool, true, false, not, ◌&&◌}
use mathlib.Core.Option.{Option, none, some}
use mathlib.Core.List.{List, [], ◌∷◌}
use ai_customer_support_plat.Prelude.Tests.{and_both, and_parts, nat_beq, if◌then◌else◌}
use ai_customer_support_plat.Prelude.Text.{
  is_space, keep_unless_last_space, lstrip, nonempty, rstrip, strip, ◌⁀◌,
}

abbrev pub push_char : Char → List String → List String
push_char c [] = String.◌∷◌ c String.[] ∷ []
push_char c (l ∷ ls) = String.◌∷◌ c l ∷ ls

-- s.split(sep), for a separator of one character
unfoldable pub split_on : ℕ → String → List String
split_on n String.[] = String.[] ∷ []
split_on n (String.◌∷◌ c s) =
    let rest = split_on n s in if nat_beq (code c) n then String.[] ∷ rest else push_char c rest

abbrev push_before : Char → Option (String × String) → Option (String × String)
push_before c none = none
push_before c (some (a, b)) = some (String.◌∷◌ c a, b)

-- What stands before and behind the first separator, if there is one.
unfoldable pub split_first : ℕ → String → Option (String × String)
split_first n String.[] = none
split_first n (String.◌∷◌ c s) =
    let rest = push_before c (split_first n s) in
    if nat_beq (code c) n then some (String.[], s) else rest

-- sep.join(parts)
unfoldable pub join : String → List String → String
join sep [] = String.[]
join sep (l ∷ []) = l
join sep (l ∷ k ∷ ls) = l ⁀ sep ⁀ join sep (k ∷ ls)

-- no character of this code
abbrev pub free : ℕ → String → Bool
free n String.[] = true
free n (String.◌∷◌ c s) = not (nat_beq (code c) n) && free n s

-- no space
abbrev pub unspaced : String → Bool
unspaced String.[] = true
unspaced (String.◌∷◌ c s) = not (is_space (code c)) && unspaced s

abbrev pub AllFree : ℕ → List String → Type 0
AllFree n [] = Unit
AllFree n (s ∷ ss) = (free n s ≡ true) × AllFree n ss

pub not-true : (b : Bool) → not b ≡ true → b ≡ false
not-true true h = cc
not-true false h = refl

-- the parts of such a text
free_parts :
    (n : ℕ) (c : Char) (s : String)
    → free n (String.◌∷◌ c s) ≡ true
    → (nat_beq (code c) n ≡ false) × (free n s ≡ true)
free_parts n c s h = (not-true _ (and_parts _ _ h).0, (and_parts (not (nat_beq (code c) n)) _ h).1)

unspaced_parts :
    (c : Char) (s : String)
    → unspaced (String.◌∷◌ c s) ≡ true
    → (is_space (code c) ≡ false) × (unspaced s ≡ true)
unspaced_parts c s h = (not-true _ (and_parts _ _ h).0, (and_parts (not (is_space (code c))) _ h).1)

pub free-append : (n : ℕ) (s t : String) → free n s ≡ true → free n t ≡ true → free n (s ⁀ t) ≡ true
free-append n String.[] t h k = k
free-append n (String.◌∷◌ c s) t h k =
    let p = and_parts _ _ h in and_both p.0 (free-append n s t p.1 k)

pub unspaced-append :
    (s t : String) → unspaced s ≡ true → unspaced t ≡ true → unspaced (s ⁀ t) ≡ true
unspaced-append String.[] t h k = k
unspaced-append (String.◌∷◌ c s) t h k =
    let p = and_parts _ _ h in and_both p.0 (unspaced-append s t p.1 k)

pub split_on-free : (n : ℕ) (s : String) → free n s ≡ true → split_on n s ≡ s ∷ []
unfolding split_on
split_on-free n String.[] h = refl
split_on-free n (String.◌∷◌ c s) h =
    let p = free_parts n c s h in rw p.0 (rw (split_on-free n s p.1) refl)

-- A separator behind a text without one ends the first part.
pub split_on-append :
    (n : ℕ) (s : String) (c : Char) (t : String)
    → free n s ≡ true
    → nat_beq (code c) n ≡ true
    → split_on n (s ⁀ String.◌∷◌ c t) ≡ s ∷ split_on n t
unfolding split_on
split_on-append n String.[] c t h k = rw k refl
split_on-append n (String.◌∷◌ d s) c t h k =
    let p = free_parts n d s h in rw p.0 (rw (split_on-append n s c t p.1 k) refl)

pub split_first-append :
    (n : ℕ) (s : String) (c : Char) (t : String)
    → free n s ≡ true
    → nat_beq (code c) n ≡ true
    → split_first n (s ⁀ String.◌∷◌ c t) ≡ some (s, t)
unfolding split_first
split_first-append n String.[] c t h k = rw k refl
split_first-append n (String.◌∷◌ d s) c t h k =
    let p = free_parts n d s h in rw p.0 (rw (split_first-append n s c t p.1 k) refl)

lstrip-unspaced : (s : String) → unspaced s ≡ true → lstrip s ≡ s
unfolding lstrip
lstrip-unspaced String.[] h = refl
lstrip-unspaced (String.◌∷◌ c s) h = rw (unspaced_parts c s h).0 refl

rstrip-unspaced : (s : String) → unspaced s ≡ true → rstrip s ≡ s
unfolding rstrip
rstrip-unspaced String.[] h = refl
rstrip-unspaced (String.◌∷◌ c String.[]) h = rw (unspaced_parts c String.[] h).0 refl
rstrip-unspaced (String.◌∷◌ c (String.◌∷◌ d s)) h =
    rw (rstrip-unspaced (String.◌∷◌ d s) (unspaced_parts c (String.◌∷◌ d s) h).1) refl

pub strip-unspaced : (s : String) → unspaced s ≡ true → strip s ≡ s
unfolding strip
strip-unspaced s h = ap rstrip (lstrip-unspaced s h) ∙ rstrip-unspaced s h

pub nonempty-append : (s t : String) → nonempty s ≡ true → nonempty (s ⁀ t) ≡ true
nonempty-append String.[] t h = cc
nonempty-append (String.◌∷◌ c s) t h = refl

lstrip-nonempty :
    (c : Char) (s : String) → is_space (code c) ≡ false → lstrip (String.◌∷◌ c s) ≡ String.◌∷◌ c s
unfolding lstrip
lstrip-nonempty c s h = rw h refl

rstrip-nonempty :
    (c : Char) (s : String) → is_space (code c) ≡ false → nonempty (rstrip (String.◌∷◌ c s)) ≡ true
unfolding rstrip
rstrip-nonempty c s h = go (rstrip s)
  where
    go : (r : String) → nonempty (keep_unless_last_space c r) ≡ true
    go String.[] = rw h refl
    go (String.◌∷◌ d r) = refl

-- A text that starts with an unspaced one is not blank.
pub strip-append :
    (s t : String) → nonempty s ≡ true → unspaced s ≡ true → nonempty (strip (s ⁀ t)) ≡ true
unfolding strip
strip-append String.[] t h k = cc
strip-append (String.◌∷◌ c s) t h k =
    let e = (unspaced_parts c s k).0 in
    rw (lstrip-nonempty c (s ⁀ t) e) (rstrip-nonempty c (s ⁀ t) e)

pub append_assoc_text : (s t r : String) → (s ⁀ t) ⁀ r ≡ s ⁀ (t ⁀ r)
append_assoc_text String.[] t r = refl
append_assoc_text (String.◌∷◌ c s) t r = ap (λ q. String.◌∷◌ c q) (append_assoc_text s t r)

-- A text that is stripped on its right keeps a character before it.
pub rstrip-char :
    (c : Char) (s : String)
    → nonempty s ≡ true
    → rstrip s ≡ s
    → rstrip (String.◌∷◌ c s) ≡ String.◌∷◌ c s
unfolding rstrip
rstrip-char c String.[] n h = cc
rstrip-char c (String.◌∷◌ d s) n h = ap (keep_unless_last_space c) h

pub split_first-free : (n : ℕ) (s : String) → free n s ≡ true → split_first n s ≡ none
unfolding split_first
split_first-free n String.[] h = refl
split_first-free n (String.◌∷◌ c s) h =
    let p = free_parts n c s h in rw p.0 (rw (split_first-free n s p.1) refl)
