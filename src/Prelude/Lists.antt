-- ===== src/Prelude/Lists.antt =====
-- Lists measured by native numbers, under the library's names, and membership as a test.
use Prim.Native.Nat.{ℕ, zero, suc, ◌+◌}
use Prim.Native.String.{String}
use mathlib.Core.Path.{◌≡◌, refl}
use mathlib.Core.Bool.{Bool, true, false, ◌||◌}
use mathlib.Core.Option.{Option, none, some, some-injective}
use mathlib.Core.List.{List, [], ◌∷◌, ◌++◌}
use native.Mathlib.Omega.{arith}
use text.Mathlib.Text.{◌==◌}

module _ {ℓ} {A : Type ℓ} where
  abbrev pub length : List A → ℕ
  length [] = 0
  length (x ∷ xs) = suc (length xs)

  -- xs[-1], if there is one
  abbrev pub get_last? : List A → Option A
  get_last? [] = none
  get_last? (x ∷ []) = some x
  get_last? (x ∷ y ∷ xs) = get_last? (y ∷ xs)

  pub length-append : (xs ys : List A) → length (xs ++ ys) ≡ length xs + length ys
  length-append [] ys = omega arith
  length-append (x ∷ xs) ys = omega (arith, length-append xs ys)

  pub get_last?-append : (xs : List A) (x : A) → get_last? (xs ++ x ∷ []) ≡ some x
  get_last?-append [] x = refl
  get_last?-append (y ∷ []) x = refl
  get_last?-append (y ∷ z ∷ xs) x = get_last?-append (z ∷ xs) x

-- `key in {…}` for texts
abbrev pub one_of : String → List String → Bool
one_of s [] = false
one_of s (t ∷ ts) = s == t || one_of s ts

-- any([…]); shut, so that a disjunction of tests keeps the list of its tests
unfoldable pub any_of : List Bool → Bool
any_of [] = false
any_of (b ∷ bs) = b || any_of bs

-- the test at a position
abbrev pub test_at : ℕ → List Bool → Option Bool
test_at n [] = none
test_at zero (b ∷ bs) = some b
test_at (suc n) (b ∷ bs) = test_at n bs

pub any_at : (n : ℕ) (bs : List Bool) → test_at n bs ≡ some true → any_of bs ≡ true
unfolding any_of
any_at n [] h = cc
any_at zero (b ∷ bs) h = rw (some-injective b true h) refl
any_at (suc n) (true ∷ bs) h = refl
any_at (suc n) (false ∷ bs) h = any_at n bs h

-- a consequence of each test
abbrev pub Each {ℓ} : Type ℓ → List Bool → Type ℓ
Each P [] = Unit
Each P (b ∷ bs) = (b ≡ true → P) × Each P bs

pub any_elim {ℓ} : (P : Type ℓ) (bs : List Bool) → Each P bs → any_of bs ≡ true → P
unfolding any_of
any_elim P [] cases h = cc
any_elim P (true ∷ bs) (now, later) h = now refl
any_elim P (false ∷ bs) (now, later) h = any_elim P bs later h
