-- ===== src/Tools/Rows.antt =====
-- Rows that a query selects, sorts and cuts.
use ai_customer_support_plat.Prelude.{
  Bool, Bool-cases, List, [], ap, arith, if◌then◌else◌, inl, inr, length, map, not, refl, suc, true,
  zero, ℕ, ◌&&◌, ◌++◌, ◌+◌, ◌∙◌, ◌∷◌, ◌≡◌, ◌≤◌, ◌⊎◌,
}
use ai_customer_support_plat.Tools.Lookups.{rows}

abbrev pub take : {A : Type 0} → ℕ → List A → List A
take n [] = []
take zero (x ∷ xs) = []
take (suc n) (x ∷ xs) = x ∷ take n xs

abbrev pub drop : {A : Type 0} → ℕ → List A → List A
drop n [] = []
drop zero (x ∷ xs) = x ∷ xs
drop (suc n) (x ∷ xs) = drop n xs

-- how many elements pass
abbrev pub count : {A : Type 0} → (A → Bool) → List A → ℕ
count test [] = 0
count test (x ∷ xs) = let n = count test xs in if test x then suc n else n

abbrev pub AllPass : {A : Type 0} → (A → Type 0) → List A → Type 0
AllPass P [] = Unit
AllPass P (x ∷ xs) = P x × AllPass P xs

pub take-drop : {A : Type 0} (n : ℕ) (xs : List A) → take n xs ++ drop n xs ≡ xs
take-drop n [] = refl
take-drop zero (x ∷ xs) = refl
take-drop (suc n) (x ∷ xs) = ap (λ r. x ∷ r) (take-drop n xs)

suc-plus : (a b : ℕ) → suc a + b ≡ suc (a + b)
suc-plus a b = omega arith

pub drop-add : {A : Type 0} (o n : ℕ) (xs : List A) → drop (o + n) xs ≡ drop n (drop o xs)
drop-add o n [] = refl
drop-add zero n (x ∷ xs) = ap (λ (k : ℕ). drop k (x ∷ xs)) (omega arith)
drop-add (suc o) n (x ∷ xs) = ap (λ (k : ℕ). drop k (x ∷ xs)) (suc-plus o n) ∙ drop-add o n xs

pub drop-all : {A : Type 0} (n : ℕ) (xs : List A) → length xs ≤ n → drop n xs ≡ []
drop-all n [] h = refl
drop-all zero (x ∷ xs) h = absurd (omega arith)
drop-all (suc n) (x ∷ xs) h = drop-all n xs (omega arith)

pub length-take : {A : Type 0} (n : ℕ) (xs : List A) → length (take n xs) ≤ n
length-take n [] = omega arith
length-take zero (x ∷ xs) = omega arith
length-take (suc n) (x ∷ xs) = omega (arith, length-take n xs)

pub AllPass-take :
    {A : Type 0} (P : A → Type 0) (n : ℕ) (xs : List A) → AllPass P xs → AllPass P (take n xs)
AllPass-take P n [] h = tt
AllPass-take P zero (x ∷ xs) h = tt
AllPass-take P (suc n) (x ∷ xs) h = (h.0, AllPass-take P n xs h.1)

pub AllPass-drop :
    {A : Type 0} (P : A → Type 0) (n : ℕ) (xs : List A) → AllPass P xs → AllPass P (drop n xs)
AllPass-drop P n [] h = tt
AllPass-drop P zero (x ∷ xs) h = h
AllPass-drop P (suc n) (x ∷ xs) h = AllPass-drop P n xs h.1

pub AllPass-map :
    {A B : Type 0} (P : B → Type 0) (f : A → B) (xs : List A)
    → AllPass (λ x. P (f x)) xs
    → AllPass P (map f xs)
AllPass-map P f [] h = tt
AllPass-map P f (x ∷ xs) h = (h.0, AllPass-map P f xs h.1)

pub length-map : {A B : Type 0} (f : A → B) (xs : List A) → length (map f xs) ≡ length xs
length-map f [] = refl
length-map f (x ∷ xs) = ap suc (length-map f xs)

-- no element fails a test that the rows have passed
pub rows-none_fail :
    {A : Type 0} (test : A → Bool) (xs : List A) → count (λ x. not (test x)) (rows test xs) ≡ 0
rows-none_fail test [] = refl
rows-none_fail test (x ∷ xs) = elim (Bool-cases (test x)) [
  | inl e ↦ rw e (rw e (rows-none_fail test xs))
  | inr e ↦ rw e (rows-none_fail test xs)
]

pub all_if_none_fails :
    {A : Type 0} (test : A → Bool) (xs : List A)
    → count (λ x. not (test x)) xs ≡ 0
    → AllPass (λ x. test x ≡ true) xs
all_if_none_fails test [] h = tt
all_if_none_fails test (x ∷ xs) h = elim (Bool-cases (test x)) [
  | inl e ↦ (e, all_if_none_fails test xs (rw e at h))
  | inr e ↦ absurd (one_fails (count (λ y. not (test y)) xs) (rw e at h))
]
  where
    one_fails : (n : ℕ) → suc n ≡ 0 → ⊥
    one_fails n e = omega arith

pub count_all : {A : Type 0} (xs : List A) → count (λ x. true) xs ≡ length xs
count_all [] = refl
count_all (x ∷ xs) = ap suc (count_all xs)

pub AllPass-weaken :
    {A : Type 0} (P Q : A → Type 0) (xs : List A)
    → ((x : A) → P x → Q x)
    → AllPass P xs
    → AllPass Q xs
AllPass-weaken P Q [] f h = tt
AllPass-weaken P Q (x ∷ xs) f h = (f x h.0, AllPass-weaken P Q xs f h.1)

pub map-append_lem :
    {A B : Type 0} (f : A → B) (xs ys : List A) → map f (xs ++ ys) ≡ map f xs ++ map f ys
map-append_lem f [] ys = refl
map-append_lem f (x ∷ xs) ys = ap (λ r. f x ∷ r) (map-append_lem f xs ys)

-- Rows that a database has sorted have passed the test that selected them.
pub sorted-passes :
    {A : Type 0} (order : List A → List A)
    → ((rs : List A) (test : A → Bool) → count test (order rs) ≡ count test rs)
    → (test : A → Bool) (xs : List A) → AllPass (λ x. test x ≡ true) (order (rows test xs))
sorted-passes order same test xs =
    all_if_none_fails test (order (rows test xs))
      (same (rows test xs) (λ x. not (test x)) ∙ rows-none_fail test xs)

pub count-rows :
    {A : Type 0} (select test : A → Bool) (xs : List A)
    → count test (rows select xs) ≡ count (λ x. select x && test x) xs
count-rows select test [] = refl
count-rows select test (x ∷ xs) = elim (Bool-cases (select x)) [
  | inl e ↦ rw e (ground (arith, count-rows select test xs))
  | inr e ↦ rw e (count-rows select test xs)
]

-- an element of a list
abbrev pub IsRow : {A : Type 0} → A → List A → Type 0
IsRow x [] = ⊥
IsRow x (y ∷ ys) = (x ≡ y) ⊎ IsRow x ys
