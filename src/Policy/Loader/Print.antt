-- ===== src/Policy/Loader/Print.antt =====
-- Documents of the restricted YAML as they are written, line by line, and read again.
use ai_customer_support_plat.Prelude.{
  List, String, [], ap, arith, false, free, has_prefix, is_space, lstrip, ltb, nonempty, refl,
  rstrip, some, split_first-append, strip, true, ℕ, ◌+◌, ◌<◌, ◌>>=◌, ◌⁀◌, ◌∙◌, ◌∷◌, ◌≡◌,
}
use ai_customer_support_plat.Value.{Fields, Items, Value, arr, cons, end, nil, obj, put}
use ai_customer_support_plat.Policy.Loader.{
  Line, Numerals, Parsed, deeper, key_and_rest, mapping_item, parse_scalar, stripped_pair,
}

-- A document: a scalar, a list of scalars, or a mapping.
mutual
  pub data Tree : Type 0 where
    leaf : String → Tree
    seq : List String → Tree
    tree : Branches → Tree

  pub data Branches : Type 0 where
    stop : Branches
    branch : String → Tree → Branches → Branches

abbrev pub print_items : ℕ → List String → List Line → List Line
print_items i [] rest = rest
print_items i (s ∷ ss) rest = (i, "- " ⁀ s) ∷ print_items i ss rest

-- The lines of a document and of the entries of a mapping, two spaces deeper at each level, before
-- the lines that follow.
unfoldable mutual
  pub print_block : ℕ → Tree → List Line → List Line
  print_block i (leaf t) rest = rest
  print_block i (seq ss) rest = print_items i ss rest
  print_block i (tree b) rest = print_branches i b rest

  pub print_branches : ℕ → Branches → List Line → List Line
  print_branches i stop rest = rest
  print_branches i (branch k (leaf t) b) rest = (i, k ⁀ ":" ⁀ " " ⁀ t) ∷ print_branches i b rest
  print_branches i (branch k (seq ss) b) rest =
      (i, k ⁀ ":" ⁀ "") ∷ print_block (i + 2) (seq ss) (print_branches i b rest)
  print_branches i (branch k (tree c) b) rest =
      (i, k ⁀ ":" ⁀ "") ∷ print_block (i + 2) (tree c) (print_branches i b rest)

-- A scalar has no space at its ends; a key has no colon either, and is not taken for an item.
abbrev pub IsScalar : String → Type 0
IsScalar t = (nonempty t ≡ true) × (strip t ≡ t)

abbrev pub IsYamlKey : String → Type 0
IsYamlKey k = (strip k ≡ k) × ((free 58 k ≡ true) × (has_prefix "- " k ≡ false))

abbrev pub AllScalars : List String → Type 0
AllScalars [] = Unit
AllScalars (s ∷ ss) = IsScalar s × AllScalars ss

abbrev pub HasItem : List String → Type 0
HasItem [] = ⊥
HasItem (s ∷ ss) = Unit

abbrev pub HasBranch : Branches → Type 0
HasBranch stop = ⊥
HasBranch (branch k t b) = Unit

-- Scalars, keys, and no empty list or mapping.
unfoldable mutual
  pub IsTree : Tree → Type 0
  IsTree (leaf t) = IsScalar t
  IsTree (seq ss) = HasItem ss × AllScalars ss
  IsTree (tree b) = HasBranch b × AreBranches b

  pub AreBranches : Branches → Type 0
  AreBranches stop = Unit
  AreBranches (branch k t b) = IsYamlKey k × (IsTree t × AreBranches b)

abbrev pub Stops : ℕ → List Line → Type 0
Stops i [] = Unit
Stops i ((j, content) ∷ ls) = j < i

module _ (numerals : Numerals) where
  abbrev pub items_of : List String → Items
  items_of [] = nil
  items_of (s ∷ ss) = cons (parse_scalar numerals s) (items_of ss)

  -- What a document stands for; a key that comes again has its last value.
  unfoldable mutual
    pub tree_value : Tree → Value
    tree_value (leaf t) = parse_scalar numerals t
    tree_value (seq ss) = arr (items_of ss)
    tree_value (tree b) = obj (fields_of end b)

    pub fields_of : Fields → Branches → Fields
    fields_of d stop = d
    fields_of d (branch k t b) = fields_of (put d k (tree_value t)) b

pub has_prefix-key :
    (k s : String) → has_prefix "- " k ≡ false → has_prefix "- " (k ⁀ ":" ⁀ s) ≡ false
unfolding has_prefix
has_prefix-key String.[] s h = refl
has_prefix-key (String.◌∷◌ c String.[]) s h = ground arith
has_prefix-key (String.◌∷◌ c (String.◌∷◌ d k)) s h = h

strip_space : (t : String) → strip t ≡ t → strip (" " ⁀ t) ≡ t
unfolding strip lstrip is_space
strip_space t h = h

pub ltb_refl : (i : ℕ) → ltb i i ≡ false
ltb_refl i = ground arith

module _ (numerals : Numerals) where
  key_and_rest-key :
      (k s t : String) → IsYamlKey k → strip s ≡ t → key_and_rest numerals (k ⁀ ":" ⁀ s) ≡ (k, t)
  key_and_rest-key k s t h e =
      ap (stripped_pair numerals (k ⁀ ":" ⁀ s)) (split_first-append 58 k ":" s h.1.0 refl)
      ∙ (ap (λ (a : String). (a, strip s)) h.0 ∙ ap (λ (b : String). (k, b)) e)

  -- what a round of the mapping does with a printed line
  module _ (again : Fields → List Line → Parsed Fields) (block : ℕ → List Line → Parsed Value)
      (i : ℕ) (d : Fields) (k : String) (key : IsYamlKey k) where
    abbrev pub round : String → String × String → List Line → Parsed Fields
    round content kr ls = mapping_item numerals again block i d i content kr ls

    pub leaf_line :
        (t : String) (ls : List Line)
        → IsScalar t
        → round (k ⁀ ":" ⁀ " " ⁀ t) (key_and_rest numerals (k ⁀ ":" ⁀ " " ⁀ t)) ls
          ≡ again (put d k (parse_scalar numerals t)) ls
    leaf_line t ls h =
        ap (λ (kr : String × String). round (k ⁀ ":" ⁀ " " ⁀ t) kr ls)
          (key_and_rest-key k (" " ⁀ t) t key (strip_space t h.1))
        ∙ rw (ltb_refl i) (rw (has_prefix-key k (" " ⁀ t) key.1.1) (rw h.0 refl))

    pub block_line :
        (j : ℕ) (ls : List Line)
        → deeper numerals i ls ≡ some j
        → round (k ⁀ ":" ⁀ "") (key_and_rest numerals (k ⁀ ":" ⁀ "")) ls
          ≡ (block j ls >>= λ p. again (put d k p.0) p.1)
    block_line j ls h =
        ap (λ (kr : String × String). round (k ⁀ ":" ⁀ "") kr ls)
          (key_and_rest-key k "" "" key (unfold strip lstrip rstrip in refl))
        ∙ rw (ltb_refl i) (rw (has_prefix-key k "" key.1.1) (rw h refl))
