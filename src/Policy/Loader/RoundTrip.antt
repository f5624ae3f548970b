-- ===== src/Policy/Loader/RoundTrip.antt =====
-- The parser reads what has been written.
use ai_customer_support_plat.Prelude.{
  List, String, [], ap, arith, has_prefix, length, ok, refl, some, suc, zero, ℕ, ◌+◌, ◌<◌, ◌>>=◌,
  ◌⁀◌, ◌∙◌, ◌∷◌, ◌≡◌, ◌≤◌,
}
use ai_customer_support_plat.Value.{Fields, Items, Value, end, nil, put}
use ai_customer_support_plat.Policy.Loader.{
  Line, Numerals, Parsed, as_list, as_mapping, deeper, list_item, parse_block, parse_list,
  parse_mapping, parse_scalar, push_item,
}
use ai_customer_support_plat.Policy.Loader.Print.{
  AllScalars, AreBranches, Branches, HasBranch, IsScalar, IsTree, IsYamlKey, Stops, Tree,
  block_line, branch, fields_of, has_prefix-key, items_of, leaf, leaf_line, ltb_refl, print_block,
  print_branches, print_items, seq, stop, tree, tree_value,
}

abbrev pub IsBlock : Tree → Type 0
IsBlock (leaf t) = ⊥
IsBlock (seq ss) = Unit
IsBlock (tree b) = Unit

length-print_items :
    (i : ℕ) (ss : List String) (rest : List Line) → length rest ≤ length (print_items i ss rest)
length-print_items i [] rest = omega arith
length-print_items i (s ∷ ss) rest = omega (arith, length-print_items i ss rest)

-- The lines that follow are among the lines.
mutual
  unfolding print_block print_branches

  length-print_block :
      (i : ℕ) (t : Tree) (rest : List Line) → length rest ≤ length (print_block i t rest)
  length-print_block i (leaf t) rest = omega arith
  length-print_block i (seq ss) rest = length-print_items i ss rest
  length-print_block i (tree b) rest = length-print_branches i b rest

  length-print_branches :
      (i : ℕ) (b : Branches) (rest : List Line) → length rest ≤ length (print_branches i b rest)
  length-print_branches i stop rest = omega arith
  length-print_branches i (branch k (leaf t) b) rest = omega (arith, length-print_branches i b rest)
  length-print_branches i (branch k (seq ss) b) rest = omega (
    arith,
    length-print_branches i b rest,
    length-print_block (i + 2) (seq ss) (print_branches i b rest),
  )
  length-print_branches i (branch k (tree c) b) rest = omega (
    arith,
    length-print_branches i b rest,
    length-print_block (i + 2) (tree c) (print_branches i b rest),
  )

-- The entries of a mapping end a block that stands below one of them.
Stops-print_branches :
    (i : ℕ) (b : Branches) (rest : List Line)
    → Stops i rest
    → Stops (i + 2) (print_branches i b rest)
unfolding print_branches
Stops-print_branches i stop [] h = tt
Stops-print_branches i stop ((j, content) ∷ ls) h = omega arith
Stops-print_branches i (branch k (leaf t) b) rest h = omega arith
Stops-print_branches i (branch k (seq ss) b) rest h = omega arith
Stops-print_branches i (branch k (tree c) b) rest h = omega arith

module _ (numerals : Numerals) where
  two_deeper :
      (i : ℕ) (content : String) (ls : List Line)
      → deeper numerals i ((i + 2, content) ∷ ls) ≡ some (i + 2)
  two_deeper i content ls = ground arith

  deeper-print_block :
      (i : ℕ) (t : Tree) (rest : List Line)
      → IsBlock t
      → IsTree t
      → deeper numerals i (print_block (i + 2) t rest) ≡ some (i + 2)
  unfolding print_block print_branches IsTree
  deeper-print_block i (leaf t) rest b h = absurd b
  deeper-print_block i (seq []) rest b h = absurd h.0
  deeper-print_block i (seq (s ∷ ss)) rest b h =
      two_deeper i ("- " ⁀ s) (print_items (i + 2) ss rest)
  deeper-print_block i (tree stop) rest b h = absurd h.0
  deeper-print_block i (tree (branch k (leaf t) c)) rest b h =
      two_deeper i (k ⁀ ":" ⁀ " " ⁀ t) (print_branches (i + 2) c rest)
  deeper-print_block i (tree (branch k (seq ss) c)) rest b h =
      two_deeper i (k ⁀ ":" ⁀ "") (print_block (i + 2 + 2) (seq ss) (print_branches (i + 2) c rest))
  deeper-print_block i (tree (branch k (tree e) c)) rest b h =
      two_deeper i (k ⁀ ":" ⁀ "") (print_block (i + 2 + 2) (tree e) (print_branches (i + 2) c rest))

  list-Stops :
      (f i : ℕ) (rest : List Line)
      → Stops i rest
      → parse_list numerals (suc f) i rest ≡ ok (nil, rest)
  unfolding parse_list
  list-Stops f i [] h = refl
  list-Stops f i ((j, content) ∷ ls) h = ground arith

  mapping-Stops :
      (f i : ℕ) (d : Fields) (rest : List Line)
      → Stops i rest
      → parse_mapping numerals (suc f) i d rest ≡ ok (d, rest)
  unfolding parse_mapping
  mapping-Stops f i d [] h = refl
  mapping-Stops f i d ((j, content) ∷ ls) h = ground arith

  item_line :
      (again : List Line → Parsed Items) (block : ℕ → List Line → Parsed Value) (i : ℕ) (s : String)
      (ls : List Line)
      → IsScalar s
      → list_item numerals again block i ("- " ⁀ s) i ls
        ≡ (again ls >>= push_item numerals (parse_scalar numerals s))
  unfolding has_prefix
  item_line again block i s ls h = rw (ltb_refl i) (rw h.1 (rw h.0 refl))

  parse_list-print :
      (f i : ℕ) (ss : List String) (rest : List Line)
      → AllScalars ss
      → Stops i rest
      → length (print_items i ss rest) + length (print_items i ss rest) < f
      → parse_list numerals f i (print_items i ss rest) ≡ ok (items_of numerals ss, rest)
  parse_list-print zero i ss rest h k lt = absurd (omega arith)
  parse_list-print (suc f) i [] rest h k lt = list-Stops f i rest k
  parse_list-print (suc f) i (s ∷ ss) rest h k lt =
      step (parse_list-print f i ss rest h.1 k (omega arith))
    where
      step :
          parse_list numerals f i (print_items i ss rest) ≡ ok (items_of numerals ss, rest)
          → parse_list numerals (suc f) i (print_items i (s ∷ ss) rest)
            ≡ ok (items_of numerals (s ∷ ss), rest)
      step ih =
          unfold parse_list in
          item_line (parse_list numerals f i) (parse_block numerals f) i s (print_items i ss rest)
            h.0
          ∙ ap (λ (r : Parsed Items). r >>= push_item numerals (parse_scalar numerals s)) ih

  -- A block of entries is read by the loop of the mappings.
  branches_block :
      (f i : ℕ) (b : Branches) (rest : List Line)
      → HasBranch b
      → AreBranches b
      → parse_block numerals (suc f) i (print_branches i b rest)
        ≡ (parse_mapping numerals f i end (print_branches i b rest) >>= as_mapping numerals)
  unfolding parse_block print_branches AreBranches
  branches_block f i stop rest h a = absurd h
  branches_block f i (branch k (leaf t) b) rest h a = rw (has_prefix-key k (" " ⁀ t) a.0.1.1) refl
  branches_block f i (branch k (seq ss) b) rest h a = rw (has_prefix-key k "" a.0.1.1) refl
  branches_block f i (branch k (tree c) b) rest h a = rw (has_prefix-key k "" a.0.1.1) refl

  items_block :
      (f i : ℕ) (s : String) (ss : List String) (rest : List Line)
      → parse_block numerals (suc f) i (print_items i (s ∷ ss) rest)
        ≡ (parse_list numerals f i (print_items i (s ∷ ss) rest) >>= as_list numerals)
  unfolding parse_block has_prefix
  items_block f i s ss rest = refl

  -- An entry with a block behind its line.
  module _ (f i : ℕ) (d : Fields) (k : String) (t : Tree) (b : Branches) (rest : List Line)
      (key : IsYamlKey k) (block : IsBlock t) (printed : IsTree t) where
    abbrev lines : List Line
    lines = print_block (i + 2) t (print_branches i b rest)

    block_entry :
        parse_block numerals f (i + 2) lines ≡ ok (tree_value numerals t, print_branches i b rest)
        → parse_mapping numerals f i (put d k (tree_value numerals t)) (print_branches i b rest)
          ≡ ok (fields_of numerals (put d k (tree_value numerals t)) b, rest)
        → parse_mapping numerals (suc f) i d ((i, k ⁀ ":" ⁀ "") ∷ lines)
          ≡ ok (fields_of numerals (put d k (tree_value numerals t)) b, rest)
    unfolding parse_mapping
    block_entry e g =
        block_line numerals (parse_mapping numerals f i) (parse_block numerals f) i d k key (i + 2)
          lines (deeper-print_block i t (print_branches i b rest) block printed)
        ∙ (ap (λ (r : Parsed Value). r >>= λ p. parse_mapping numerals f i (put d k p.0) p.1) e ∙ g)

  leaf_entry :
      (f i : ℕ) (d : Fields) (k t : String) (ls : List Line)
      → IsYamlKey k
      → IsScalar t
      → parse_mapping numerals (suc f) i d ((i, k ⁀ ":" ⁀ " " ⁀ t) ∷ ls)
        ≡ parse_mapping numerals f i (put d k (parse_scalar numerals t)) ls
  unfolding parse_mapping
  leaf_entry f i d k t ls key h =
      leaf_line numerals (parse_mapping numerals f i) (parse_block numerals f) i d k key t ls h

  mutual
    unfolding print_block print_branches IsTree AreBranches tree_value fields_of

    pub parse_block-print :
        (f i : ℕ) (t : Tree) (rest : List Line)
        → IsBlock t
        → IsTree t
        → Stops i rest
        → suc (length (print_block i t rest) + length (print_block i t rest)) < f
        → parse_block numerals f i (print_block i t rest) ≡ ok (tree_value numerals t, rest)
    parse_block-print zero i t rest b h k lt = absurd (omega arith)
    parse_block-print (suc f) i (leaf t) rest b h k lt = absurd b
    parse_block-print (suc f) i (seq []) rest b h k lt = absurd h.0
    parse_block-print (suc f) i (seq (s ∷ ss)) rest b h k lt =
        items_block f i s ss rest
        ∙ ap (λ (r : Parsed Items). r >>= as_list numerals)
            (parse_list-print f i (s ∷ ss) rest h.1 k (omega arith))
    parse_block-print (suc f) i (tree c) rest b h k lt =
        branches_block f i c rest h.0 h.1
        ∙ ap (λ (r : Parsed Fields). r >>= as_mapping numerals)
            (parse_mapping-print f i end c rest h.1 k (omega arith))

    parse_mapping-print :
        (f i : ℕ) (d : Fields) (b : Branches) (rest : List Line)
        → AreBranches b
        → Stops i rest
        → length (print_branches i b rest) + length (print_branches i b rest) < f
        → parse_mapping numerals f i d (print_branches i b rest) ≡ ok (fields_of numerals d b, rest)
    parse_mapping-print zero i d b rest h k lt = absurd (omega arith)
    parse_mapping-print (suc f) i d stop rest h k lt = mapping-Stops f i d rest k
    parse_mapping-print (suc f) i d (branch j (leaf t) b) rest h k lt =
        leaf_entry f i d j t (print_branches i b rest) h.0 h.1.0
        ∙ parse_mapping-print f i (put d j (parse_scalar numerals t)) b rest h.1.1 k (omega arith)
    parse_mapping-print (suc f) i d (branch j (seq ss) b) rest h k lt =
        block_entry f i d j (seq ss) b rest h.0 tt h.1.0
          (parse_block-print f (i + 2) (seq ss) (print_branches i b rest) tt h.1.0
            (Stops-print_branches i b rest k) (omega arith))
          (parse_mapping-print f i (put d j (tree_value numerals (seq ss))) b rest h.1.1 k
            (omega (arith, length-print_block (i + 2) (seq ss) (print_branches i b rest))))
    parse_mapping-print (suc f) i d (branch j (tree c) b) rest h k lt =
        block_entry f i d j (tree c) b rest h.0 tt h.1.0
          (parse_block-print f (i + 2) (tree c) (print_branches i b rest) tt h.1.0
            (Stops-print_branches i b rest k) (omega arith))
          (parse_mapping-print f i (put d j (tree_value numerals (tree c))) b rest h.1.1 k
            (omega (arith, length-print_block (i + 2) (tree c) (print_branches i b rest))))
