-- ===== src/Examples/Loader.antt =====
-- Runs of the reader of YAML.
use ai_customer_support_plat.Prelude.{
  String, [], fail, has_prefix, if◌then◌else◌, is_space, lstrip, none, ok, refl, rstrip, some,
  strip, ◌==◌, ◌∷◌, ◌≡◌, ◌⊎◌,
}
use ai_customer_support_plat.Value.{Value, num}
use ai_customer_support_plat.Policy.Loader.{Numerals, parse_simple_yaml, unexpected_indent}
use ai_customer_support_plat.Policy.Loader.Print.{
  AreBranches, IsTree, Tree, branch, leaf, print_block, print_branches, seq, stop, tree, tree_value,
}
use ai_customer_support_plat.Policy.Loader.Fuel.{parse_simple_yaml-ends}
use ai_customer_support_plat.Policy.Loader.Written.{AllClean, parse_simple_yaml-written, text_of}
use ai_customer_support_plat.Security.Answers.{is_line_break}

abbrev numerals : Numerals
numerals = record { int = λ s. if s == "30" then some (num 30) else none; float = λ s. none }

-- a company with a rule and a list
abbrev company : Tree
company = tree (
    branch "refund" (tree (branch "days" (leaf "30") stop))
      (branch "triggers" (seq ("fraud" ∷ "legal" ∷ [])) stop))

company-IsTree : IsTree company
unfolding IsTree AreBranches strip lstrip rstrip is_space has_prefix
company-IsTree = (
  tt,
  (
    (refl, (refl, refl)),
    (
      (tt, ((refl, (refl, refl)), ((refl, refl), tt))),
      ((refl, (refl, refl)), ((tt, ((refl, refl), ((refl, refl), tt))), tt)),
    ),
  ),
)

company-AllClean : AllClean (print_block 0 company [])
unfolding print_block print_branches rstrip is_space is_line_break
company-AllClean = (
  (refl, (refl, (refl, refl))),
  (
    (refl, (refl, (refl, refl))),
    (
      (refl, (refl, (refl, refl))),
      ((refl, (refl, (refl, refl))), ((refl, (refl, (refl, refl))), tt)),
    ),
  ),
)

parse_simple_yaml-written_example :
    parse_simple_yaml numerals (text_of (print_block 0 company []))
    ≡ ok (tree_value numerals company)
parse_simple_yaml-written_example =
    parse_simple_yaml-written numerals company tt company-IsTree company-AllClean

parse_simple_yaml-ends_example :
    ((v : Value) × (parse_simple_yaml numerals "a: 30\n   b: 1\n" ≡ ok v))
    ⊎ ((line : String) × (parse_simple_yaml numerals "a: 30\n   b: 1\n"
          ≡ fail (unexpected_indent line)))
parse_simple_yaml-ends_example = parse_simple_yaml-ends numerals "a: 30\n   b: 1\n"
