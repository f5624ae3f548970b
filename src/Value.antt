-- ===== src/Value.antt =====
-- The values that the program passes about untyped: the payloads of tools, the Facts of the
-- escalation catalog and the policy decisions of the graph state are Python dictionaries.
use ai_customer_support_plat.Prelude.{
  Bool, List, Option, String, [], arith, eq_iff, false, if◌then◌else◌, nat_beq, none, nonempty, not,
  refl, some, true, ℕ, ◌==◌, ◌∷◌, ◌≡◌,
}

-- `money n` is a `Decimal` of n cents in the text form of `model_dump(mode="json")`, a non-empty
-- text, and `instant n` the ISO text of a time, in seconds. Floats, of which the program reads no property, stand as `real` with their text.
mutual
  pub data Value : Type 0 where
    null : Value
    bool : Bool → Value
    num : ℕ → Value
    real : String → Value
    money : ℕ → Value
    instant : ℕ → Value
    str : String → Value
    obj : Fields → Value
    arr : Items → Value

  -- the entries of a dictionary, in their order
  pub data Fields : Type 0 where
    end : Fields
    field : String → Value → Fields → Fields

  pub data Items : Type 0 where
    nil : Items
    cons : Value → Items → Items

-- d.get(k)
unfoldable pub get : Fields → String → Option Value
get end k = none
get (field j v d) k = if j == k then some v else get d k

-- d[k] = v
unfoldable pub put : Fields → String → Value → Fields
put end k v = field k v end
put (field j w d) k v = if j == k then field j v d else field j w (put d k v)

-- k in d
unfoldable pub has_key : Fields → String → Bool
unfolding get
has_key d k = elim (get d k) [ none ↦ false | some _ ↦ true ]

-- bool(v); a number is false at 0. The floats that the program tests are not among them.
abbrev pub truthy_value : Value → Bool
truthy_value null = false
truthy_value (bool b) = b
truthy_value (num n) = not (nat_beq n 0)
truthy_value (real _) = true
truthy_value (money _) = true
truthy_value (instant _) = true
truthy_value (str s) = nonempty s
truthy_value (arr nil) = false
truthy_value (arr (cons _ _)) = true
truthy_value (obj end) = false
truthy_value (obj (field _ _ _)) = true

-- bool(d.get(k)), where a missing key gives `None`
abbrev pub truthy : Option Value → Bool
truthy none = false
truthy (some v) = truthy_value v

-- v == "text"
abbrev pub is_text : Option Value → String → Bool
is_text (some (str s)) t = s == t
is_text _ t = false

-- v is False
abbrev pub is_false : Option Value → Bool
is_false (some (bool b)) = not b
is_false _ = false

-- isinstance(v, dict), with its entries
abbrev pub as_dict : Option Value → Option Fields
as_dict (some (obj d)) = some d
as_dict _ = none

abbrev pub or_empty : Option Fields → Fields
or_empty none = end
or_empty (some d) = d

abbrev pub texts : List String → Items
texts [] = nil
texts (s ∷ ss) = cons (str s) (texts ss)

-- A later read sees the value that was put under its key, and the old values elsewhere.
pub get-put :
    (d : Fields) (k j : String) (v : Value)
    → get (put d k v) j ≡ (if k == j then some v else get d j)
unfolding get put
get-put end k j v = refl
get-put (field i w d) k j v = ground (arith, eq_iff i k, eq_iff i j, eq_iff k j, get-put d k j v)

-- d.get(k) as a value
abbrev pub value_or_null : Option Value → Value
value_or_null none = null
value_or_null (some v) = v

-- d.pop(k, None)
unfoldable pub pop : Fields → String → Fields
pop end k = end
pop (field j v d) k = let rest = pop d k in if j == k then rest else field j v rest
