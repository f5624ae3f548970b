-- ===== src/Config/Keys.antt =====
-- What the parsed keys hold: the keys that were written, and in production no development key.
use ai_customer_support_plat.Prelude.{
  Bool, Bool-cases, List, Option, String, [], ap, append_assoc_text, arith, eq_iff, false, free,
  free-append, if◌then◌else◌, inl, inr, is_space, join, lstrip, none, nonempty, nonempty-append,
  refl, rstrip, some, split_first-append, split_on, split_on-append, split_on-free, strip,
  strip-append, strip-unspaced, sym, true, true_not_false, unspaced, unspaced-append, ◌==◌, ◌⁀◌,
  ◌∙◌, ◌∷◌, ◌≡◌,
}
use ai_customer_support_plat.Config.{
  KeyTable, Settings, add_entries, add_entry, get_key, is_production, names_key, or_default,
  parsed_api_keys, put_key, reject_insecure_production, rejected, stripped_parts,
}

-- A scope that can be written between commas, and a key that can be written before a colon.
abbrev pub IsScope : String → Type 0
IsScope s = (nonempty s ≡ true) × ((unspaced s ≡ true) × ((free 44 s ≡ true) × (free 59 s ≡ true)))

abbrev pub IsKey : String → Type 0
IsKey k = (nonempty k ≡ true) × ((unspaced k ≡ true) × ((free 58 k ≡ true) × (free 59 k ≡ true)))

abbrev pub AllScopes : List String → Type 0
AllScopes [] = Unit
AllScopes (s ∷ ss) = IsScope s × AllScopes ss

abbrev pub AllEntries : KeyTable → Type 0
AllEntries [] = Unit
AllEntries ((k, ss) ∷ es) = (IsKey k × AllScopes ss) × AllEntries es

-- An entry as it is written, and entries.
unfoldable pub written_entry : String → List String → String
unfolding join
written_entry k ss = k ⁀ ":" ⁀ join "," ss

unfoldable pub written : KeyTable → List String
unfolding written_entry
written [] = []
written ((k, ss) ∷ es) = written_entry k ss ∷ written es

-- The table of entries, of which the last counts for a key.
abbrev pub table_of : KeyTable → KeyTable → KeyTable
table_of [] table = table
table_of ((k, ss) ∷ es) table = table_of es (put_key k (or_default ss) table)

stripped_parts-cons :
    (s : String) (ss : List String) → IsScope s → stripped_parts (s ∷ ss) ≡ s ∷ stripped_parts ss
unfolding stripped_parts
stripped_parts-cons s ss h = rw (strip-unspaced s h.1.0) (rw h.0 refl)

-- Scopes come back from their list.
scopes-join : (ss : List String) → AllScopes ss → stripped_parts (split_on 44 (join "," ss)) ≡ ss
unfolding join
scopes-join [] h = unfold stripped_parts split_on strip lstrip rstrip in refl
scopes-join (s ∷ []) h =
    rw (split_on-free 44 s h.0.1.1.0)
      (rw (stripped_parts-cons s [] h.0) (unfold stripped_parts in refl))
scopes-join (s ∷ t ∷ ss) h = rw (split_on-append 44 s "," (join "," (t ∷ ss)) h.0.1.1.0 refl) (
    rw (stripped_parts-cons s (split_on 44 (join "," (t ∷ ss))) h.0)
      (ap (λ r. s ∷ r) (scopes-join (t ∷ ss) h.1)))

join-unspaced : (ss : List String) → AllScopes ss → unspaced (join "," ss) ≡ true
unfolding join is_space
join-unspaced [] h = refl
join-unspaced (s ∷ []) h = h.0.1.0
join-unspaced (s ∷ t ∷ ss) h =
    unspaced-append s ("," ⁀ join "," (t ∷ ss)) h.0.1.0 (join-unspaced (t ∷ ss) h.1)

join-free : (ss : List String) → AllScopes ss → free 59 (join "," ss) ≡ true
unfolding join
join-free [] h = refl
join-free (s ∷ []) h = h.0.1.1.1
join-free (s ∷ t ∷ ss) h =
    free-append 59 s ("," ⁀ join "," (t ∷ ss)) h.0.1.1.1 (join-free (t ∷ ss) h.1)

module _ (k : String) (ss : List String) (key : IsKey k) (scopes : AllScopes ss) where
  entry-unspaced : unspaced (written_entry k ss) ≡ true
  unfolding written_entry
  entry-unspaced =
      unspaced-append k (":" ⁀ join "," ss) key.1.0 (unfold is_space in join-unspaced ss scopes)

  entry-free : free 59 (written_entry k ss) ≡ true
  unfolding written_entry
  entry-free = free-append 59 k (":" ⁀ join "," ss) key.1.1.1 (join-free ss scopes)

  add_entry-written :
      (table : KeyTable)
      → add_entry (strip (written_entry k ss)) table ≡ put_key k (or_default ss) table
  unfolding add_entry written_entry
  add_entry-written table = rw (strip-unspaced (written_entry k ss) entry-unspaced) (
      rw (nonempty-append k (":" ⁀ join "," ss) key.0) (
        rw (split_first-append 58 k ":" (join "," ss) key.1.1.0 refl)
          (rw (strip-unspaced k key.1.0) (rw (scopes-join ss scopes) refl))))

add_entries-written :
    (es : KeyTable) (table : KeyTable)
    → AllEntries es
    → add_entries (written es) table ≡ table_of es table
unfolding add_entries written
add_entries-written [] table h = refl
add_entries-written ((k, ss) ∷ es) table h =
    ap (add_entries (written es)) (add_entry-written k ss h.0.0 h.0.1 table)
    ∙ add_entries-written es (put_key k (or_default ss) table) h.1

-- The entries come back from their list.
split_on-written :
    (k : String) (ss : List String) (es : KeyTable)
    → AllEntries ((k, ss) ∷ es)
    → split_on 59 (join ";" (written ((k, ss) ∷ es))) ≡ written ((k, ss) ∷ es)
unfolding join written
split_on-written k ss [] h = split_on-free 59 (written_entry k ss) (entry-free k ss h.0.0 h.0.1)
split_on-written k ss ((l, ts) ∷ es) h =
    split_on-append 59 (written_entry k ss) ";" (join ";" (written ((l, ts) ∷ es)))
      (entry-free k ss h.0.0 h.0.1) refl
    ∙ ap (λ r. written_entry k ss ∷ r) (split_on-written l ts es h.1)

written-nonempty :
    (k : String) (ss : List String) (es : KeyTable)
    → IsKey k
    → nonempty (strip (join ";" (written ((k, ss) ∷ es)))) ≡ true
unfolding join written written_entry
written-nonempty k ss [] h = strip-append k (":" ⁀ join "," ss) h.0 h.1.0
written-nonempty k ss ((l, ts) ∷ es) h =
    rw (append_assoc_text k (":" ⁀ join "," ss) (";" ⁀ join ";" (written ((l, ts) ∷ es))))
      (strip-append k _ h.0 h.1.0)

parsed_api_keys-table :
    (es : KeyTable) → AllEntries es → parsed_api_keys (join ";" (written es)) ≡ table_of es []
unfolding parsed_api_keys
parsed_api_keys-table [] h = unfold join written strip lstrip rstrip in refl
parsed_api_keys-table ((k, ss) ∷ es) h =
    rw (written-nonempty k ss es h.0.0)
      (rw (split_on-written k ss es h) (add_entries-written ((k, ss) ∷ es) [] h))

-- The scopes that an entry gives: those that it lists, or the documented ones.
abbrev pub scopes_given : List String → List String
scopes_given [] = "read" ∷ "write" ∷ []
scopes_given (s ∷ ss) = s ∷ ss

abbrev later_or : Option (List String) → Bool → List String → Option (List String)
later_or (some scopes) b ss = some scopes
later_or none true ss = some (scopes_given ss)
later_or none false ss = none

-- What the last entry of a key gives it.
abbrev pub last_given : String → KeyTable → Option (List String)
last_given key [] = none
last_given key ((k, ss) ∷ es) = later_or (last_given key es) (k == key) ss

abbrev given_or : Option (List String) → Option (List String) → Option (List String)
given_or (some scopes) old = some scopes
given_or none old = old

put_key-get :
    (key k : String) (ss : List String) (table : KeyTable)
    → get_key key (put_key k ss table) ≡ (if k == key then some ss else get_key key table)
put_key-get key k ss [] = refl
put_key-get key k ss ((l, old) ∷ table) = elim (Bool-cases (l == k)) [
  | inl e ↦ rw e (elim (Bool-cases (k == key)) [
    | inl f ↦ rw f refl
    | inr f ↦ rw f (rw (ap (λ x. x == key) ((eq_iff l k).0 e) ∙ f) refl)
  ])
  | inr e ↦ rw e (elim (Bool-cases (l == key)) [
    | inl f ↦ rw f (rw (apart ((eq_iff l key).0 f) e) refl)
    | inr f ↦ rw f (put_key-get key k ss table)
  ])
]
  where
    apart : l ≡ key → (l == k) ≡ false → (k == key) ≡ false
    apart x y = elim (Bool-cases (k == key)) [
      | inl z ↦ absurd (true_not_false ((eq_iff l k).1 (x ∙ sym ((eq_iff k key).0 z))) y)
      | inr z ↦ z
    ]

or_default-given : (ss : List String) → or_default ss ≡ scopes_given ss
or_default-given [] = refl
or_default-given (s ∷ ss) = refl

table_of-get :
    (key : String) (es table : KeyTable)
    → get_key key (table_of es table) ≡ given_or (last_given key es) (get_key key table)
table_of-get key [] table = refl
table_of-get key ((k, ss) ∷ es) table =
    table_of-get key es (put_key k (or_default ss) table)
    ∙ (ap (given_or (last_given key es)) (put_key-get key k (or_default ss) table)
        ∙ joined (last_given key es) (k == key))
  where
    joined :
        (o : Option (List String)) (b : Bool)
        → given_or o (if b then some (or_default ss) else get_key key table)
          ≡ given_or (later_or o b ss) (get_key key table)
    joined (some scopes) b = refl
    joined none true = ap some (or_default-given ss)
    joined none false = refl

-- Keys with their scopes, written in the documented form, come back: each key has the scopes of its
-- last entry, which are `read` and `write` if that lists none, and a key that was not written is not
-- found. The keys and the scopes are texts without spaces and semicolons, the keys without colons and
-- the scopes without commas.
pub parsed_api_keys-written :
    (es : KeyTable) (key : String)
    → AllEntries es
    → get_key key (parsed_api_keys (join ";" (written es))) ≡ last_given key es
parsed_api_keys-written es key h =
    ap (get_key key) (parsed_api_keys-table es h)
    ∙ (table_of-get key es [] ∙ nothing_left (last_given key es))
  where
    nothing_left : (o : Option (List String)) → given_or o none ≡ o
    nothing_left none = refl
    nothing_left (some scopes) = refl

-- Settings that are accepted in production do not list the development key.
pub accepted_keys :
    (s : Settings)
    → is_production s ≡ true
    → reject_insecure_production s ≡ none
    → names_key "dev-key" (parsed_api_keys s.api_keys) ≡ false
unfolding reject_insecure_production
accepted_keys s p h =
    go (nonempty (strip s.openai_api_key)) (parsed_api_keys s.api_keys) (rw p at h)
  where
    go :
        (b : Bool) (keys : KeyTable)
        → rejected true b keys ≡ none
        → names_key "dev-key" keys ≡ false
    go b [] e = ground arith
    go b (k ∷ keys) e = ground arith
