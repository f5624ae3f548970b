-- ===== src/Security/Authentication.antt =====
-- app/security/authentication.py: the caller behind an API key.
use mathlib.Core.Path.{subst}
use mathlib.Core.Option.{some-injective}
use ai_customer_support_plat.Prelude.{
  Bool-cases, List, Option, Result, String, [], fail, if◌then◌else◌, inl, inr, none, nonempty, ok,
  refl, some, split_first, split_on, strip, true, true_not_false, ℕ, ◌==◌, ◌∷◌, ◌≡◌, ◌≢◌,
}
use ai_customer_support_plat.Config.{
  KeyTable, Settings, add_entries, add_entry, add_parts, default_scopes, get_key, is_production,
  names_key, or_default, parsed_api_keys, put_key, reject_insecure_production, stripped_parts,
}
use ai_customer_support_plat.Config.Keys.{accepted_keys}
use ai_customer_support_plat.Security.Answers.{take_text}

pub record Principal : Type 0 where
  pub key_id : String
  pub scopes : List String

abbrev principal_of : String → Option (List String) → Option Principal
principal_of api_key none = none
principal_of api_key (some scopes) = some (record { key_id = take_text 8 api_key; scopes = scopes })

-- `get_principal_from_api_key`
unfoldable pub get_principal_from_api_key : Settings → Option String → Option Principal
get_principal_from_api_key settings none = none
get_principal_from_api_key settings (some api_key) =
    if nonempty api_key
    then principal_of api_key (get_key api_key (parsed_api_keys settings.api_keys))
    else none

-- the status code and the text of the `HTTPException`
abbrev pub unauthorized : ℕ × String
unauthorized = (401, "Invalid or missing API key")

abbrev principal_or_fail : Option Principal → Result (ℕ × String) Principal
principal_or_fail none = fail unauthorized
principal_or_fail (some p) = ok p

-- `get_current_principal`, with the header X-API-Key
unfoldable pub get_current_principal : Settings → Option String → Result (ℕ × String) Principal
get_current_principal settings x_api_key =
    principal_or_fail (get_principal_from_api_key settings x_api_key)

-- Every key has a scope.
abbrev AllScoped : KeyTable → Type 0
AllScoped [] = Unit
AllScoped ((k, ss) ∷ table) = (ss ≢ []) × AllScoped table

put_key-AllScoped :
    (key : String) (ss : List String) (table : KeyTable)
    → ss ≢ []
    → AllScoped table
    → AllScoped (put_key key ss table)
put_key-AllScoped key ss [] n h = (n, tt)
put_key-AllScoped key ss ((k, old) ∷ table) n h = elim (Bool-cases (k == key)) [
  | inl e ↦ rw e (n, h.1)
  | inr e ↦ rw e (h.0, put_key-AllScoped key ss table n h.1)
]

or_default-nonempty : (ss : List String) → or_default ss ≢ []
or_default-nonempty [] e = cc
or_default-nonempty (s ∷ ss) e = cc

add_entry-AllScoped :
    (entry : String) (table : KeyTable) → AllScoped table → AllScoped (add_entry entry table)
unfolding add_entry
add_entry-AllScoped entry table h = elim (Bool-cases (nonempty entry)) [
  | inl e ↦ rw e (go (split_first 58 entry))
  | inr e ↦ rw e h
]
  where
    go : (parts : Option (String × String)) → AllScoped (add_parts entry parts table)
    go none = put_key-AllScoped entry default_scopes table (λ e. cc) h
    go (some (key, scopes_raw)) =
        put_key-AllScoped (strip key) _ table
          (or_default-nonempty (stripped_parts (split_on 44 scopes_raw))) h

add_entries-AllScoped :
    (entries : List String) (table : KeyTable)
    → AllScoped table
    → AllScoped (add_entries entries table)
unfolding add_entries
add_entries-AllScoped [] table h = h
add_entries-AllScoped (entry ∷ entries) table h =
    add_entries-AllScoped entries (add_entry (strip entry) table)
      (add_entry-AllScoped (strip entry) table h)

parsed_api_keys-AllScoped : (text : String) → AllScoped (parsed_api_keys text)
unfolding parsed_api_keys
parsed_api_keys-AllScoped text = elim (Bool-cases (nonempty (strip text))) [
  | inl e ↦ rw e (add_entries-AllScoped (split_on 59 text) [] tt)
  | inr e ↦ rw e tt
]

get_key-names :
    (key : String) (table : KeyTable) (scopes : List String)
    → get_key key table ≡ some scopes
    → names_key key table ≡ true
get_key-names key [] scopes h = cc
get_key-names key ((k, ss) ∷ table) scopes h = elim (Bool-cases (k == key)) [
  | inl e ↦ rw e refl
  | inr e ↦ rw e (get_key-names key table scopes (rw e at h))
]

get_key-scoped :
    (key : String) (table : KeyTable) (scopes : List String)
    → AllScoped table
    → get_key key table ≡ some scopes
    → scopes ≢ []
get_key-scoped key [] scopes a h = cc
get_key-scoped key ((k, ss) ∷ table) scopes a h = elim (Bool-cases (k == key)) [
  | inl e ↦ subst (λ t. t ≢ []) (some-injective ss scopes (rw e at h)) a.0
  | inr e ↦ get_key-scoped key table scopes a.1 (rw e at h)
]

-- a caller whom the keys let in
found_key :
    (s : Settings) (key : String) (p : Principal)
    → get_current_principal s (some key) ≡ ok p
    → get_key key (parsed_api_keys s.api_keys) ≡ some p.scopes
unfolding get_current_principal get_principal_from_api_key
found_key s key p h = elim (Bool-cases (nonempty key)) [
  | inl e ↦ go (get_key key (parsed_api_keys s.api_keys)) (rw e at h)
  | inr e ↦ absurd (ok-not-fail (rw e at h))
]
  where
    ok-not-fail : fail unauthorized ≡ ok p → ⊥
    ok-not-fail k = cc

    go :
        (o : Option (List String))
        → principal_or_fail (principal_of key o) ≡ ok p
        → o ≡ some p.scopes
    go none k = cc
    go (some scopes) k = cc

-- Where the settings are those of production and are accepted, a caller who is let in does not use the
-- development key, and has a scope.
pub production_caller :
    (s : Settings) (key : String) (p : Principal)
    → is_production s ≡ true
    → reject_insecure_production s ≡ none
    → get_current_principal s (some key) ≡ ok p
    → (key ≢ "dev-key") × (p.scopes ≢ [])
production_caller s key p production accepted h =
    let found = found_key s key p h in
    (
      λ e.
          true_not_false
            (get_key-names "dev-key" (parsed_api_keys s.api_keys) p.scopes
              (subst (λ k. get_key k (parsed_api_keys s.api_keys) ≡ some p.scopes) e found))
            (accepted_keys s production accepted),
      get_key-scoped key (parsed_api_keys s.api_keys) p.scopes
          (parsed_api_keys-AllScoped s.api_keys) found,
    )
