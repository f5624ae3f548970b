-- ===== src/Config.antt =====
-- app/config.py: what the settings make of their texts. `lower` is that of the ASCII letters, of which
-- the names that are compared consist.
pub mod Keys
use Prim.Native.Char.{code}
use ai_customer_support_plat.Prelude.{
  Bool, List, Option, String, [], false, if◌then◌else◌, lower, nat_beq, none, nonempty, not, one_of,
  some, split_first, split_on, strip, true, ◌&&◌, ◌==◌, ◌||◌, ◌⁀◌, ◌∷◌,
}

-- The settings that the program tests, parses or rewrites.
pub record Settings : Type 0 where
  pub app_env : String
  pub openai_api_key : String
  pub api_keys : String
  pub cors_origins : String
  pub database_url : String
  pub langfuse_public_key : String
  pub langfuse_secret_key : String

-- [part.strip() for part in text.split(…) if part.strip()]
unfoldable pub stripped_parts : List String → List String
stripped_parts [] = []
stripped_parts (part ∷ parts) =
    let rest = stripped_parts parts in if nonempty (strip part) then strip part ∷ rest else rest

-- `parsed_cors_origins`, 44 being the comma
unfoldable pub parsed_cors_origins : String → List String
unfolding stripped_parts split_on
parsed_cors_origins text = stripped_parts (split_on 44 text)

-- `parse_include_injection`, of a text
unfoldable pub parse_include_injection : String → Bool
parse_include_injection value = one_of (lower (strip value)) ("1" ∷ "true" ∷ "yes" ∷ "on" ∷ [])

-- the rest behind a prefix
abbrev without_prefix : String → String → Option String
without_prefix String.[] s = some s
without_prefix (String.◌∷◌ a p) String.[] = none
without_prefix (String.◌∷◌ a p) (String.◌∷◌ c s) =
    let rest = without_prefix p s in if nat_beq (code a) (code c) then rest else none

-- value.replace(old, new, 1), where value starts with old
abbrev replace_prefix : String → String → String → String
replace_prefix old new value = elim (without_prefix old value) [
  | some rest ↦ new ⁀ rest
  | none ↦ value
]

-- `validate_database_url`
unfoldable pub validate_database_url : String → String
validate_database_url value = replace_prefix "postgresql://" "postgresql+psycopg://" value

-- `checkpoint_database_url`
unfoldable pub checkpoint_database_url : String → String
checkpoint_database_url url = replace_prefix "postgresql+psycopg://" "postgresql://" url

-- `langfuse_enabled`
unfoldable pub langfuse_enabled : Settings → Bool
langfuse_enabled s = nonempty s.langfuse_public_key && nonempty s.langfuse_secret_key

-- a dictionary from keys to scopes, in the order of their first writing
abbrev pub KeyTable : Type 0
KeyTable = List (String × List String)

abbrev pub put_key : String → List String → KeyTable → KeyTable
put_key key scopes [] = (key, scopes) ∷ []
put_key key scopes ((k, old) ∷ table) =
    let rest = put_key key scopes table in
    if k == key then (key, scopes) ∷ table else (k, old) ∷ rest

abbrev pub get_key : String → KeyTable → Option (List String)
get_key key [] = none
get_key key ((k, scopes) ∷ table) = if k == key then some scopes else get_key key table

abbrev pub default_scopes : List String
default_scopes = "read" ∷ "write" ∷ []

-- scopes or ["read", "write"]
abbrev pub or_default : List String → List String
or_default [] = default_scopes
or_default (s ∷ ss) = s ∷ ss

abbrev pub add_parts : String → Option (String × String) → KeyTable → KeyTable
add_parts entry none table = put_key entry default_scopes table
add_parts entry (some (key, scopes_raw)) table =
    put_key (strip key) (or_default (stripped_parts (split_on 44 scopes_raw))) table

-- One entry, stripped; 58 is the colon.
unfoldable pub add_entry : String → KeyTable → KeyTable
add_entry entry table =
    if nonempty entry then add_parts entry (split_first 58 entry) table else table

unfoldable pub add_entries : List String → KeyTable → KeyTable
add_entries [] table = table
add_entries (entry ∷ entries) table = add_entries entries (add_entry (strip entry) table)

-- `parsed_api_keys`; 59 is the semicolon.
unfoldable pub parsed_api_keys : String → KeyTable
parsed_api_keys api_keys =
    if nonempty (strip api_keys) then add_entries (split_on 59 api_keys) [] else []

abbrev has_entries : KeyTable → Bool
has_entries [] = false
has_entries (e ∷ table) = true

abbrev pub names_key : String → KeyTable → Bool
names_key key [] = false
names_key key ((k, scopes) ∷ table) = k == key || names_key key table

abbrev pub is_production : Settings → Bool
is_production s = lower (strip s.app_env) == "production"

-- the tests of `reject_insecure_production`, by what they find
abbrev pub rejected : Bool → Bool → KeyTable → Option String
rejected production openai_key keys =
    if not production
    then none
    else if not openai_key
    then some "OPENAI_API_KEY is required when APP_ENV=production"
    else if not (has_entries keys)
    then some "API_KEYS is required when APP_ENV=production"
    else if names_key "dev-key" keys
    then some "API_KEYS must not use the development key when APP_ENV=production"
    else none

-- `reject_insecure_production`: the error that it raises
unfoldable pub reject_insecure_production : Settings → Option String
reject_insecure_production s =
    rejected (is_production s) (nonempty (strip s.openai_api_key)) (parsed_api_keys s.api_keys)
