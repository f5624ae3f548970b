-- ===== src/Examples/Settings.antt =====
-- Runs of the settings.
use ai_customer_support_plat.Config.{
  KeyTable, Settings, add_entries, add_entry, get_key, is_production, parsed_api_keys,
  reject_insecure_production, stripped_parts,
}
use ai_customer_support_plat.Security.Authentication.{
  Principal, get_current_principal, get_principal_from_api_key, production_caller,
}
use ai_customer_support_plat.Security.Answers.{take_text}
use ai_customer_support_plat.Prelude.{
  String, [], is_space, join, lower, lstrip, none, ok, refl, rstrip, some, split_first, split_on,
  strip, true, ◌∷◌, ◌≡◌, ◌≢◌,
}
use ai_customer_support_plat.Config.Keys.{AllEntries, last_given, parsed_api_keys-written, written}

abbrev keys : KeyTable
keys = ("abc", "read" ∷ "billing:write" ∷ []) ∷ ("xyz", []) ∷ []

keys-AllEntries : AllEntries keys
unfolding is_space
keys-AllEntries = (
  (
    (refl, (refl, (refl, refl))),
    ((refl, (refl, (refl, refl))), ((refl, (refl, (refl, refl))), tt)),
  ),
  (((refl, (refl, (refl, refl))), tt), tt),
)

parsed_api_keys-written_example :
    get_key "xyz" (parsed_api_keys (join ";" (written keys))) ≡ last_given "xyz" keys
parsed_api_keys-written_example = parsed_api_keys-written keys "xyz" keys-AllEntries

abbrev production : Settings
production = record {
  app_env = "Production";
  openai_api_key = "sk";
  api_keys = "abc:read";
  cors_origins = "";
  database_url = "";
  langfuse_public_key = "";
  langfuse_secret_key = "";
}

abbrev key : String
key = "abc"

abbrev reader : Principal
reader = record { key_id = "abc"; scopes = "read" ∷ [] }

production-accepted :
    (is_production production ≡ true) × (reject_insecure_production production ≡ none)
unfolding reject_insecure_production parsed_api_keys add_entries add_entry stripped_parts split_on
    strip lstrip rstrip is_space lower split_first
production-accepted = (refl, refl)

reader-let_in : get_current_principal production (some "abc") ≡ ok reader
unfolding get_current_principal get_principal_from_api_key parsed_api_keys add_entries add_entry
    stripped_parts split_on strip lstrip rstrip is_space split_first take_text
reader-let_in = refl

production_caller_example : (key ≢ "dev-key") × (reader.scopes ≢ [])
production_caller_example =
    production_caller production key reader production-accepted.0 production-accepted.1
      reader-let_in
