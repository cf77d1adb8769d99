-- ===== src/Metering/Families.antt =====
-- internal/metering/provider_normalizer.go and model_normalizer.go: the names under which prices
-- are looked up.
pub mod Laws
use costguard.Base.{String, Bool, List, [], ◌∷◌, str_eq, has_prefix, if◌then◌else◌, ◌||◌}

unfoldable pub normalize_provider : String → String
normalize_provider provider =
    if has_prefix "openai" provider
    then "openai"
    else if has_prefix "anthropic" provider
    then "anthropic"
    else if has_prefix "google" provider
    then "google"
    else if has_prefix "xai" provider
    then "xai"
    else provider

-- `if model == name || strings.HasPrefix(model, dashed) { return name }`, for each pair in turn;
-- `return model` if none applies.
unfoldable pub first_family : List (String × String) → String → String
first_family [] model = model
first_family ((name, dashed) ∷ families) model =
    if str_eq model name || has_prefix dashed model then name else first_family families model

abbrev pub openai_families : List (String × String)
openai_families =
    ("gpt-4o-mini", "gpt-4o-mini-")
    ∷ ("gpt-4o", "gpt-4o-")
    ∷ ("gpt-4.1-nano", "gpt-4.1-nano-")
    ∷ ("gpt-4.1-mini", "gpt-4.1-mini-")
    ∷ ("gpt-4.1", "gpt-4.1-")
    ∷ ("gpt-5.4", "gpt-5.4-")
    ∷ ("gpt-5.4-mini", "gpt-5.4-mini-")
    ∷ ("gpt-5.4-nano", "gpt-5.4-nano-")
    ∷ []

abbrev pub anthropic_families : List (String × String)
anthropic_families =
    ("claude-sonnet-4-6", "claude-sonnet-4-6-")
    ∷ ("claude-opus-4-6", "claude-opus-4-6-")
    ∷ ("claude-sonnet-4-5", "claude-sonnet-4-5-")
    ∷ ("claude-haiku-4-5", "claude-haiku-4-5-")
    ∷ []

abbrev pub google_families : List (String × String)
google_families =
    ("gemini-2.5-flash-lite", "gemini-2.5-flash-lite-")
    ∷ ("gemini-2.5-flash", "gemini-2.5-flash-")
    ∷ ("gemini-2.5-pro", "gemini-2.5-pro-")
    ∷ []

abbrev pub families_of : String → List (String × String)
families_of provider =
    if str_eq provider "openai"
    then openai_families
    else if str_eq provider "anthropic"
    then anthropic_families
    else if str_eq provider "google"
    then google_families
    else []

unfoldable pub normalize_model : String → String → String
unfolding first_family
normalize_model provider model = first_family (families_of provider) model
