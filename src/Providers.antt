-- ===== src/Providers.antt =====
-- internal/providers: the registry of providers, the catalog of what is known of them, and the
-- categories of errors. An operation of the catalog runs under its lock, and is one step.
pub mod Catalog
mod Tests
use costguard.Base.{
  ℕ, String, Bool, true, false, ◌||◌, ◌==◌, List, [], ◌∷◌, Option, none, some, Dict, lookup, insert,
  any, str_eq, if◌then◌else◌, is_empty, ℤ, pos, not,
}

-- The parts of `RuntimeMetadata` that the program decides by.
pub record RuntimeMetadata : Type 0 where
  pub name : String
  pub kind : String
  pub supports_embeddings : Bool
  pub priority : ℤ
  pub supported_models : List String
  pub enabled : Bool

unfoldable pub set_metadata : Dict RuntimeMetadata → String → RuntimeMetadata → Dict RuntimeMetadata
set_metadata items name md = insert name md items

unfoldable pub get_metadata : Dict RuntimeMetadata → String → Option RuntimeMetadata
get_metadata items name = lookup name items

abbrev pub list_metadata : Dict RuntimeMetadata → List RuntimeMetadata
list_metadata [] = []
list_metadata ((name, md) ∷ items) = md ∷ list_metadata items

-- `for _, m := range md.SupportedModels { if m == modelID {…} }`
abbrev pub lists_model : RuntimeMetadata → String → Bool
lists_model md model_id = any (λ m. str_eq m model_id) md.supported_models

-- In the order of the map, which Go does not fix.
abbrev pub supports_model : Dict RuntimeMetadata → String → List String
supports_model [] model_id = []
supports_model ((name, md) ∷ items) model_id =
    let rest = supports_model items model_id in
    if not md.enabled || is_empty md.supported_models
    then rest
    else if lists_model md model_id
    then name ∷ rest
    else rest

unfoldable pub priority_of : Dict RuntimeMetadata → String → ℤ
priority_of items provider_name = elim (lookup provider_name items) [
  | none ↦ pos 0
  | some md ↦ md.priority
]

unfoldable pub model_supported : Dict RuntimeMetadata → String → String → Bool
model_supported items provider_name model_id = elim (lookup provider_name items) [
  | none ↦ false
  | some md ↦ if is_empty md.supported_models then true else lists_model md model_id
]

-- The registry, of providers of any kind `P`: nothing is the error "provider not found".
abbrev pub register {ℓ} : {P : Type ℓ} → Dict P → String → P → Dict P
register m name p = insert name p m

abbrev pub get_provider {ℓ} : {P : Type ℓ} → Dict P → String → Option P
get_provider m name = lookup name m

pub data Category : Type 0 where
  auth invalid_request rate_limit provider_unavailable upstream_failure : Category

abbrev pub category_of_status : ℕ → Category
category_of_status status_code =
    if (status_code == 401) || (status_code == 403)
    then auth
    else if (status_code == 400) || (status_code == 422)
    then invalid_request
    else if status_code == 429
    then rate_limit
    else if (status_code == 502) || ((status_code == 503) || (status_code == 504))
    then provider_unavailable
    else upstream_failure

unfoldable pub error_category : String → ℕ → Category
error_category err_type status_code =
    if str_eq err_type "authentication_error" || str_eq err_type "permission_error"
    then auth
    else if str_eq err_type "invalid_request_error"
    then invalid_request
    else if str_eq err_type "rate_limit_error"
    then rate_limit
    else category_of_status status_code
