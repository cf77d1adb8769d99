-- ===== src/Clients/Errors.antt =====
-- internal/providers/*/client.go: `NormalizeError` of the four clients. `json.Unmarshal` is a parameter;
-- what is returned is the body before it is marshalled, and `status_text` is `http.StatusText`.
use costguard.Base.{
  ℕ, ◌≡◌, String, Bool, false, not, ◌&&◌, ◌||◌, List, [], ◌∷◌, Option, none, some, str_eq,
  if◌then◌else◌, is_empty, Dict, lookup_or, arith,
}
use costguard.Providers.{error_category}
use costguard.Gateway.Calls.{category_text}
use costguard.Proxy.Types.{ErrorBody}

-- The error that an upstream's body holds; a field that is missing is empty. `kind` is the type.
pub record Raw : Type 0 where
  pub message : List ℕ
  pub kind : String
  pub status : String

-- An error with its category.
abbrev pub categorized : List ℕ → String → String → ℕ → ErrorBody
categorized message error_type code status_code = record {
  message = message;
  error_type = error_type;
  code = code;
  category = category_text (error_category error_type status_code);
}

module _ (status_text : ℕ → List ℕ) where
  -- The end of each of the functions.
  abbrev pub unknown_error : String → ℕ → ErrorBody
  unknown_error code status_code =
      categorized (status_text status_code) "upstream_error" code status_code

  unfoldable pub normalize_anthropic_error : ℕ → Option Raw → ErrorBody
  normalize_anthropic_error status_code none = unknown_error "" status_code
  normalize_anthropic_error status_code (some raw) =
      if not (is_empty raw.message)
      then categorized raw.message (if str_eq raw.kind "" then "upstream_error" else raw.kind) ""
          status_code
      else unknown_error "" status_code

  unfoldable pub gemini_status_to_error_type : String → String
  gemini_status_to_error_type status =
      if str_eq status "INVALID_ARGUMENT"
      then "invalid_request_error"
      else if str_eq status "PERMISSION_DENIED"
      then "permission_error"
      else if str_eq status "UNAUTHENTICATED"
      then "authentication_error"
      else if str_eq status "RESOURCE_EXHAUSTED"
      then "rate_limit_error"
      else if str_eq status "NOT_FOUND"
      then "not_found_error"
      else if str_eq status "INTERNAL" || str_eq status "UNAVAILABLE"
      then "api_error"
      else "upstream_error"

  unfoldable pub normalize_gemini_error : ℕ → Option Raw → ErrorBody
  unfolding gemini_status_to_error_type
  normalize_gemini_error status_code none = unknown_error "" status_code
  normalize_gemini_error status_code (some raw) =
      if not (is_empty raw.message)
      then categorized raw.message (gemini_status_to_error_type raw.status) raw.status status_code
      else unknown_error "" status_code

  -- Whether the body was decoded, and what was decoded of it, also where that failed.
  unfoldable pub normalize_compat_error : ℕ → Bool × ErrorBody → ErrorBody
  normalize_compat_error status_code (decoded, parsed) =
      if decoded && not (is_empty parsed.message)
      then categorized parsed.message parsed.error_type parsed.code status_code
      else unknown_error parsed.code status_code

  abbrev pub openai_type_remap : Dict String
  openai_type_remap = ("server_error", "upstream_error") ∷ []

  unfoldable pub normalize_openai_error : ℕ → Bool × ErrorBody → ErrorBody
  normalize_openai_error status_code (decoded, parsed) =
      if decoded && not (is_empty parsed.message)
      then categorized parsed.message
          (lookup_or parsed.error_type parsed.error_type openai_type_remap) parsed.code status_code
      else unknown_error parsed.code status_code

  -- An error of one shape: with a message, and of the category that type and status have.
  abbrev pub IsNormal : ℕ → ErrorBody → Type 0
  IsNormal status_code b =
      (is_empty b.message ≡ false)
      × (b.category ≡ category_text (error_category b.error_type status_code))

  -- Whatever an upstream's body holds, the four clients make of it an error that has a message, and
  -- the category that its type and the status have, if the status is one with a text.
  pub normalize_error-IsNormal :
      (status_code : ℕ) (raw : Option Raw) (parsed : Bool × ErrorBody)
      → is_empty (status_text status_code) ≡ false
      → IsNormal status_code (normalize_anthropic_error status_code raw)
        × IsNormal status_code (normalize_gemini_error status_code raw)
        × IsNormal status_code (normalize_compat_error status_code parsed)
        × IsNormal status_code (normalize_openai_error status_code parsed)
  unfolding normalize_anthropic_error normalize_gemini_error normalize_compat_error
      normalize_openai_error
  normalize_error-IsNormal status_code none parsed h = ground arith
  normalize_error-IsNormal status_code (some raw) parsed h = ground arith
