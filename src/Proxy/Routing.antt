-- ===== src/Proxy/Routing.antt =====
-- internal/gateway/proxy.go, mode_hint.go, provider_hint.go, request_rewrite.go and metering.go: which
-- provider a request goes to, under which model.
use Prim.Native.String.{◌++◌}
use costguard.Base.{
  ℕ, String, Bool, true, false, not, ◌&&◌, ◌||◌, List, Option, none, some, str_eq, if◌then◌else◌,
  lookup_or, insert, Result, ok, err, and_then,
}
use costguard.Base.Float.{Float}
use costguard.Json.{text}
use costguard.Router.{pick_provider}
use costguard.Providers.{get_provider}
use costguard.Gateway.Errors.{GoError}
use costguard.Gateway.Calls.{compatible_model_for_provider}
use costguard.Proxy.Types.{Library, Request, Gateway}

unfoldable pub requested_provider_hint : Library → Request → String
requested_provider_hint lib r = lib.trim_space r.provider_header

unfoldable pub requested_mode_hint : Library → Request → String
requested_mode_hint lib r = lib.trim_space (lib.to_lower r.mode_header)

unfoldable pub is_supported_mode : String → Bool
is_supported_mode mode =
    str_eq mode "cheap" || (str_eq mode "balanced" || (str_eq mode "best" || str_eq mode "private"))

unfoldable pub extract_model : Library → List ℕ → String
extract_model lib body = elim (lib.model_field body) [ none ↦ "" | some model ↦ model ]

-- A body `null`, whose map would be nil, has no model that could be rewritten.
unfoldable pub rewrite_model_in_body : Library → List ℕ → String → Result GoError (List ℕ)
rewrite_model_in_body lib body new_model =
    if str_eq new_model ""
    then ok body
    else and_then (lib.unmarshal_map body)
        (λ payload. lib.marshal_map (insert "model" (text new_model) payload))

abbrev pub is_some {ℓ} : {A : Type ℓ} → Option A → Bool
is_some none = false
is_some (some a) = true

module _ (f : Float) where
  abbrev pub known : Gateway f → String → Bool
  known g name = is_some (get_provider g.registry name)

  -- What a request with a mode hint goes to.
  unfoldable pub choose_by_mode : Library → Gateway f → String → Result String String
  choose_by_mode lib g mode =
      let provider = lib.trim_space (lookup_or mode "" g.mode_to_provider) in
      if not (is_supported_mode mode)
      then err ("unsupported mode hint: " ++ mode)
      else if str_eq provider ""
      then err ("mode not configured: " ++ mode)
      else if not (known g provider)
      then err ("configured provider for mode is unavailable: " ++ mode)
      else ok provider

  -- The provider that is selected, or the message of the refusal with status 400.
  unfoldable pub choose_provider : Library → Gateway f → Request → String → Result String String
  unfolding choose_by_mode requested_provider_hint requested_mode_hint
  choose_provider lib g r model =
      let hinted_provider = requested_provider_hint lib r in
      let hinted_mode = requested_mode_hint lib r in
      if not (str_eq hinted_provider "")
      then (if known g hinted_provider
          then ok hinted_provider
          else err ("unknown provider hint: " ++ hinted_provider))
      else if not (str_eq hinted_mode "")
      then choose_by_mode lib g hinted_mode
      else ok (pick_provider f g.router model)

  -- The body and the model for the provider: rewritten where another model is compatible.
  unfoldable pub effective_request :
      Library → Gateway f → List ℕ → String → String → Result GoError (List ℕ × String)
  effective_request lib g body model provider =
      let compatible = compatible_model_for_provider f g.model_compatibility model provider in
      if not (str_eq compatible "") && not (str_eq compatible model)
      then and_then (rewrite_model_in_body lib body compatible)
          (λ rewritten. ok (rewritten, compatible))
      else ok (body, model)
