-- ===== src/Proxy.antt =====
-- internal/gateway/proxy.go, and `maybeStoreAndReturn` of provider.go: one request through the gateway.
pub mod Types
pub mod Setup
pub mod Routing
pub mod Admission
pub mod Responses
pub mod Usages
pub mod Upstream
pub mod Stages
pub mod Refusals
pub mod Metered
pub mod Stored
pub mod Attempts
pub mod Counts
pub mod Replay
pub mod Tests
use costguard.Base.{
  ℕ, String, Bool, true, false, not, ◌&&◌, ◌||◌, List, [], ◌∷◌, Option, none, some, str_eq,
  if◌then◌else◌, ltb, ◌==◌, Result, ok, err, runes,
}
use costguard.Base.Float.{Float}
use costguard.Cache.{Entry, get, set_entry}
use costguard.Providers.{Category, provider_unavailable}
use costguard.Gateway.Errors.{GoError, gateway_error_category}
use costguard.Gateway.Retry.{Response, replied, errored}
use costguard.Gateway.Calls.{Fallen, category_text}
use costguard.Proxy.Types.{
  Library, Request, Gateway, State, Environment, HttpResponse, unread, buffered, nil_body,
}
use costguard.Proxy.Routing.{
  requested_provider_hint, requested_mode_hint, extract_model, choose_provider, effective_request,
}
use costguard.Proxy.Admission.{check_budgets, budget_refusal}
use costguard.Proxy.Responses.{
  new_json_error_response, new_json_error_response_categorized, response_from_cache_entry,
  cache_entry_from_response, is_streaming_response, is_cacheable_request, build_cache_key,
}
use costguard.Proxy.Usages.{meter_failed_response, meter_response, passthrough_streaming}
use costguard.Proxy.Upstream.{call_providers}

-- The type that `gatewayErrorCategoryAndType` gives with a category.
abbrev pub error_type_of : Category → String
error_type_of provider_unavailable = "provider_unavailable_error"
error_type_of _ = "upstream_error"

module _ (f : Float) (lib : Library) (g : Gateway f) (env : Environment f) where
  -- What `Proxy` returns, and leaves.
  abbrev pub Outcome : Type 0
  Outcome = Result GoError (Option HttpResponse) × State f

  -- A 200 that is no stream, with the body that was read: metered, and stored if it may be.
  unfoldable pub store_and_return :
      Request → List ℕ → String → String → Bool → String → HttpResponse → List ℕ → State f → Outcome
  store_and_return r request_body provider model cacheable key resp body s =
      let s' =
        meter_response f g env lib r request_body provider model body false resp.status_code s in
      if not cacheable || (not g.has_cache || (g.cache_ttl == 0))
      then (ok (some (record resp { body = buffered body })), s')
      else (let entry =
            cache_entry_from_response lib resp.status_code resp.header body env.now g.cache_ttl in
          (
            ok (some (response_from_cache_entry lib entry)),
            record s' { cache = set_entry env.pick env.now s'.cache key entry },
          ))

  -- `maybeStoreAndReturn`
  unfoldable pub maybe_store_and_return :
      Request → List ℕ → Option (Response f) → String → String → Bool → String → State f → Outcome
  unfolding store_and_return
  maybe_store_and_return r request_body none provider model cacheable key s = (ok none, s)
  maybe_store_and_return r request_body (some resp) provider model cacheable key s =
      let payload = env.payload_of resp.content in
      let out : HttpResponse = record {
        status_code = resp.status_code;
        header = payload.header;
        body = unread resp.content;
      } in
      elim payload.body [
        | none ↦ (ok (some (record out { body = nil_body })), s)
        | some reading ↦
            if not (resp.status_code == 200)
            then (ok (some out), meter_failed_response f g env r provider model resp.status_code s)
            else if is_streaming_response payload.header
            then (
              ok (
                  some (
                    passthrough_streaming f g env lib provider model request_body out
                      resp.content)),
              s,
            )
            else elim reading [
              | err e ↦ (err e, s)
              | ok body ↦ store_and_return r request_body provider model cacheable key out body s
            ]
      ]

  -- The response to an error of the providers; an upstream's status is recorded.
  unfoldable pub provider_error : Request → String → String → GoError → State f → Outcome
  provider_error r provider model e s =
      let category = gateway_error_category e in
      (
        ok (
            some (
              new_json_error_response_categorized 502 e.message (error_type_of category)
                (category_text category))),
        elim e.upstream_status [
          | none ↦ s
          | some status ↦ meter_failed_response f g env r provider model status s
        ],
      )

  -- The end of `Proxy`: the providers are called.
  unfoldable pub ask_providers :
      Request → List ℕ → String → String → Bool → String → State f → Outcome
  unfolding provider_error maybe_store_and_return
  ask_providers r body model provider cacheable key s =
      let (fallen, s') = call_providers f g env lib provider body model s in
      elim fallen.answer [
        | errored e ↦ provider_error r fallen.provider fallen.model e s'
        | replied resp ↦
            maybe_store_and_return r body resp fallen.provider fallen.model cacheable key s'
      ]

  -- The key of a request for the cache, and whether the cache is asked.
  abbrev pub key_of : Request → List ℕ → String → String → String
  key_of r body model provider =
      build_cache_key lib r body (requested_provider_hint lib r) (requested_mode_hint lib r)
        provider model

  abbrev pub uses_cache : Request → List ℕ → Bool
  uses_cache r body = is_cacheable_request lib r body && (g.has_cache && ltb 0 g.cache_ttl)

  -- The part of `Proxy` behind the budget checks.
  unfoldable pub serve : Request → List ℕ → String → String → State f → Outcome
  unfolding ask_providers
  serve r body model provider s =
      if not (uses_cache r body)
      then ask_providers r body model provider (is_cacheable_request lib r body) "" s
      else (let key = key_of r body model provider in
          let (found, cache) = get env.others_cache s.cache key env.now in
          let s' = record s { cache = cache } in
          elim found [
            | some entry ↦ (
              ok (some (response_from_cache_entry lib entry)),
              meter_response f g env lib r body provider model entry.body true 200 s',
            )
            | none ↦ ask_providers r body model provider true key s'
          ])

  -- The budget checks, and what follows them.
  unfoldable pub admit : Request → List ℕ → String → String → State f → Outcome
  unfolding serve
  admit r body model provider s =
      let (refused, alerts) = check_budgets f g env r s.alerts in
      let s' = record s { alerts = alerts } in
      elim refused [ some e ↦ (budget_refusal e, s') | none ↦ serve r body model provider s' ]

  -- A request behind the choice of its provider.
  unfoldable pub send_to : Request → List ℕ → String → String → State f → Outcome
  unfolding admit
  send_to r body model provider s = elim (effective_request f lib g body model provider) [
    | err e ↦ (err e, s)
    | ok (effective_body, effective_model) ↦ admit r effective_body effective_model provider s
  ]

  -- A request whose body has been read.
  unfoldable pub route : Request → List ℕ → State f → Outcome
  unfolding send_to
  route r body s =
      let model = extract_model lib body in
      elim (choose_provider f lib g r model) [
        | err message ↦ (ok (some (new_json_error_response 400 (runes message))), s)
        | ok provider ↦ send_to r body model provider s
      ]

  unfoldable pub proxy : Request → State f → Outcome
  unfolding route
  proxy r s = elim r.body [ err e ↦ (err e, s) | ok body ↦ route r body s ]
