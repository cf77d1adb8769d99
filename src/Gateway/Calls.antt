-- ===== src/Gateway/Calls.antt =====
-- internal/gateway/provider.go: one call of a provider with its retries, through the circuit
-- breaker, and on to the fallback. What the upstream answers is the environment.
pub mod Through
use costguard.Base.{
  ℕ, zero, suc, ◌+◌, ◌≤◌, String, Bool, true, false, not, ◌&&◌, ◌||◌, List, [], ◌∷◌, ◌++◌, Option,
  none, some, str_eq, leb, Dict, lookup, lookup_or, if◌then◌else◌,
}
use costguard.Base.Float.{Float}
use costguard.Breaker.{State, allow, record_success, record_failure}
use costguard.Breaker.Registry.{Registry, for_provider, at, write}
use costguard.Providers.{
  Category, auth, invalid_request, rate_limit, provider_unavailable, upstream_failure,
  error_category,
}
use costguard.Gateway.Errors.{
  GoError, gateway_error_category, is_retryable_provider_error, upstream_status_error,
  circuit_breaker_open, provider_not_found,
}
use costguard.Gateway.Retry.{
  Reply, replied, errored, Response, RetryPolicy, default_retry_policy, World, Run, call_with_retry,
}

-- The words of the constants `ErrCategory…`.
abbrev pub category_text : Category → String
category_text auth = "auth"
category_text invalid_request = "invalid_request"
category_text rate_limit = "rate_limit"
category_text provider_unavailable = "provider_unavailable"
category_text upstream_failure = "upstream_failure"

-- What an attempt reports to the health tracker, without latency and time: no category is a
-- success.
abbrev pub Report : Type 0
Report = Option Category

module _ (f : Float) where
  -- What `p.Do` answers: an error, a nil response or one with a nil body, one whose body cannot be
  -- read or normalised, or one that `NormalizeError` gives a body `content`.
  pub data Upstream : Type 0 where
    not_answered : GoError → Upstream
    bodiless : Option (Response f) → Upstream
    unreadable : Response f → GoError → Upstream
    answered : Response f → Upstream

  -- The closure that `callSingleProvider` gives to the retries, with what it reports.
  unfoldable pub attempt : Bool → String → Upstream → Reply f × List Report
  attempt false provider up = (errored (provider_not_found provider), [])
  attempt true provider (not_answered e) = (errored e, some provider_unavailable ∷ [])
  attempt true provider (bodiless resp) = (replied resp, none ∷ [])
  attempt true provider (unreadable resp e) =
      if leb 400 resp.status_code
      then (errored e, some upstream_failure ∷ [])
      else (replied (some resp), none ∷ [])
  attempt true provider (answered resp) =
      if not (leb 400 resp.status_code)
      then (replied (some resp), none ∷ [])
      else if leb 500 resp.status_code
      then (errored (upstream_status_error resp.status_code provider), some upstream_failure ∷ [])
      else (replied (some resp), some (error_category "" resp.status_code) ∷ [])

  unfoldable pub provider_retry_policy : Dict RetryPolicy → String → RetryPolicy
  provider_retry_policy policies provider = lookup_or provider default_retry_policy policies

  -- The end of `callThroughBreaker`: what is recorded of a reply.
  abbrev pub record_reply : Registry → ℕ → ℕ → Reply f → Registry
  record_reply r address now (replied resp) = elim (at r address) [
    | none ↦ r
    | some b ↦ write r address (record_success b)
  ]
  record_reply r address now (errored e) = elim (at r address) [
    | none ↦ r
    | some b ↦ write r address (record_failure b (category_text (gateway_error_category e)) now)
  ]

  -- `callThroughBreaker`, at `now`, with a call of the provider that takes until `later`, in which
  -- the registry becomes `others` of it, and has the reply `reply`. The second result tells whether
  -- the provider was called.
  unfoldable pub call_through_breaker :
      Registry → (Registry → Registry) → ℕ → ℕ → String → Reply f → Reply f × Bool × Registry
  call_through_breaker r others now later provider reply =
      let (address, r1) = for_provider r provider in
      elim (at r1 address) [
        | none ↦ (reply, true, r1)
        | some b ↦
            let ((allowed, state), b') = allow b now in
            let r2 = write r1 address b' in
            if not allowed
            then (errored (circuit_breaker_open provider), false, r2)
            else (let (address', r3) = for_provider (others r2) provider in
                (reply, true, record_reply r3 address' later reply))
      ]

  pub record Fallen : Type 0 where
    pub answer : Reply f
    pub provider : String
    pub model : String

  -- `compatibleModelForProvider`
  unfoldable pub compatible_model_for_provider : Dict (Dict String) → String → String → String
  compatible_model_for_provider compatibility model provider =
      if str_eq model "" || str_eq provider "" then "" else elim (lookup model compatibility) [
        | none ↦ ""
        | some per_provider ↦ lookup_or provider "" per_provider
      ]

  -- `callProviderWithFallback`, by the calls of the two providers; that of the fallback is given
  -- the model that it is asked for, or the error of rewriting the request's body.
  unfoldable pub call_provider_with_fallback :
      Dict (Dict String)
      → String
      → String
      → String
      → Reply f
      → (String → Reply f)
      → (String → Option GoError)
      → Fallen
  unfolding compatible_model_for_provider
  call_provider_with_fallback compatibility fallback provider model first call_fallback
        rewrite_error =
      let give_up : Fallen = record { answer = first; provider = provider; model = model } in
      elim first [
        | replied resp ↦ give_up
        | errored e ↦
            let compatible = compatible_model_for_provider compatibility model fallback in
            if str_eq fallback ""
              || (str_eq provider fallback || not (is_retryable_provider_error e))
            then give_up
            else if not (str_eq compatible "") && not (str_eq compatible model)
            then elim (rewrite_error compatible) [
              | some e' ↦ record { answer = errored e'; provider = fallback; model = model }
              | none ↦ record {
                answer = call_fallback compatible;
                provider = fallback;
                model = compatible;
              }
            ]
            else record { answer = call_fallback model; provider = fallback; model = model }
      ]
