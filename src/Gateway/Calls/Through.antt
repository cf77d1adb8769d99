-- ===== src/Gateway/Calls/Through.antt =====
-- internal/gateway/provider.go: what the breaker refuses goes to the fallback.
use costguard.Base.{
  ℕ, ◌≡◌, ap, ◌∙◌, String, true, false, Option, none, some, str_eq, Dict, arith, if◌then◌else◌,
  eq_iff,
}
use costguard.Base.Float.{Float}
use costguard.Breaker.{Breaker, allow}
use costguard.Breaker.Registry.{Registry, for_provider, at}
use costguard.Gateway.Errors.{GoError, is_retryable_provider_error, circuit_breaker_open}
use costguard.Gateway.Errors.Fallback.{gateway_errors_are_retryable}
use costguard.Gateway.Retry.{Reply, errored}
use costguard.Gateway.Calls.{
  call_through_breaker, compatible_model_for_provider, call_provider_with_fallback,
}

module _ (f : Float) where
  refused :
      (r : Registry) (others : Registry → Registry) (now later : ℕ) (provider : String)
      (reply : Reply f) (b : Breaker)
      → at (for_provider r provider).1 (for_provider r provider).0 ≡ some b
      → (allow b now).0.0 ≡ false
      → let out = call_through_breaker f r others now later provider reply in
        (out.0 ≡ errored (circuit_breaker_open provider)) × (out.1 ≡ false)
  unfolding call_through_breaker
  refused r others now later provider reply b found refuses = ground arith

  -- The model that the fallback is asked for.
  abbrev pub fallback_model : Dict (Dict String) → String → String → String
  fallback_model compatibility model fallback =
      let compatible = compatible_model_for_provider f compatibility model fallback in
      if str_eq compatible "" then model else compatible

  falls_back :
      (compatibility : Dict (Dict String)) (fallback provider model : String) (e : GoError)
      (call_fallback : String → Reply f) (rewrite_error : String → Option GoError)
      → str_eq fallback "" ≡ false
      → str_eq provider fallback ≡ false
      → is_retryable_provider_error e ≡ true
      → rewrite_error (fallback_model compatibility model fallback) ≡ none
      → let m = fallback_model compatibility model fallback in
        call_provider_with_fallback f compatibility fallback provider model
          (errored e)
          call_fallback
          rewrite_error
        ≡ record { answer = call_fallback m; provider = fallback; model = m }
  unfolding call_provider_with_fallback
  falls_back compatibility fallback provider model e call_fallback rewrite_error a b c d =
      let compatible = compatible_model_for_provider f compatibility model fallback in
      ground (arith, eq_iff compatible model, eq_iff compatible "")

  -- A request whose provider's breaker refuses is not sent to that provider, and gets what the
  -- fallback answers to the model that is compatible there, or to its own if none is, whatever
  -- others do meanwhile, if the fallback is another provider and the body can be rewritten.
  pub refused_request_falls_back :
      (r : Registry) (others : Registry → Registry) (now later : ℕ)
      (compatibility : Dict (Dict String)) (fallback provider model : String) (reply : Reply f)
      (call_fallback : String → Reply f) (rewrite_error : String → Option GoError) (b : Breaker)
      → at (for_provider r provider).1 (for_provider r provider).0 ≡ some b
      → (allow b now).0.0 ≡ false
      → str_eq fallback "" ≡ false
      → str_eq provider fallback ≡ false
      → rewrite_error (fallback_model compatibility model fallback) ≡ none
      → let out = call_through_breaker f r others now later provider reply in
        let m = fallback_model compatibility model fallback in
        (out.1 ≡ false)
        × (call_provider_with_fallback f compatibility fallback provider model out.0 call_fallback
              rewrite_error
            ≡ record { answer = call_fallback m; provider = fallback; model = m })
  refused_request_falls_back r others now later compatibility fallback provider model reply
        call_fallback rewrite_error b found refuses some_fallback other rewritten =
      let (answer, uncalled) = refused r others now later provider reply b found refuses in
      let texts = gateway_errors_are_retryable provider 0 (circuit_breaker_open provider) in
      (
        uncalled,
        ap
              (λ a.
                call_provider_with_fallback f compatibility fallback provider model a call_fallback
                  rewrite_error)
              answer
            ∙ falls_back compatibility fallback provider model (circuit_breaker_open provider)
                call_fallback rewrite_error some_fallback other texts.3 rewritten,
      )
