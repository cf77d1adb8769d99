-- ===== src/Proxy/Upstream.antt =====
-- internal/gateway/provider.go: the calls of a request's provider and of the fallback, through their
-- breakers and with their retries, as they change the gateway's state.
use costguard.Base.{
  ℕ, zero, suc, String, Bool, not, ◌&&◌, List, [], ◌++◌, str_eq, if◌then◌else◌, ok, err, map,
  replicate,
}
use costguard.Base.Float.{Float}
use costguard.Gateway.Errors.{GoError, is_retryable_provider_error}
use costguard.Gateway.Retry.{Reply, replied, errored, World, Run, call_with_retry}
use costguard.Gateway.Calls.{Report, Fallen, attempt, provider_retry_policy, call_through_breaker}
use costguard.Proxy.Types.{Library, Gateway, State, Environment}
use costguard.Proxy.Routing.{known, effective_request}

module _ (f : Float) (g : Gateway f) (env : Environment f) where
  -- The world that the retries of one provider see.
  abbrev pub world_of : String → List ℕ → World f
  world_of provider body = record env.world {
    do_call = λ n. (attempt f (known f g provider) provider (env.upstream provider body n)).0;
  }

  -- `callSingleProvider`
  unfoldable pub call_single_provider : String → List ℕ → Run f
  call_single_provider provider body =
      call_with_retry f (world_of provider body) (provider_retry_policy f g.retry_policies provider)
        provider

  -- What the attempts tell the health tracker, in the order of the attempts.
  unfoldable pub outcomes_of : String → List ℕ → ℕ → List (String × Report)
  outcomes_of provider body zero = []
  outcomes_of provider body (suc n) =
      outcomes_of provider body n
      ++ map (λ report. (provider, report))
          (attempt f (known f g provider) provider (env.upstream provider body n)).1

  -- The calls of `p.Do` that the attempts make: none where the provider is not registered.
  unfoldable pub calls_of : String → List ℕ → ℕ → List (String × List ℕ)
  calls_of provider body n = if known f g provider then replicate n (provider, body) else []

  -- The state behind the retries of a provider's call.
  abbrev pub after_call : String → List ℕ → State f → State f
  after_call provider body s = record s {
    asked = s.asked ++ calls_of provider body (call_single_provider provider body).calls;
    outcomes = s.outcomes ++ outcomes_of provider body (call_single_provider provider body).calls;
  }

  -- `callThroughBreaker`
  unfoldable pub call_provider : String → List ℕ → State f → Reply f × State f
  unfolding call_single_provider outcomes_of calls_of
  call_provider provider body s =
      let run = call_single_provider provider body in
      if not g.breakers
      then (run.answer, after_call provider body s)
      else (let (reply, called, breakers) =
            call_through_breaker f s.breakers env.others_breakers env.now env.later provider
              run.answer in
          let s' = record s { breakers = breakers } in
          (reply, if called then after_call provider body s' else s'))

  -- The fallback's part of `callProviderWithFallback`.
  unfoldable pub call_fallback : Library → List ℕ → String → State f → Fallen f × State f
  unfolding call_provider
  call_fallback lib body model s = elim (effective_request f lib g body model g.fallback) [
    | err e ↦ (record { answer = errored e; provider = g.fallback; model = model }, s)
    | ok (rewritten, fallback_model) ↦
        let (reply, s') = call_provider g.fallback rewritten s in
        (record { answer = reply; provider = g.fallback; model = fallback_model }, s')
  ]

  -- Whether an error of a provider goes on to the fallback.
  abbrev pub goes_on : String → GoError → Bool
  goes_on provider e =
      not (str_eq g.fallback "")
      && (not (str_eq provider g.fallback) && is_retryable_provider_error e)

  -- `callProviderWithFallback`
  unfoldable pub call_providers : Library → String → List ℕ → String → State f → Fallen f × State f
  unfolding call_provider call_fallback
  call_providers lib provider body model s =
      let (reply, s') = call_provider provider body s in
      let give_up : Fallen f = record { answer = reply; provider = provider; model = model } in
      elim reply [
        | replied resp ↦ (give_up, s')
        | errored e ↦ if goes_on provider e then call_fallback lib body model s' else (give_up, s')
      ]
