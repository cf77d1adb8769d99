-- ===== src/Proxy/Attempts.antt =====
-- internal/gateway/provider.go: how often the provider and the fallback are called, retries included.
use mathlib.Core.List.{append_assoc, append-nil}
use costguard.Base.{
  ℕ, ◌≡◌, ◌≤◌, refl, sym, ◌∙◌, String, List, [], ◌++◌, arith, Option-cases, Result-cases,
  Bool-cases, inl, inr, ◌⊎◌, length, ◌==◌, All, none, some, if◌then◌else◌, lookup, length-replicate,
  All-replicate,
}
use costguard.Base.Float.{Float}
use costguard.Gateway.Retry.{default_retry_policy}
use costguard.Gateway.Retry.Loop.{calls_bounded}
use costguard.Gateway.Calls.{provider_retry_policy}
use costguard.Proxy.Routing.{known, effective_request}
use costguard.Proxy.Types.{Library, Gateway, State, Environment}
use costguard.Proxy.Upstream.{
  world_of, call_single_provider, calls_of, call_provider, call_fallback,
}

module _ (f : Float) (lib : Library) (g : Gateway f) (env : Environment f) where
  -- How often a provider may be called for a request: as often as its policy says, at least once, and
  -- once if it has none.
  abbrev pub max_calls : String → ℕ
  max_calls provider = elim (lookup provider g.retry_policies) [
    | none ↦ 1
    | some policy ↦ if policy.max_attempts == 0 then 1 else policy.max_attempts
  ]

  -- Calls of one provider, no more than it allows.
  abbrev pub CallsOf : String → List (String × List ℕ) → Type 0
  CallsOf provider calls = (length calls ≤ max_calls provider) × All (λ c. c.0 ≡ provider) calls

  CallsOf-none : (provider : String) → CallsOf provider []
  CallsOf-none provider = (omega arith, tt)

  calls-le-max_calls :
      (provider : String) (body : List ℕ)
      → (call_single_provider f g env provider body).calls ≤ max_calls provider
  unfolding call_single_provider provider_retry_policy default_retry_policy
  calls-le-max_calls provider body =
      let few =
        calls_bounded f (world_of f g env provider body)
          (provider_retry_policy f g.retry_policies provider) provider in
      elim (Option-cases (lookup provider g.retry_policies)) [
        | inl e ↦ ground arith
        | inr (policy, e) ↦ ground arith
      ]

  CallsOf-calls_of :
      (provider : String) (body : List ℕ)
      → CallsOf provider
          (calls_of f g env provider body (call_single_provider f g env provider body).calls)
  unfolding calls_of
  CallsOf-calls_of provider body = elim (Bool-cases (known f g provider)) [
    | inl e ↦
        let n = (call_single_provider f g env provider body).calls in
        let call : String × List ℕ = (provider, body) in
        rw e (
          omega (arith, length-replicate n call, calls-le-max_calls provider body),
          All-replicate (λ (c : String × List ℕ). c.0 ≡ provider) n call refl,
        )
    | inr e ↦ rw e (CallsOf-none provider)
  ]

  -- A call reaches the provider, with its retries, or its breaker refuses it.
  call_provider-cases :
      (provider : String) (body : List ℕ) (s : State f)
      → let s' = (call_provider f g env provider body s).1 in
        let calls =
          calls_of f g env provider body (call_single_provider f g env provider body).calls in
        (s'.asked ≡ s.asked) ⊎ (s'.asked ≡ s.asked ++ calls)
  unfolding call_provider
  call_provider-cases provider body s = ground arith

  -- What was asked of a provider in between.
  abbrev pub Asks : String → List (String × List ℕ) → List (String × List ℕ) → Type 0
  Asks provider before after =
      (calls : List (String × List ℕ)) × (after ≡ before ++ calls) × CallsOf provider calls

  pub Asks-same : (provider : String) (a b : List (String × List ℕ)) → b ≡ a → Asks provider a b
  Asks-same provider a b e = ([], e ∙ sym (append-nil a), CallsOf-none provider)

  pub call_provider-asked :
      (provider : String) (body : List ℕ) (s : State f)
      → Asks provider s.asked (call_provider f g env provider body s).1.asked
  call_provider-asked provider body s = elim (call_provider-cases provider body s) [
    | inl e ↦ Asks-same provider s.asked _ e
    | inr e ↦ (_, e, CallsOf-calls_of provider body)
  ]

  pub call_fallback-asked :
      (body : List ℕ) (model : String) (s : State f)
      → Asks g.fallback s.asked (call_fallback f g env lib body model s).1.asked
  unfolding call_fallback
  call_fallback-asked body model s =
      elim (Result-cases (effective_request f lib g body model g.fallback)) [
        | inl (e, q) ↦ rw (q, call_fallback) (Asks-same g.fallback s.asked s.asked refl)
        | inr ((body', model'), q) ↦ rw (q, call_fallback) (call_provider-asked g.fallback body' s)
      ]

  -- What a request has asked: its provider, then the fallback, each as often as it allows at most.
  abbrev pub AsksInTurn : String → List (String × List ℕ) → List (String × List ℕ) → Type 0
  AsksInTurn provider before after =
      (first : List (String × List ℕ)) × (second : List (String × List ℕ)) × (after
        ≡ before ++ (first ++ second))
      × CallsOf provider first
      × CallsOf g.fallback second

  pub joined :
      (provider : String) (a b c : List (String × List ℕ))
      → Asks provider a b
      → Asks g.fallback b c
      → AsksInTurn provider a c
  joined provider a b c (first, e, h) (second, q, k) =
      (first, second, rw (q, e) (append_assoc a first second), h, k)

  pub asked_none :
      (provider : String) (a b : List (String × List ℕ)) → b ≡ a → AsksInTurn provider a b
  asked_none provider a b e =
      joined provider a a b (Asks-same provider a a refl) (Asks-same g.fallback a b e)
