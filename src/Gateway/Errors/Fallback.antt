-- ===== src/Gateway/Errors/Fallback.antt =====
-- internal/gateway/provider.go: the errors that the fallback is for.
use costguard.Base.{
  ℕ, ◌≡◌, ◌⊎◌, inl, inr, refl, String, true, List, [], ◌∷◌, ◌++◌, take, drop, map, runes, starts,
  lower, any, arith, Bool-cases,
}
use costguard.Providers.{provider_unavailable}
use costguard.Gateway.Errors.{
  GoError, holds, says, says_lower, is_timeout_error, is_5xx_error, is_net_error,
  gateway_error_category, retryable_texts, is_retryable_provider_error, provider_timeout,
  upstream_status_error, circuit_breaker_open, provider_not_found,
}

starts-lower : (p s : List ℕ) → starts p s ≡ true → starts (map lower p) (map lower s) ≡ true
starts-lower [] s h = refl
starts-lower (c ∷ p) [] h = ground arith
starts-lower (c ∷ p) (d ∷ s) h = ground (arith, starts-lower p s)

starts-append_right : (p q s : List ℕ) → starts (p ++ q) s ≡ true → holds q s ≡ true
starts-append_right [] q [] h = h
starts-append_right [] q (d ∷ s) h = ground arith
starts-append_right (c ∷ p) q [] h = ground arith
starts-append_right (c ∷ p) q (d ∷ s) h = ground (arith, starts-append_right p q s)

holds-lower : (p s : List ℕ) → holds p s ≡ true → holds (map lower p) (map lower s) ≡ true
holds-lower p [] h = starts-lower p [] h
holds-lower p (c ∷ s) h = ground (arith, starts-lower p (c ∷ s), holds-lower p s)

holds-append_right : (p q s : List ℕ) → holds (p ++ q) s ≡ true → holds q s ≡ true
holds-append_right p q [] h = starts-append_right p q [] h
holds-append_right p q (c ∷ s) h =
    ground (arith, starts-append_right p q (c ∷ s), holds-append_right p q s)

says_timeout : (e : GoError) → says e "provider_timeout" ≡ true → says_lower e "timeout" ≡ true
says_timeout e h =
    holds-append_right (runes "provider_") (runes "timeout") (map lower e.message)
      (holds-lower (runes "provider_timeout") e.message h)

any_of :
    (e : GoError) (pre post : List String) (text : String)
    → says_lower e text ≡ true
    → any (λ t. says_lower e t) (pre ++ (text ∷ post)) ≡ true
any_of e [] post text h = ground arith
any_of e (t ∷ pre) post text h = ground (arith, any_of e pre post text h)

retryable_of_text :
    (e : GoError)
    → any (λ t. says_lower e t) retryable_texts ≡ true
    → is_retryable_provider_error e ≡ true
unfolding is_retryable_provider_error
retryable_of_text e h = ground arith

retryable_of_net : (e : GoError) → is_net_error e ≡ true → is_retryable_provider_error e ≡ true
unfolding is_retryable_provider_error
retryable_of_net e h = rw h refl

-- Why an error counts as an unavailable provider.
unavailable_reasons :
    (e : GoError)
    → (e.deadline_exceeded ≡ true → is_net_error e ≡ true)
    → gateway_error_category e ≡ provider_unavailable
    → (is_net_error e ≡ true)
      ⊎ ((says e "provider_timeout" ≡ true)
          ⊎ ((says_lower e "connection refused" ≡ true)
              ⊎ ((says_lower e "dial tcp" ≡ true) ⊎ (says_lower e "no such host" ≡ true))))
unfolding gateway_error_category is_timeout_error is_5xx_error
unavailable_reasons e deadline h = ground (
  arith,
  Bool-cases (says e "provider_timeout"),
  Bool-cases (says_lower e "connection refused"),
  Bool-cases (says_lower e "dial tcp"),
)

-- An error that counts as an unavailable provider is one that the fallback is tried for, if an
-- exceeded deadline is a `net.Error`, as the two of Go are.
pub unavailable_is_retryable :
    (e : GoError)
    → (e.deadline_exceeded ≡ true → is_net_error e ≡ true)
    → gateway_error_category e ≡ provider_unavailable
    → is_retryable_provider_error e ≡ true
unavailable_is_retryable e deadline h =
    let texts = retryable_texts in
    elim (unavailable_reasons e deadline h) [
      | inl net ↦ retryable_of_net e net
      | inr (inl text) ↦
          retryable_of_text e
            (any_of e (take 9 texts) (drop 10 texts) "timeout" (says_timeout e text))
      | inr (inr (inl text)) ↦
          retryable_of_text e (any_of e (take 6 texts) (drop 7 texts) "connection refused" text)
      | inr (inr (inr (inl text))) ↦
          retryable_of_text e (any_of e (take 3 texts) (drop 4 texts) "dial tcp" text)
      | inr (inr (inr (inr text))) ↦
          retryable_of_text e (any_of e (take 5 texts) (drop 6 texts) "no such host" text)
    ]

-- The errors that the gateway itself makes are errors that the fallback is tried for, whatever the
-- provider's name, status and cause: a timeout at the end of the retries, which also counts as an
-- unavailable provider, a status of the upstream from 500 on, an open breaker, and a provider that
-- is not registered.
pub gateway_errors_are_retryable :
    (provider : String) (status_code : ℕ) (e : GoError)
    → (gateway_error_category (provider_timeout provider e) ≡ provider_unavailable)
      × (is_retryable_provider_error (provider_timeout provider e) ≡ true)
      × (is_retryable_provider_error (upstream_status_error status_code provider) ≡ true)
      × (is_retryable_provider_error (circuit_breaker_open provider) ≡ true)
      × (is_retryable_provider_error (provider_not_found provider) ≡ true)
unfolding gateway_error_category is_timeout_error is_5xx_error provider_timeout
    upstream_status_error circuit_breaker_open provider_not_found
gateway_errors_are_retryable provider status_code e = (
  ground arith,
  retryable_of_text (provider_timeout provider e) (
      any_of (provider_timeout provider e) (take 9 retryable_texts) (drop 10 retryable_texts)
        "timeout" refl),
  retryable_of_text (upstream_status_error status_code provider) (
      any_of (upstream_status_error status_code provider) (take 2 retryable_texts)
        (drop 3 retryable_texts) "upstream_5xx" refl),
  retryable_of_text (circuit_breaker_open provider) (
      any_of (circuit_breaker_open provider) [] (drop 1 retryable_texts) "circuit_breaker_open"
        refl),
  retryable_of_text (provider_not_found provider) (
      any_of (provider_not_found provider) (take 1 retryable_texts) (drop 2 retryable_texts)
        "provider not found" refl),
)
