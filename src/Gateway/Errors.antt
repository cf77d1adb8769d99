-- ===== src/Gateway/Errors.antt =====
-- internal/gateway/provider.go and retry.go: how the gateway classifies an error. Of a Go error
-- the program reads the text, and what `errors.Is` and `errors.As` find in its chain.
pub mod Fallback
use costguard.Base.{
  ℕ, zero, suc, ◌+◌, ◌/◌, ◌%◌, ◌==◌, ◌≡◌, ◌⊎◌, inl, inr, refl, String, Bool, true, false, not, ◌&&◌,
  ◌||◌, List, [], ◌∷◌, ◌++◌, Option, none, some, map, runes, starts, lower, any, arith,
  if◌then◌else◌, Option-cases, Bool-cases,
}
use costguard.Providers.{Category, provider_unavailable, upstream_failure}

-- `net_error` is the `net.Error` of the chain, with its `Timeout()`, and `upstream_status` the code of
-- its `*upstreamStatusError`.
pub record GoError : Type 0 where
  pub message : List ℕ
  pub deadline_exceeded : Bool
  pub net_error : Option Bool
  pub dns_error : Bool
  pub upstream_status : Option ℕ

-- `strings.Contains(s, p)`, on code points.
abbrev pub holds : List ℕ → List ℕ → Bool
holds p [] = starts p []
holds p (c ∷ s) = starts p (c ∷ s) || holds p s

abbrev pub says : GoError → String → Bool
says e text = holds (runes text) e.message

abbrev pub says_lower : GoError → String → Bool
says_lower e text = holds (runes text) (map lower e.message)

unfoldable pub is_timeout_error : GoError → Bool
is_timeout_error e =
    e.deadline_exceeded || elim e.net_error [ none ↦ false | some timeout ↦ timeout ]

unfoldable pub is_5xx_error : GoError → Bool
is_5xx_error e = says e "upstream_5xx"

abbrev pub is_net_error : GoError → Bool
is_net_error e = elim e.net_error [ none ↦ false | some timeout ↦ true ]

-- The category of `gatewayErrorCategoryAndType`; the text of the type goes with it in each case.
unfoldable pub gateway_error_category : GoError → Category
unfolding is_timeout_error is_5xx_error
gateway_error_category e =
    if is_timeout_error e || says e "provider_timeout"
    then provider_unavailable
    else if is_5xx_error e
    then upstream_failure
    else if is_net_error e
    then provider_unavailable
    else if says_lower e "connection refused"
        || (says_lower e "dial tcp" || says_lower e "no such host")
    then provider_unavailable
    else upstream_failure

-- The texts that `isRetryableProviderError` looks for.
abbrev pub retryable_texts : List String
retryable_texts =
    "circuit_breaker_open" ∷ "provider not found" ∷ "upstream_5xx" ∷ "dial tcp" ∷ "lookup "
    ∷ "no such host" ∷ "connection refused" ∷ "i/o timeout" ∷ "context deadline exceeded"
    ∷ "timeout" ∷ "tls handshake timeout" ∷ "server misbehaving" ∷ []

unfoldable pub is_retryable_provider_error : GoError → Bool
is_retryable_provider_error e =
    if is_net_error e
    then true
    else if e.dns_error
    then true
    else any (λ text. says_lower e text) retryable_texts

-- `%d`, of a number of at most twenty digits.
abbrev pub digits : ℕ → ℕ → List ℕ → List ℕ
digits zero n acc = acc
digits (suc k) n acc =
    let rest = digits k (n / 10) ((48 + n % 10) ∷ acc) in
    if n / 10 == 0 then (48 + n % 10) ∷ acc else rest

abbrev pub plain_error : List ℕ → GoError
plain_error message = record {
  message = message;
  deadline_exceeded = false;
  net_error = none;
  dns_error = false;
  upstream_status = none;
}

-- `(*upstreamStatusError).Error`
unfoldable pub upstream_status_error : ℕ → String → GoError
upstream_status_error status_code provider =
    let message =
      runes "upstream_5xx status="
      ++ (digits 20 status_code [] ++ (runes " provider=" ++ runes provider)) in
    record (plain_error message) { upstream_status = some status_code }

-- `fmt.Errorf("circuit_breaker_open provider=%s", providerName)`
unfoldable pub circuit_breaker_open : String → GoError
circuit_breaker_open provider =
    plain_error (runes "circuit_breaker_open provider=" ++ runes provider)

-- `fmt.Errorf("provider not found: %s", name)`
unfoldable pub provider_not_found : String → GoError
provider_not_found name = plain_error (runes "provider not found: " ++ runes name)

-- `fmt.Errorf("provider_timeout provider=%s: %w", providerName, err)`, which keeps the chain.
unfoldable pub provider_timeout : String → GoError → GoError
provider_timeout provider e = record e {
  message = runes "provider_timeout provider=" ++ (runes provider ++ (runes ": " ++ e.message));
}
