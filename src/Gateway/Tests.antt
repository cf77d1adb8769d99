-- ===== src/Gateway/Tests.antt =====
-- internal/gateway: the theorems at inputs that meet their hypotheses, and runs.
use costguard.Base.{
  ℕ, zero, suc, ◌*◌, ◌/◌, ◌<◌, ◌≡◌, inl, refl, true, false, String, [], ◌∷◌, none, some, runes, ℤ,
  pos, negsuc, arith, Dict,
}
use costguard.Base.Float.Scaled.{scaled, scale}
use costguard.Breaker.{Breaker, new, default_policy, allow, refresh, admit, open_}
use costguard.Breaker.Registry.{Registry, for_provider}
use costguard.Providers.{upstream_failure}
use costguard.Gateway.Errors.{
  GoError, plain_error, is_timeout_error, is_5xx_error, gateway_error_category,
}
use costguard.Gateway.Retry.{
  RetryPolicy, default_retry_policy, World, Reply, replied, errored, Response, absent,
  call_with_retry, has_reason, on_reply, attempts_from, exponential_backoff,
}
use costguard.Gateway.Retry.Loop.{again, settle, retries_until}
use costguard.Gateway.Calls.{call_through_breaker, call_provider_with_fallback}
use costguard.Gateway.Calls.Through.{fallback_model, refused_request_falls_back}

abbrev timed_out : GoError
timed_out = record {
  message = runes "context deadline exceeded";
  deadline_exceeded = true;
  net_error = some true;
  dns_error = false;
  upstream_status = none;
}

-- A client that goes away ends its request with this error, which counts as the provider's failure.
abbrev canceled : GoError
canceled = plain_error (runes "context canceled")

canceled_is_upstream_failure : gateway_error_category canceled ≡ upstream_failure
unfolding gateway_error_category is_timeout_error is_5xx_error
canceled_is_upstream_failure = refl

abbrev fine : Response scaled
fine = record { status_code = 200; retry_after = absent; content = 1 }

abbrev policy : RetryPolicy
policy = record default_retry_policy { max_attempts = 3; retry_on_timeout = true }

abbrev natural : ℤ → ℕ
natural (pos n) = n * scale
natural (negsuc n) = 0

abbrev calls_of : ℕ → Reply scaled
calls_of zero = errored timed_out
calls_of (suc n) = replied (some fine)

-- The first call times out, the second is answered; the random number is 1/2.
abbrev world : World scaled
world = record {
  to_float = natural;
  to_duration = λ c. pos (c / scale);
  random = λ n. scale / 2;
  do_call = calls_of;
  done = λ n. false;
  done_waiting = λ n. false;
  context_error = canceled;
}

waits_once : (call_with_retry scaled world policy "openai").waits ≡ pos 500_000_000 ∷ []
unfolding call_with_retry attempts_from on_reply has_reason is_timeout_error exponential_backoff
    default_retry_policy
waits_once = refl

retries_until_example :
    ((call_with_retry scaled world policy "openai").answer
      ≡ settle scaled world policy "openai" (replied (some fine)))
    × ((call_with_retry scaled world policy "openai").calls ≡ 2)
unfolding has_reason is_timeout_error
retries_until_example =
    retries_until scaled world policy "openai" 1 (omega arith) first_retried refl (inl refl)
  where
    first_retried :
        (i : ℕ)
        → i < 1
        → (world.done i ≡ false)
          × (again scaled world policy "openai" (calls_of i) ≡ true)
          × (world.done_waiting i ≡ false)
    first_retried zero h = (refl, refl, refl)
    first_retried (suc i) h = absurd (omega arith)

-- A breaker that has opened at 10.
abbrev tripped : Breaker
tripped = record (new default_policy) { state = open_; failures = 5; trip_time = 10 }

abbrev registry : Registry
registry = record {
  heap = tripped ∷ [];
  breakers = ("openai", 0) ∷ [];
  defaults = default_policy;
  overrides = [];
}

abbrev compatibility : Dict (Dict String)
compatibility = ("gpt-4o", ("google", "gemini-2.5-pro") ∷ []) ∷ []

refused_request_falls_back_example :
    let out = call_through_breaker scaled registry (λ r. r) 11 12 "openai" (replied (some fine)) in
    let m = fallback_model scaled compatibility "gpt-4o" "google" in
    (out.1 ≡ false)
    × (call_provider_with_fallback scaled compatibility "google" "openai" "gpt-4o" out.0
          (λ m. replied (some fine))
          (λ m. none)
        ≡ record { answer = replied (some fine); provider = "google"; model = m })
unfolding for_provider allow refresh admit new
refused_request_falls_back_example =
    refused_request_falls_back scaled registry (λ r. r) 11 12 compatibility "google" "openai"
      "gpt-4o" (replied (some fine)) (λ m. replied (some fine)) (λ m. none) tripped refl refl refl
      refl refl
