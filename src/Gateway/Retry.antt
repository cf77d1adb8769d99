-- ===== src/Gateway/Retry.antt =====
-- internal/gateway/retry.go: retries of a provider's call. What the calls answer, and when the
-- request's context ends, is the environment; the loop counts the attempts that are left.
pub mod Loop
use costguard.Base.{
  ℕ, zero, suc, ◌+◌, ◌-◌, ◌^◌, ◌==◌, ◌≡◌, refl, String, Bool, true, false, not, ◌&&◌, ◌||◌, List,
  [], ◌∷◌, Option, none, some, if◌then◌else◌, ℤ, pos, negsuc, int_lt, int_add,
}
use costguard.Base.Float.{Float}
use costguard.Gateway.Errors.{GoError, is_timeout_error, is_5xx_error, provider_timeout}

pub record RetryPolicy : Type 0 where
  pub max_attempts : ℕ
  pub retry_on_5xx : Bool
  pub retry_on_timeout : Bool
  pub initial_backoff : ℤ
  pub max_backoff : ℤ

unfoldable pub default_retry_policy : RetryPolicy
default_retry_policy = record {
  max_attempts = 1;
  retry_on_5xx = false;
  retry_on_timeout = false;
  initial_backoff = pos 500_000_000;
  max_backoff = pos 10_000_000_000;
}

-- A response's header Retry-After, as `strconv.ParseFloat` or `http.ParseTime` reads it: a date by
-- the nanoseconds until then.
pub data RetryAfter (C : Type 0) : Type 0 where
  absent : RetryAfter C
  decimal : C → RetryAfter C
  until : ℤ → RetryAfter C

abbrev is_positive : ℤ → Bool
is_positive d = int_lt (pos 0) d

module _ (f : Float) where
  open f use {Carrier, of_nat, dec, mul, sub, div}

  pub record Response : Type 0 where
    pub status_code : ℕ
    pub retry_after : RetryAfter Carrier
    pub content : ℕ

  -- The response may be nil.
  pub data Reply : Type 0 where
    replied : Option Response → Reply
    errored : GoError → Reply

  -- The conversions between durations and floats, the random numbers, the calls of the provider by
  -- the number of the attempt, and the end of the context: before an attempt, or in the wait
  -- behind it.
  pub record World : Type 0 where
    pub to_float : ℤ → Carrier
    pub to_duration : Carrier → ℤ
    pub random : ℕ → Carrier
    pub do_call : ℕ → Reply
    pub done : ℕ → Bool
    pub done_waiting : ℕ → Bool
    pub context_error : GoError

  abbrev pub too_many_requests : Option Response → Bool
  too_many_requests none = false
  too_many_requests (some resp) = resp.status_code == 429

  -- What `callWithRetry` returns, how often it has called, and how long it has waited in between.
  pub record Run : Type 0 where
    pub answer : Reply
    pub calls : ℕ
    pub waits : List ℤ

  abbrev pub ends : Reply → ℕ → Run
  ends answer calls = record { answer = answer; calls = calls; waits = [] }

  module _ (world : World) (policy : RetryPolicy) (provider : String) where
    open world use {to_float, to_duration, random, do_call, done, done_waiting, context_error}

    unfoldable pub exponential_backoff : ℕ → ℤ
    exponential_backoff attempt =
        let grown = to_duration (mul (to_float policy.initial_backoff) (of_nat (2 ^ attempt))) in
        let d = if int_lt policy.max_backoff grown then policy.max_backoff else grown in
        let jitter = mul (to_float d) (dec 1 1) in
        let shaken =
          int_add d (to_duration (mul (sub (mul (random attempt) (of_nat 2)) (of_nat 1)) jitter)) in
        if int_lt shaken (pos 0) then pos 0 else shaken

    unfoldable pub parse_retry_after_seconds : Option Response → Option Carrier
    parse_retry_after_seconds none = none
    parse_retry_after_seconds (some resp) = elim resp.retry_after [
      | absent ↦ none
      | decimal secs ↦ some secs
      | until d ↦
          if not (is_positive d)
          then some (of_nat 0)
          else some (div (to_float d) (of_nat 1_000_000_000))
    ]

    -- The wait behind a response 429.
    unfoldable pub wait_for : Option Response → ℕ → ℤ
    unfolding exponential_backoff parse_retry_after_seconds
    wait_for resp attempt = elim (parse_retry_after_seconds resp) [
      | none ↦ exponential_backoff attempt
      | some secs ↦
          let d = to_duration (mul secs (of_nat 1_000_000_000)) in
          let cap = int_add policy.max_backoff (int_add policy.max_backoff policy.max_backoff) in
          if int_lt cap d then cap else d
    ]

    -- Whether the reason of an error is not empty.
    unfoldable pub has_reason : GoError → Bool
    has_reason e =
        (is_timeout_error e && policy.retry_on_timeout) || (is_5xx_error e && policy.retry_on_5xx)

    -- The end of the function: an error that is a timeout is wrapped.
    unfoldable pub conclude : Option GoError → Reply
    conclude none = replied none
    conclude (some e) = errored (if is_timeout_error e then provider_timeout provider e else e)

    -- The wait behind an attempt, and the rest of the loop.
    abbrev pub wait_then : ℕ → ℤ → Run → Run
    wait_then attempt d rest =
        if done_waiting attempt
        then record { answer = errored context_error; calls = 1; waits = d ∷ [] }
        else record { answer = rest.answer; calls = suc rest.calls; waits = d ∷ rest.waits }

    -- What an attempt does with its reply: `left` attempts are left, and `rest` is the loop's rest,
    -- of `lastErr`.
    unfoldable pub on_reply : ℕ → ℕ → Option GoError → (Option GoError → Run) → Reply → Run
    unfolding has_reason conclude wait_for exponential_backoff
    on_reply left attempt last_err rest (replied resp) =
        if too_many_requests resp && not (left == 0)
        then wait_then attempt (wait_for resp attempt) (rest last_err)
        else ends (replied resp) 1
    on_reply left attempt last_err rest (errored e) =
        if has_reason e && not (left == 0)
        then wait_then attempt (exponential_backoff attempt) (rest (some e))
        else ends (conclude (some e)) 1

    -- The loop, with the attempts that are left, the number of the next, and `lastErr`.
    unfoldable pub attempts_from : ℕ → ℕ → Option GoError → Run
    unfolding conclude on_reply
    attempts_from zero attempt last_err = ends (conclude last_err) 0
    attempts_from (suc left) attempt last_err =
        if done attempt
        then ends (errored context_error) 0
        else on_reply left attempt last_err (attempts_from left (suc attempt)) (do_call attempt)

    unfoldable pub call_with_retry : Run
    unfolding attempts_from
    call_with_retry =
        attempts_from (if policy.max_attempts == 0 then 1 else policy.max_attempts) 0 none
