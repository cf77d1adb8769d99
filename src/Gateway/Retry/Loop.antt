-- ===== src/Gateway/Retry/Loop.antt =====
-- internal/gateway/retry.go: how the loop ends.
use costguard.Base.{
  ℕ, zero, suc, ◌+◌, ◌<◌, ◌≤◌, ◌==◌, ◌≡◌, ◌⊎◌, inl, inr, refl, ap, ◌∙◌, String, Bool, true, false,
  Option, none, some, if◌then◌else◌, arith,
}
use costguard.Base.Float.{Float}
use costguard.Gateway.Errors.{GoError}
use costguard.Gateway.Retry.{
  RetryPolicy, World, Reply, replied, errored, Run, ends, has_reason, too_many_requests, conclude,
  on_reply, attempts_from, call_with_retry,
}

module _ (f : Float) (world : World f) (policy : RetryPolicy) (provider : String) where
  -- The attempts that a policy allows: 0 counts as 1.
  abbrev pub allowed : ℕ
  allowed = if policy.max_attempts == 0 then 1 else policy.max_attempts

  -- A reply after which the loop tries again, if it may.
  abbrev pub again : Reply f → Bool
  again (replied resp) = too_many_requests f resp
  again (errored e) = has_reason f world policy provider e

  -- What the function makes of the reply that ends the loop.
  abbrev pub settle : Reply f → Reply f
  settle (replied resp) = replied resp
  settle (errored e) = conclude f world policy provider (some e)

  -- One more call and wait than `r` has.
  abbrev OneMore : Run f → Run f → Type 0
  OneMore r r' = (r'.answer ≡ r.answer) × (r'.calls ≡ suc r.calls)

  on_reply-calls :
      (left attempt n : ℕ) (last : Option GoError) (rest : Option GoError → Run f) (r : Reply f)
      → ((l : Option GoError) → (rest l).calls ≤ n)
      → (on_reply f world policy provider left attempt last rest r).calls ≤ suc n
  unfolding on_reply
  on_reply-calls left attempt n last rest (replied resp) h = ground (arith, h last)
  on_reply-calls left attempt n last rest (errored e) h = ground (arith, h (some e))

  calls-attempts_from :
      (left attempt : ℕ) (last : Option GoError)
      → (attempts_from f world policy provider left attempt last).calls ≤ left
  unfolding attempts_from
  calls-attempts_from zero attempt last = omega arith
  calls-attempts_from (suc left) attempt last = ground (
    arith,
    on_reply-calls left attempt left last (attempts_from f world policy provider left (suc attempt))
        (world.do_call attempt) (calls-attempts_from left (suc attempt)),
  )

  -- Whatever the provider answers and whenever the context ends, the provider is called at most as
  -- often as the policy allows, and at most once for a maximum of 0.
  pub calls_bounded : (call_with_retry f world policy provider).calls ≤ allowed
  unfolding call_with_retry
  calls_bounded = calls-attempts_from allowed 0 none

  on_reply-settle :
      (left attempt : ℕ) (last : Option GoError) (rest : Option GoError → Run f) (r : Reply f)
      → (again r ≡ false) ⊎ (left ≡ 0)
      → on_reply f world policy provider left attempt last rest r ≡ ends f (settle r) 1
  unfolding on_reply
  on_reply-settle left attempt last rest (replied resp) h = ground arith
  on_reply-settle left attempt last rest (errored e) h = ground arith

  on_reply-again :
      (left attempt : ℕ) (last : Option GoError) (rest : Option GoError → Run f) (r : Reply f)
      → again r ≡ true
      → world.done_waiting attempt ≡ false
      → (l : Option GoError) × OneMore
          (rest l)
          (on_reply f world policy provider (suc left) attempt last rest r)
  unfolding on_reply
  on_reply-again left attempt last rest (replied resp) h w = (last, ground arith)
  on_reply-again left attempt last rest (errored e) h w = (some e, ground arith)

  -- What holds of an attempt that is not the last: it is made, its reply asks for another, and the
  -- context outlives the wait.
  abbrev pub Retried : ℕ → Type 0
  Retried i =
      (world.done i ≡ false) × (again (world.do_call i) ≡ true) × (world.done_waiting i ≡ false)

  settled :
      (left attempt : ℕ) (last : Option GoError)
      → world.done attempt ≡ false
      → (again (world.do_call attempt) ≡ false) ⊎ (left ≡ 0)
      → attempts_from f world policy provider (suc left) attempt last
        ≡ ends f (settle (world.do_call attempt)) 1
  unfolding attempts_from
  settled left attempt last d h = rw d (
      on_reply-settle left attempt last (attempts_from f world policy provider left (suc attempt))
        (world.do_call attempt) h)

  retried :
      (left attempt : ℕ) (last : Option GoError)
      → Retried attempt
      → (l : Option GoError) × OneMore
          (attempts_from f world policy provider (suc left) (suc attempt) l)
          (attempts_from f world policy provider (suc (suc left)) attempt last)
  unfolding attempts_from
  retried left attempt last (d, a, w) = rw d (
      on_reply-again left attempt last
        (attempts_from f world policy provider (suc left) (suc attempt)) (world.do_call attempt) a
        w)

  -- The loop from attempt `attempt` on, `k` attempts before attempt `n`, which ends it.
  loop_ends :
      (left k attempt n : ℕ) (last : Option GoError)
      → k + attempt ≡ n
      → k ≤ left
      → ((i : ℕ) → attempt ≤ i → i < n → Retried i)
      → world.done n ≡ false
      → (again (world.do_call n) ≡ false) ⊎ (left ≡ k)
      → OneMore
          (ends f (settle (world.do_call n)) k)
          (attempts_from f world policy provider (suc left) attempt last)
  loop_ends left zero attempt n last p h r d e =
      let same : attempt ≡ n = omega arith in
      let end = settled left attempt last (ap world.done same ∙ d) (elim e [
        | inl stop ↦ inl (ap (λ m. again (world.do_call m)) same ∙ stop)
        | inr none_left ↦ inr none_left
      ]) in
      (ap (λ x. x.answer) end ∙ ap (λ m. settle (world.do_call m)) same, ap (λ x. x.calls) end)
  loop_ends zero (suc k) attempt n last p h r d e = absurd (omega arith)
  loop_ends (suc left) (suc k) attempt n last p h r d e =
      let (l, more) = retried left attempt last (r attempt (omega arith) (omega arith)) in
      let (answer', calls') =
        loop_ends left k (suc attempt) n l (omega arith) (omega arith)
          (λ i a b. r i (omega arith) b) d
          (elim e [ inl stop ↦ inl stop | inr none_left ↦ inr (omega arith) ]) in
      (more.0 ∙ answer', more.1 ∙ ap suc calls')

  -- The answer is that of the first attempt whose reply does not ask for another, or of the last
  -- one that is allowed, if the context does not end before: the attempts up to it are made, and no
  -- more. A response is passed on as it is, an error is, if a timeout, wrapped.
  pub retries_until :
      (n : ℕ)
      → n < allowed
      → ((i : ℕ) → i < n → Retried i)
      → world.done n ≡ false
      → (again (world.do_call n) ≡ false) ⊎ (allowed ≡ suc n)
      → ((call_with_retry f world policy provider).answer ≡ settle (world.do_call n))
        × ((call_with_retry f world policy provider).calls ≡ suc n)
  unfolding call_with_retry
  retries_until n h r d e = from_allowed allowed refl
    where
      from_allowed :
          (a : ℕ)
          → allowed ≡ a
          → OneMore
              (ends f (settle (world.do_call n)) n)
              (attempts_from f world policy provider a 0 none)
      from_allowed zero q = absurd (omega arith)
      from_allowed (suc left) q =
          loop_ends left n 0 n none (omega arith) (omega arith) (λ i a b. r i b) d
            (elim e [ inl stop ↦ inl stop | inr last ↦ inr (omega arith) ])
