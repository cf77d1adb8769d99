-- ===== src/Breaker/Traces.antt =====
-- internal/breaker/breaker.go: sequences of calls on one breaker.
use costguard.Base.{
  ℕ, suc, ◌+◌, ◌≤◌, ◌≡◌, String, Bool, true, false, List, [], ◌∷◌, ◌++◌, arith, if◌then◌else◌,
}
use costguard.Breaker.{
  State, closed, open_, half_open, Policy, Breaker, new, allow, record_success, is_relevant,
  record_failure,
}
use costguard.Breaker.Invariant.{
  IsValid, new-IsValid, allow-IsValid, record_success-IsValid, record_failure-IsValid,
}

-- One call, with the time at which it is made where it reads the clock.
pub data Call : Type 0 where
  ask : ℕ → Call
  succeed : Call
  fail : String → ℕ → Call

abbrev pub Answer : Type 0
Answer = Bool × State

unfoldable pub step : Breaker → Call → List Answer × Breaker
step b (ask now) = let (a, b') = allow b now in (a ∷ [], b')
step b succeed = ([], record_success b)
step b (fail category now) = ([], record_failure b category now)

-- The answers of `Allow`, in order, and the breaker in the end.
unfoldable pub run : Breaker → List Call → List Answer × Breaker
run b [] = ([], b)
run b (c ∷ cs) = let (out, b') = step b c in let (outs, b'') = run b' cs in (out ++ outs, b'')

step-IsValid : (b : Breaker) (c : Call) → IsValid b → IsValid (step b c).1
unfolding step
step-IsValid b (ask now) v = allow-IsValid b now v
step-IsValid b succeed v = record_success-IsValid b v
step-IsValid b (fail category now) v = record_failure-IsValid b category now v

pub run-IsValid : (b : Breaker) (cs : List Call) → IsValid b → IsValid (run b cs).1
unfolding run
run-IsValid b [] v = v
run-IsValid b (c ∷ cs) v = run-IsValid (step b c).1 cs (step-IsValid b c v)

-- Whatever calls are made of a new breaker, in whatever order and at whatever times: a probe is in
-- flight only in the half-open state, a closed breaker has counted no failure or fewer than its
-- threshold, and one that is not closed has counted at least its threshold.
pub run-new-IsValid : (p : Policy) (cs : List Call) → IsValid (run (new p) cs).1
run-new-IsValid p cs = run-IsValid (new p) cs (new-IsValid p)

abbrev flight : Breaker → ℕ
flight b = if b.probe_in_flight then 1 else 0

-- How many calls were let through as probes.
abbrev pub probes : List Answer → ℕ
probes [] = 0
probes ((true, half_open) ∷ out) = suc (probes out)
probes (a ∷ out) = probes out

-- How many calls report a result that counts: a success, or a failure of a relevant category.
abbrev resolved : Breaker → Call → ℕ
resolved b (ask now) = 0
resolved b succeed = 1
resolved b (fail category now) = if is_relevant b category then 1 else 0

pub resolutions : Breaker → List Call → ℕ
resolutions b [] = 0
resolutions b (c ∷ cs) = resolved b c + resolutions (step b c).1 cs

probes-append : (xs ys : List Answer) → probes (xs ++ ys) ≡ probes xs + probes ys
probes-append [] ys = omega arith
probes-append ((true, half_open) ∷ xs) ys = omega (arith, probes-append xs ys)
probes-append ((true, closed) ∷ xs) ys = probes-append xs ys
probes-append ((true, open_) ∷ xs) ys = probes-append xs ys
probes-append ((false, s) ∷ xs) ys = probes-append xs ys

step-probes :
    (b : Breaker) (c : Call) → probes (step b c).0 + flight b ≤ resolved b c + flight (step b c).1
unfolding step allow record_success record_failure
step-probes b (ask now) = ground arith
step-probes b succeed = ground arith
step-probes b (fail category now) = ground arith

run-probes :
    (b : Breaker) (cs : List Call)
    → probes (run b cs).0 + flight b ≤ resolutions b cs + flight (run b cs).1
unfolding run resolutions
run-probes b [] = omega arith
run-probes b (c ∷ cs) = omega (
  arith,
  probes-append (step b c).0 (run (step b c).1 cs).0,
  step-probes b c,
  run-probes (step b c).1 cs,
)

-- In every sequence of calls of a new breaker, at most one more probe is let through than results
-- have been reported that count.
pub probes_bounded :
    (p : Policy) (cs : List Call) → probes (run (new p) cs).0 ≤ resolutions (new p) cs + 1
unfolding new
probes_bounded p cs = ground (arith, run-probes (new p) cs)
