-- ===== src/Breaker/Invariant.antt =====
-- internal/breaker/breaker.go: what every call keeps true of a breaker.
use costguard.Base.{ℕ, ◌≤◌, ◌<◌, ◌≡◌, ◌⊎◌, String, true, arith}
use costguard.Breaker.{
  closed, half_open, Policy, Breaker, new, allow, record_success, record_failure,
}

-- A probe is in flight only in the half-open state, and a closed breaker that has counted failures
-- is below its threshold. A breaker that is not closed has counted as many as its threshold.
pub record IsValid (b : Breaker) : Type 0 where
  pub probe : b.probe_in_flight ≡ true → b.state ≡ half_open
  pub below : b.state ≡ closed → (b.failures ≡ 0) ⊎ (b.failures < b.policy.failure_threshold)
  pub tripped : (b.state ≡ closed) ⊎ (b.policy.failure_threshold ≤ b.failures)

pub new-IsValid : (p : Policy) → IsValid (new p)
unfolding new
new-IsValid p = ground arith

pub allow-IsValid : (b : Breaker) (now : ℕ) → IsValid b → IsValid (allow b now).1
unfolding allow
allow-IsValid b now v = ground (arith, v)

pub record_success-IsValid : (b : Breaker) → IsValid b → IsValid (record_success b)
unfolding record_success
record_success-IsValid b v = ground (arith, v)

pub record_failure-IsValid :
    (b : Breaker) (category : String) (now : ℕ)
    → IsValid b
    → IsValid (record_failure b category now)
unfolding record_failure
record_failure-IsValid b category now v = ground (arith, v)
