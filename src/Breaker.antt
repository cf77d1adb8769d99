-- ===== src/Breaker.antt =====
-- internal/breaker/breaker.go: the three-state circuit breaker of one provider.
-- Every method runs under the breaker's mutex (or reads only the immutable policy), so concurrent
-- use is a sequence of calls. A time is a number of nanoseconds; `b.now()` is the argument `now`.
pub mod Invariant
pub mod Traces
pub mod Tripping
pub mod Registry
mod Tests
use costguard.Base.{
  ℕ, ◌+◌, ◌*◌, String, Bool, true, false, List, [], ◌∷◌, str_eq, leb, if◌then◌else◌, ◌&&◌, any,
}

pub data State : Type 0 where
  closed open_ half_open : State

pub record Policy : Type 0 where
  pub failure_threshold : ℕ
  pub cooldown_duration : ℕ
  pub trip_on : List String
  pub disabled : Bool

abbrev pub default_policy : Policy
default_policy = record {
  failure_threshold = 5;
  cooldown_duration = 30 * 1_000_000_000;
  trip_on = "upstream_failure" ∷ "provider_unavailable" ∷ [];
  disabled = false;
}

pub record Stats : Type 0 where
  pub state : State
  pub consec_failures : ℕ
  pub trip_time : ℕ
  pub cooldown_duration : ℕ

pub record Breaker : Type 0 where
  pub policy : Policy
  pub state : State
  pub failures : ℕ
  pub trip_time : ℕ
  pub probe_in_flight : Bool

-- `newWithClock`: the policy is taken as it is.
unfoldable pub new : Policy → Breaker
new p = record { policy = p; state = closed; failures = 0; trip_time = 0; probe_in_flight = false }

abbrev pub is_open : State → Bool
is_open open_ = true
is_open _ = false

-- `b.now().Sub(b.tripTime) >= CooldownDuration`, with no negative durations.
abbrev pub cooled : Breaker → ℕ → Bool
cooled b now = leb (b.trip_time + b.policy.cooldown_duration) now

-- The first step of `Allow`: open becomes half-open once the cooldown has passed.
unfoldable pub refresh : Breaker → ℕ → Breaker
refresh b now = if is_open b.state && cooled b now then record b { state = half_open } else b

-- The switch of `Allow`.
unfoldable pub admit : State → Breaker → (Bool × State) × Breaker
admit closed b = ((true, closed), b)
admit open_ b = ((false, open_), b)
admit half_open b =
    if b.probe_in_flight
    then ((false, half_open), b)
    else ((true, half_open), record b { probe_in_flight = true })

unfoldable pub allow : Breaker → ℕ → (Bool × State) × Breaker
unfolding refresh admit
allow b now =
    if b.policy.disabled then ((true, closed), b) else (let b' = refresh b now in admit b'.state b')

unfoldable pub record_success : Breaker → Breaker
record_success b =
    if b.policy.disabled
    then b
    else record b { failures = 0; probe_in_flight = false; state = closed }

unfoldable pub is_relevant : Breaker → String → Bool
is_relevant b category = any (λ c. str_eq c category) b.policy.trip_on

-- The part of `RecordFailure` that runs under the lock, by the state that it finds.
unfoldable pub count_failure : State → Breaker → ℕ → Breaker
count_failure closed b now =
    if leb b.policy.failure_threshold (b.failures + 1)
    then record b {
      failures = b.failures + 1;
      state = open_;
      trip_time = now;
      probe_in_flight = false;
    }
    else record b { failures = b.failures + 1; probe_in_flight = false }
count_failure half_open b now = record b {
  failures = b.failures + 1;
  state = open_;
  trip_time = now;
  probe_in_flight = false;
}
count_failure open_ b now = record b { probe_in_flight = false }

unfoldable pub record_failure : Breaker → String → ℕ → Breaker
unfolding is_relevant count_failure
record_failure b category now =
    if b.policy.disabled
    then b
    else if is_relevant b category
    then count_failure b.state b now
    else b

-- `(*Breaker).State`
unfoldable pub current_state : Breaker → State
current_state b = if b.policy.disabled then closed else b.state

unfoldable pub stats : Breaker → Stats
stats b =
    if b.policy.disabled
    then record { state = closed; consec_failures = 0; trip_time = 0; cooldown_duration = 0 }
    else record {
      state = b.state;
      consec_failures = b.failures;
      trip_time = b.trip_time;
      cooldown_duration = b.policy.cooldown_duration;
    }
