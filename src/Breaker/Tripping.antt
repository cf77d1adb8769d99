-- ===== src/Breaker/Tripping.antt =====
-- internal/breaker/breaker.go: when a breaker opens, refuses, probes and closes.
use Prim.Native.Nat.{min, max}
use costguard.Base.{
  ℕ, suc, ◌+◌, ◌≤◌, ◌<◌, ◌≡◌, String, true, false, List, [], ◌∷◌, arith, refl, length, ltb,
  if◌then◌else◌, All, map, replicate,
}
use costguard.Breaker.{
  closed, open_, half_open, Breaker, allow, record_success, is_relevant, record_failure,
}
use costguard.Breaker.Traces.{Call, ask, succeed, fail, step, run}

-- Failures of one category, one after the other.
unfoldable pub fail_all : Breaker → String → List ℕ → Breaker
fail_all b category [] = b
fail_all b category (now ∷ times) = fail_all (record_failure b category now) category times

module _ (category : String) where
  -- What a breaker has come to after `n` relevant failures in a row since it was last closed.
  record Failed (n : ℕ) (b : Breaker) : Type 0 where
    enabled : b.policy.disabled ≡ false
    relevant : is_relevant b category ≡ true
    state : b.state ≡ (if ltb n (max 1 b.policy.failure_threshold) then closed else open_)
    failures : b.failures ≡ min n (max 1 b.policy.failure_threshold)

  record_failure-Failed :
      (n now : ℕ) (b : Breaker)
      → Failed n b
      → Failed (suc n) (record_failure b category now)
        × ((record_failure b category now).policy ≡ b.policy)
  unfolding record_failure
  record_failure-Failed n now b f = ground (arith, f)

  fail_all-Failed :
      (n : ℕ) (b : Breaker) (times : List ℕ)
      → Failed n b
      → Failed (n + length times) (fail_all b category times)
        × ((fail_all b category times).policy ≡ b.policy)
  unfolding fail_all
  fail_all-Failed n b [] f = ground (arith, f)
  fail_all-Failed n b (now ∷ times) f = ground (
    arith,
    record_failure-Failed n now b f,
    fail_all-Failed (suc n) (record_failure b category now) times,
  )

-- After a success that an enabled breaker records, relevant failures in a row leave it closed as
-- long as they are fewer than the threshold, and open from then on; a threshold of 0 counts as 1.
-- The counter stops at the threshold.
pub trips_exactly :
    (b : Breaker) (category : String) (times : List ℕ)
    → b.policy.disabled ≡ false
    → is_relevant b category ≡ true
    → let b' = fail_all (record_success b) category times in
      (b'.state ≡ (if ltb (length times) (max 1 b.policy.failure_threshold) then closed else open_))
      × (b'.failures ≡ min (length times) (max 1 b.policy.failure_threshold))
unfolding record_success is_relevant
trips_exactly b category times h k =
    ground (arith, fail_all-Failed category 0 (record_success b) times)

-- A breaker that has just opened at `now` refuses every call that is made before its cooldown has
-- passed, and does not change.
pub open_refuses :
    (b : Breaker) (times : List ℕ)
    → b.policy.disabled ≡ false
    → b.state ≡ open_
    → All (λ now. now < b.trip_time + b.policy.cooldown_duration) times
    → run b (map ask times) ≡ (replicate (length times) (false, open_), b)
unfolding run step allow
open_refuses b [] h k a = refl
open_refuses b (now ∷ times) h k (early, later) = ground (arith, open_refuses b times h k later)

-- The calls that do not settle a probe: requests, and failures of a category that does not count.
abbrev pub Unsettling : Breaker → Call → Type 0
Unsettling b (ask now) = Unit
Unsettling b succeed = ⊥
Unsettling b (fail category now) = is_relevant b category ≡ false

-- While a probe is in flight in the half-open state every request is refused, and nothing changes,
-- however much time passes and however many failures of irrelevant categories are recorded: only a
-- success or a relevant failure frees the breaker.
pub probe_excludes :
    (b : Breaker) (cs : List Call)
    → b.policy.disabled ≡ false
    → b.state ≡ half_open
    → b.probe_in_flight ≡ true
    → All (Unsettling b) cs
    → ((run b cs).1 ≡ b) × All (λ a. a ≡ (false, half_open)) (run b cs).0
unfolding run step allow record_failure
probe_excludes b [] h k p u = (refl, tt)
probe_excludes b (ask now ∷ cs) h k p (_, u) = ground (arith, probe_excludes b cs h k p u)
probe_excludes b (succeed ∷ cs) h k p (u, _) = absurd u
probe_excludes b (fail category now ∷ cs) h k p (e, u) = ground (arith, probe_excludes b cs h k p u)

-- An open breaker whose cooldown has passed lets one request through as a probe. If that succeeds
-- the breaker is closed and lets the next request through; if it fails with a relevant category
-- the breaker is open again, and refuses until a whole cooldown after that failure.
pub probe_settles :
    (b : Breaker) (now at later : ℕ) (category : String)
    → b.policy.disabled ≡ false
    → b.state ≡ open_
    → b.probe_in_flight ≡ false
    → b.trip_time + b.policy.cooldown_duration ≤ now
    → is_relevant b category ≡ true
    → later < at + b.policy.cooldown_duration
    → ((allow b now).0 ≡ (true, half_open))
      × ((allow (record_success (allow b now).1) later).0 ≡ (true, closed))
      × ((allow (record_failure (allow b now).1 category at) later).0 ≡ (false, open_))
unfolding allow record_success record_failure
probe_settles b now at later category h k p c r l = ground arith

-- A success closes an enabled breaker from every state: also an open one, whose cooldown need not
-- have passed, lets the next request through.
pub success_closes :
    (b : Breaker) (now : ℕ)
    → b.policy.disabled ≡ false
    → (allow (record_success b) now).0 ≡ (true, closed)
unfolding allow record_success
success_closes b now h = ground arith
