-- ===== src/Breaker/Tests.antt =====
-- internal/breaker: runs on concrete inputs, and the theorems at inputs that meet their hypotheses.
use costguard.Base.{◌≤◌, eq_iff, ◌+◌, ◌≡◌, String, true, false, List, [], ◌∷◌, refl, All}
use costguard.Breaker.{
  closed, open_, half_open, Policy, default_policy, Breaker, new, allow, record_success,
  is_relevant, record_failure,
}
use costguard.Breaker.Traces.{
  ask, succeed, fail, Call, step, run, probes, resolutions, probes_bounded,
}
use costguard.Breaker.Tripping.{fail_all, trips_exactly, probe_excludes}
use costguard.Breaker.Registry
use costguard.Breaker.Registry.{new_registry, for_provider, set_policy, at}
use costguard.Breaker.Registry.Laws
use costguard.Breaker.Registry.Laws.{
  for_again, for_others, set_policy-for_provider, for_provider-IsValid, new_registry-IsValid,
}

abbrev two : Policy
two = record default_policy { failure_threshold = 2; cooldown_duration = 10 }

abbrev tripped : Breaker
tripped = record {
  policy = two;
  state = open_;
  failures = 2;
  trip_time = 7;
  probe_in_flight = false;
}

abbrev probing : Breaker
probing = record tripped { state = half_open; probe_in_flight = true }

abbrev calls : List Call
calls =
    fail "upstream_failure" 3
    ∷ fail "auth" 4
    ∷ fail "upstream_failure" 7
    ∷ ask 16
    ∷ ask 17
    ∷ ask 18
    ∷ succeed
    ∷ ask 19
    ∷ []

run-calls :
    (run (new two) calls).0
    ≡ (false, open_) ∷ (true, half_open) ∷ (false, half_open) ∷ (true, closed) ∷ []
unfolding run step new allow record_success record_failure
run-calls = refl

probes_bounded_example : probes (run (new two) calls).0 ≤ resolutions (new two) calls + 1
probes_bounded_example = probes_bounded two calls

relevant : is_relevant tripped "upstream_failure" ≡ true
unfolding is_relevant
relevant = refl

trips_exactly_example :
    let b' = fail_all (record_success tripped) "upstream_failure" (1 ∷ 2 ∷ 3 ∷ []) in
    (b'.state ≡ open_) × (b'.failures ≡ 2)
trips_exactly_example = trips_exactly tripped "upstream_failure" (1 ∷ 2 ∷ 3 ∷ []) refl relevant

irrelevant : is_relevant probing "auth" ≡ false
unfolding is_relevant
irrelevant = refl

probe_excludes_example :
    ((run probing (ask 99 ∷ fail "auth" 100 ∷ [])).1 ≡ probing)
    × All (λ a. a ≡ (false, half_open)) (run probing (ask 99 ∷ fail "auth" 100 ∷ [])).0
probe_excludes_example =
    probe_excludes probing (ask 99 ∷ fail "auth" 100 ∷ []) refl refl refl (tt, (irrelevant, tt))

abbrev empty : Registry.Registry
empty = record { heap = []; breakers = []; defaults = default_policy; overrides = [] }

empty-IsValid : Laws.IsValid empty
unfolding new_registry
empty-IsValid = new_registry-IsValid default_policy

abbrev with_a : Registry.Registry
with_a = record empty { heap = new default_policy ∷ []; breakers = ("a", 0) ∷ [] }

with_a-IsValid : Laws.IsValid with_a
unfolding for_provider
with_a-IsValid = for_provider-IsValid empty "a" empty-IsValid

a_ne_b : ◌≡◌ {A = String} "b" "a" → ⊥
a_ne_b e = cc ((eq_iff "b" "a").1 e)
