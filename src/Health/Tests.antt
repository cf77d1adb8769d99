-- ===== src/Health/Tests.antt =====
-- internal/health: runs on concrete inputs, and the theorems at concrete inputs.
use Prim.Native.Nat.{max}
use costguard.Base.{ℕ, ◌≡◌, String, true, false, List, [], ◌∷◌, refl}
use costguard.Health.{
  Outcome, new, ring_of, record_outcome, new_ring, add, entries, read_from, snapshot, tally,
}
use costguard.Health.History.{latest, outcomes_of, record_all, entries-record_all}

abbrev good : ℕ → Outcome
good t = record { success = true; latency = 2_500_000; timestamp = t; error_category = "" }

abbrev bad : ℕ → String → Outcome
bad t e = record { success = false; latency = 1; timestamp = t; error_category = e }

abbrev recorded : List (String × Outcome)
recorded =
    ("a", good 1)
    ∷ ("b", good 2)
    ∷ ("a", bad 3 "auth")
    ∷ ("a", good 4)
    ∷ ("a", bad 5 "rate_limit")
    ∷ []

entries-recorded :
    entries (ring_of (record_all (new 2) recorded) "a") ≡ good 4 ∷ bad 5 "rate_limit" ∷ []
unfolding new record_all record_outcome ring_of new_ring add entries read_from
entries-recorded = refl

snapshot-recorded : (snapshot (record_all (new 3) recorded) "a").last_error ≡ "rate_limit"
unfolding new record_all record_outcome ring_of new_ring add snapshot read_from tally
snapshot-recorded = refl

entries-record_all_example :
    entries (ring_of (record_all (new 2) recorded) "a")
    ≡ latest (max 1 2) (outcomes_of "a" recorded)
entries-record_all_example = entries-record_all 2 recorded "a"
