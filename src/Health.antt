-- ===== src/Health.antt =====
-- internal/health/tracker.go: the last outcomes of each provider's calls, and their summary.
-- Times are nanoseconds since Go's zero time, which is 0 and before every outcome; latencies are
-- nanoseconds. Rates and averages are kept as the pair of numbers that the code divides.
pub mod Slots
pub mod Window
pub mod History
pub mod Summary
mod Tests
use Prim.Native.Nat.{pred}
use costguard.Base.{
  ℕ, zero, suc, ◌+◌, ◌-◌, ◌/◌, ◌%◌, String, Bool, true, false, List, [], ◌∷◌, Option, none, some,
  Dict, lookup, insert, length, get_or, set, replicate, ltb, ◌==◌, if◌then◌else◌, map,
}

pub record Outcome : Type 0 where
  pub success : Bool
  pub latency : ℕ
  pub timestamp : ℕ
  pub error_category : String

-- Go's zero value of `Outcome`.
abbrev pub blank : Outcome
blank = record { success = false; latency = 0; timestamp = 0; error_category = "" }

pub record Ring : Type 0 where
  pub buf : List Outcome
  pub head : ℕ
  pub size : ℕ

unfoldable pub new_ring : ℕ → Ring
new_ring window_size = record { buf = replicate window_size blank; head = 0; size = 0 }

unfoldable pub add : Ring → Outcome → Ring
add r o = record {
  buf = set r.buf r.head o;
  head = (r.head + 1) % length r.buf;
  size = if ltb r.size (length r.buf) then r.size + 1 else r.size;
}

-- The loop of `entries`: `n` outcomes from index `start + i` on, going round.
unfoldable pub read_from : List Outcome → ℕ → ℕ → ℕ → List Outcome
read_from buf start i zero = []
read_from buf start i (suc n) =
    get_or buf ((start + i) % length buf) blank ∷ read_from buf start (i + 1) n

unfoldable pub entries : Ring → List Outcome
entries r =
    if r.size == 0
    then []
    else read_from r.buf ((r.head + length r.buf - r.size) % length r.buf) 0 r.size

pub record Tracker : Type 0 where
  pub window_size : ℕ
  pub rings : Dict Ring

-- A negative window size is 0 here, and clamped alike.
unfoldable pub new : ℕ → Tracker
new window_size = record { window_size = if ltb window_size 1 then 1 else window_size; rings = [] }

-- The ring of a provider, a new one if it has none.
abbrev pub ring_or : ℕ → Option Ring → Ring
ring_or window_size none = new_ring window_size
ring_or window_size (some r) = r

unfoldable pub ring_of : Tracker → String → Ring
ring_of t provider = ring_or t.window_size (lookup provider t.rings)

-- `Record`
unfoldable pub record_outcome : Tracker → String → Outcome → Tracker
record_outcome t provider o = record t {
  rings = insert provider (add (ring_of t provider) o) t.rings;
}

-- The summary: `latency_sum / latency_count` is the average latency, `successes / total` the
-- success rate, and the code reports -1 for a quotient whose divisor is 0.
pub record Snapshot : Type 0 where
  pub provider : String
  pub total : ℕ
  pub successes : ℕ
  pub failures : ℕ
  pub latency_sum : ℕ
  pub latency_count : ℕ
  pub last_success : ℕ
  pub last_failure : ℕ
  pub last_error : String
  pub window_size : ℕ

abbrev pub empty_snapshot : String → ℕ → Snapshot
empty_snapshot provider window_size = record {
  provider = provider;
  total = 0;
  successes = 0;
  failures = 0;
  latency_sum = 0;
  latency_count = 0;
  last_success = 0;
  last_failure = 0;
  last_error = "";
  window_size = window_size;
}

-- One round of the loop of `buildSnapshot`; `Milliseconds` rounds down.
unfoldable pub tally : Snapshot → Outcome → Snapshot
tally s o =
    if o.success
    then record s {
      successes = s.successes + 1;
      latency_sum = s.latency_sum + o.latency / 1_000_000;
      latency_count = s.latency_count + 1;
      last_success = if ltb s.last_success o.timestamp then o.timestamp else s.last_success;
    }
    else record s {
      failures = s.failures + 1;
      last_failure = if ltb s.last_failure o.timestamp then o.timestamp else s.last_failure;
      last_error = if ltb s.last_failure o.timestamp then o.error_category else s.last_error;
    }

unfoldable pub tally_all : Snapshot → List Outcome → Snapshot
tally_all s [] = s
tally_all s (o ∷ os) = tally_all (tally s o) os

unfoldable pub build_snapshot : String → ℕ → List Outcome → Snapshot
unfolding tally_all
build_snapshot provider window_size entries =
    tally_all (record (empty_snapshot provider window_size) { total = length entries }) entries

unfoldable pub snapshot : Tracker → String → Snapshot
unfolding build_snapshot entries
snapshot t provider = elim (lookup provider t.rings) [
  | none ↦ empty_snapshot provider t.window_size
  | some r ↦ build_snapshot provider t.window_size (entries r)
]
