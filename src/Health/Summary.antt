-- ===== src/Health/Summary.antt =====
-- internal/health/tracker.go: what the summary of a provider says of its window.
use costguard.Base.{
  ℕ, ◌+◌, ◌≤◌, ◌≡◌, ◌⊎◌, inl, inr, String, true, false, List, [], ◌∷◌, arith, refl, sym, ◌∙◌, All,
  length, keep,
}
use costguard.Health.{Outcome, Snapshot, empty_snapshot, tally, tally_all, build_snapshot}

-- The counts that a summary adds to those that it starts from.
tally_all-counts :
    (s : Snapshot) (os : List Outcome)
    → let s' = tally_all s os in
      (s'.successes ≡ s.successes + length (keep (λ o. o.success) os))
      × (s'.successes + s'.failures ≡ s.successes + s.failures + length os)
      × (s'.latency_count + s.successes ≡ s.latency_count + s'.successes)
      × (s'.total ≡ s.total)
unfolding tally_all tally
tally_all-counts s [] = omega arith
tally_all-counts s (o ∷ os) = ground (arith, tally_all-counts (tally s o) os)

-- A summary counts every outcome of the window once: its successes are the outcomes that
-- succeeded, its failures all others, and the average latency is over the successes alone.
pub build_snapshot-counts :
    (provider : String) (window_size : ℕ) (os : List Outcome)
    → let s = build_snapshot provider window_size os in
      (s.total ≡ length os)
      × (s.successes ≡ length (keep (λ o. o.success) os))
      × (s.successes + s.failures ≡ s.total)
      × (s.latency_count ≡ s.successes)
unfolding build_snapshot
build_snapshot-counts provider window_size os = ground (
  arith,
  tally_all-counts (record (empty_snapshot provider window_size) { total = length os }) os,
)

-- The outcome is no later than the times that a summary shows.
abbrev pub NoLater : Snapshot → Outcome → Type 0
NoLater s o =
    (o.success ≡ true → o.timestamp ≤ s.last_success)
    × (o.success ≡ false → o.timestamp ≤ s.last_failure)

-- The outcome is the failure that a summary shows as the last.
pub record IsShown (s : Snapshot) (o : Outcome) : Type 0 where
  pub failed : o.success ≡ false
  pub time : o.timestamp ≡ s.last_failure
  pub category : o.error_category ≡ s.last_error

abbrev pub Any : {A : Type 0} → (A → Type 0) → List A → Type 0
Any P [] = ⊥
Any P (x ∷ xs) = P x ⊎ Any P xs

-- One outcome: the times shown do not fall, cover it, and change the error only to its own.
tally-latest :
    (s : Snapshot) (o : Outcome)
    → (s.last_success ≤ (tally s o).last_success)
      × (s.last_failure ≤ (tally s o).last_failure)
      × NoLater (tally s o) o
      × (((tally s o).last_failure ≡ s.last_failure) × ((tally s o).last_error ≡ s.last_error)
          ⊎ IsShown (tally s o) o)
unfolding tally
tally-latest s o = ground arith

NoLater-mono :
    (s s' : Snapshot) (o : Outcome)
    → s.last_success ≤ s'.last_success
    → s.last_failure ≤ s'.last_failure
    → NoLater s o
    → NoLater s' o
NoLater-mono s s' o p q h = (λ e. omega (arith, h.0 e), λ e. omega (arith, h.1 e))

IsShown-move :
    (s s' : Snapshot) (o : Outcome)
    → s'.last_failure ≡ s.last_failure
    → s'.last_error ≡ s.last_error
    → IsShown s o
    → IsShown s' o
IsShown-move s s' o p q h = record {
  failed = h.failed;
  time = h.time ∙ sym p;
  category = h.category ∙ sym q;
}

abbrev Kept : Snapshot → Snapshot → Type 0
Kept s s' = (s'.last_failure ≡ s.last_failure) × (s'.last_error ≡ s.last_error)

tally_all-IsShown :
    (s s' : Snapshot) (o : Outcome) (os : List Outcome)
    → Kept s (tally s o) ⊎ IsShown (tally s o) o
    → Kept (tally s o) s' ⊎ Any (IsShown s') os
    → Kept s s' ⊎ Any (IsShown s') (o ∷ os)
tally_all-IsShown s s' o os first (inr later) = inr (inr later)
tally_all-IsShown s s' o os (inl (p, q)) (inl (p', q')) = inl (p' ∙ p, q' ∙ q)
tally_all-IsShown s s' o os (inr shown) (inl (p', q')) =
    inr (inl (IsShown-move (tally s o) s' o p' q' shown))

tally_all-latest :
    (s : Snapshot) (os : List Outcome)
    → let s' = tally_all s os in
      (s.last_success ≤ s'.last_success)
      × (s.last_failure ≤ s'.last_failure)
      × All (NoLater s') os
      × (Kept s s' ⊎ Any (IsShown s') os)
unfolding tally_all
tally_all-latest s [] = (omega arith, omega arith, tt, inl (refl, refl))
tally_all-latest s (o ∷ os) =
    let (success_grows, failure_grows, covered, shown) = tally_all-latest (tally s o) os in
    let (success_le, failure_le, covers, first) = tally-latest s o in
    (
      omega arith,
      omega arith,
      (
        NoLater-mono (tally s o) (tally_all (tally s o) os) o success_grows failure_grows covers,
        covered,
      ),
      tally_all-IsShown s (tally_all (tally s o) os) o os first shown,
    )

-- A summary shows times that no success, or no failure, of the window exceeds; and the failure
-- that it shows is one of the window, with its time and category, unless every failure of the
-- window carries the zero time, when it shows the zero time and no category.
pub build_snapshot-latest :
    (provider : String) (window_size : ℕ) (os : List Outcome)
    → let s = build_snapshot provider window_size os in
      All (NoLater s) os × ((s.last_failure ≡ 0) × (s.last_error ≡ "") ⊎ Any (IsShown s) os)
unfolding build_snapshot
build_snapshot-latest provider window_size os =
    let (_, _, covered, shown) =
      tally_all-latest (record (empty_snapshot provider window_size) { total = length os }) os in
    (covered, shown)
