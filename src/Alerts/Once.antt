-- ===== src/Alerts/Once.antt =====
-- internal/gateway/alerts.go: how often an alert is delivered, over any number of requests at once.
use costguard.Base.{
  ℕ, zero, suc, ◌+◌, ◌≤◌, ◌≡◌, refl, inl, inr, true, false, ◌&&◌, List, [], ◌∷◌, some, arith,
  eq_iff, if◌then◌else◌, ltb, All, get_elem?, set, Option-cases, Bool-cases,
}
use costguard.Alerts.{Key, same_key, holds_key, Deps, Alerts, goes_to_send, send}
use costguard.Alerts.Race.{
  Emission, key_of, Phase, looking, sending, marking, finished, advance, System, step, run,
  all_looking, start, count_key, sends, marks, total, looks_for, looks_beside, overlaps, total-set,
  total-looking,
}

same_key_trans : (a b c : Key) → same_key a b ≡ true → same_key a c ≡ same_key b c
same_key_trans a b c h = ground (
  arith,
  eq_iff a.alert_type b.alert_type,
  eq_iff a.alert_type c.alert_type,
  eq_iff b.alert_type c.alert_type,
)

pub holds_key-same :
    (a b : Key) (ks : List Key) → same_key a b ≡ true → holds_key a ks ≡ holds_key b ks
holds_key-same a b [] h = refl
holds_key-same a b (c ∷ ks) h = ground (arith, same_key_trans a b c h, holds_key-same a b ks h)

-- The emissions whose marks never fail.
abbrev pub Marking : List (Emission × Phase) → Type 0
Marking hs = All (λ h. h.0.outside.mark_sent_fails ≡ false) hs

Marking-get_elem? :
    (hs : List (Emission × Phase)) (i : ℕ) (e : Emission) (p : Phase)
    → Marking hs
    → get_elem? hs i ≡ some (e, p)
    → e.outside.mark_sent_fails ≡ false
Marking-get_elem? [] i e p m h = cc
Marking-get_elem? (g ∷ hs) zero e p m h = ground arith
Marking-get_elem? (g ∷ hs) (suc i) e p m h = Marking-get_elem? hs i e p m.1 h

Marking-set :
    (hs : List (Emission × Phase)) (i : ℕ) (e : Emission) (p : Phase)
    → Marking hs
    → e.outside.mark_sent_fails ≡ false
    → Marking (set hs i (e, p))
Marking-set [] i e p m h = tt
Marking-set (g ∷ hs) zero e p m h = (h, m.1)
Marking-set (g ∷ hs) (suc i) e p m h = (m.0, Marking-set hs i e p m.1 h)

-- With `s` emissions of the key about to send, `m` about to mark, and `o` overlaps so far: what was
-- delivered or will be is one more than the overlaps at most, and without a mark there is for each
-- delivery an emission that is about to mark it.
abbrev Settled : Key → ℕ → Alerts → ℕ → ℕ → Type 0
Settled k o a s m =
    (count_key k a.delivered + s ≤ 1 + o)
    × ((holds_key k a.marked ≡ false) → count_key k a.delivered ≤ m)

module _ (d : Deps) (k : Key) where
  advance-Settled :
      (e : Emission) (p : Phase) (a : Alerts) (o s m s' m' : ℕ)
      → e.outside.mark_sent_fails ≡ false
      → Settled k o a s m
      → s' + sends k (e, p) ≡ s + sends k (e, (advance d e p a).0)
      → m' + marks k (e, p) ≡ m + marks k (e, (advance d e p a).0)
      → Settled k
          (o + (if looks_for k e p && ltb 0 (s + m) then 1 else 0))
          (advance d e p a).1
          s'
          m'
  unfolding advance goes_to_send send
  advance-Settled e looking a o s m s' m' f (few, pending) x y =
      elim (Bool-cases (same_key k (key_of e))) [
        | inl same ↦ let both = holds_key-same k (key_of e) a.marked same in ground arith
        | inr other ↦ ground arith
      ]
  advance-Settled e sending a o s m s' m' f (few, pending) x y =
      elim (Bool-cases (same_key k (key_of e))) [
        | inl same ↦ ground arith
        | inr other ↦ ground arith
      ]
  advance-Settled e marking a o s m s' m' f (few, pending) x y =
      elim (Bool-cases (same_key k (key_of e))) [
        | inl same ↦ let both = holds_key-same k (key_of e) a.marked same in ground arith
        | inr other ↦ ground arith
      ]
  advance-Settled e finished a o s m s' m' f (few, pending) x y = ground arith

  abbrev SettledAll : ℕ → System → Type 0
  SettledAll o sys =
      Marking sys.emissions
      × Settled k o sys.alerts (total (sends k) sys.emissions) (total (marks k) sys.emissions)

  step-SettledAll :
      (i o : ℕ) (sys : System)
      → SettledAll o sys
      → SettledAll (o + (if looks_beside k i sys then 1 else 0)) (step d i sys)
  unfolding step
  step-SettledAll i o sys (ok, h) = elim (Option-cases (get_elem? sys.emissions i)) [
    | inl none_there ↦ rw (none_there, step, looks_beside) (ok, (few h.0, h.1))
    | inr ((e, p), there) ↦
        let next = (advance d e p sys.alerts).0 in
        let f = Marking-get_elem? sys.emissions i e p ok there in
        rw (there, step, looks_beside)
          (
            Marking-set sys.emissions i e next ok f,
            advance-Settled e p sys.alerts o (total (sends k) sys.emissions)
                (total (marks k) sys.emissions) (total (sends k) (set sys.emissions i (e, next)))
                (total (marks k) (set sys.emissions i (e, next))) f h
                (total-set (sends k) sys.emissions i (e, p) (e, next) there)
                (total-set (marks k) sys.emissions i (e, p) (e, next) there),
          )
  ]
    where
      few : {m : ℕ} → m ≤ 1 + o → m ≤ 1 + (o + 0)
      few h = omega arith

  run-SettledAll :
      (schedule : List ℕ) (o : ℕ) (sys : System)
      → SettledAll o sys
      → SettledAll (o + overlaps d k schedule sys) (run d schedule sys)
  unfolding run overlaps
  run-SettledAll [] o sys (ok, (few, pending)) = (ok, (omega arith, pending))
  run-SettledAll (i ∷ schedule) o sys h =
      let beside : ℕ = if looks_beside k i sys then 1 else 0 in
      let (ok, (few, pending)) =
        run-SettledAll schedule (o + beside) (step d i sys) (step-SettledAll i o sys h) in
      (ok, (omega arith, pending))

all_looking-Marking :
    (es : List Emission)
    → All (λ e. e.outside.mark_sent_fails ≡ false) es
    → Marking (all_looking es)
all_looking-Marking [] h = tt
all_looking-Marking (e ∷ es) (here, later) = (here, all_looking-Marking es later)

-- Over any number of requests, whose calls of the alert store and the notifier follow one another in any
-- order, with any failures of the mail server and of looks into the store, and if the store records what
-- it is asked to: the alert of a month and threshold is delivered at most once, and once more at most for
-- each time that a request looks for it while another is between its look and its mark.
pub alert_at_most_once :
    (d : Deps) (k : Key) (es : List Emission) (schedule : List ℕ)
    → All (λ e. e.outside.mark_sent_fails ≡ false) es
    → count_key k (run d schedule (start es)).alerts.delivered
      ≤ 1 + overlaps d k schedule (start es)
alert_at_most_once d k es schedule ok =
    let none_yet = total-looking k es in
    let (marking_ok, (few, pending)) =
      run-SettledAll d k schedule 0 (start es)
        (all_looking-Marking es ok, (omega arith, λ e. omega arith)) in
    omega arith
