-- ===== src/Alerts/Race.antt =====
-- internal/gateway/alerts.go: the emissions of requests that are handled at the same time, whose calls of
-- the alert store and the notifier follow one another in any order.
use costguard.Base.{
  ℕ, zero, suc, ◌+◌, ◌≡◌, refl, Bool, false, ◌&&◌, List, [], ◌∷◌, none, some, arith, if◌then◌else◌,
  get_elem?, set, ltb,
}
use costguard.Budget.Calendar.{UtcTime}
use costguard.Alerts.{
  Key, same_key, Deps, Outside, Alerts, Meanwhile, mark_sent, monthly_key, goes_to_send, send,
  emit_monthly_budget_alert_once,
}

-- One call of `emitMonthlyBudgetAlertOnce`, in its environment.
pub record Emission : Type 0 where
  pub outside : Outside
  pub now : UtcTime
  pub threshold_percent : ℕ

abbrev pub key_of : Emission → Key
key_of e = monthly_key e.now e.threshold_percent

-- The call that an emission makes next: of `WasSent`, of `Send`, or of `MarkSent`.
pub data Phase : Type 0 where
  looking sending marking finished : Phase

-- The next call of an emission.
unfoldable pub advance : Deps → Emission → Phase → Alerts → Phase × Alerts
unfolding goes_to_send send
advance d e looking s = (if goes_to_send d e.outside (key_of e) s then sending else finished, s)
advance d e sending s =
    let (delivered, s') = send d e.outside (key_of e) s in
    (if delivered then marking else finished, s')
advance d e marking s = (finished, mark_sent e.outside (key_of e) s)
advance d e finished s = (finished, s)

-- The emissions that are under way, and what the store and the notifier hold.
pub record System : Type 0 where
  pub alerts : Alerts
  pub emissions : List (Emission × Phase)

-- A step of the emission `i`.
unfoldable pub step : Deps → ℕ → System → System
step d i sys = elim (get_elem? sys.emissions i) [
  | none ↦ sys
  | some (e, p) ↦
      let (p', s) = advance d e p sys.alerts in
      record { alerts = s; emissions = set sys.emissions i (e, p') }
]

-- Steps in the order of a schedule.
unfoldable pub run : Deps → List ℕ → System → System
run d [] sys = sys
run d (i ∷ schedule) sys = run d schedule (step d i sys)

abbrev pub nothing_sent : Alerts
nothing_sent = record { marked = []; delivered = [] }

abbrev pub all_looking : List Emission → List (Emission × Phase)
all_looking [] = []
all_looking (e ∷ es) = (e, looking) ∷ all_looking es

-- Nothing is sent yet, and every emission is about to look into the store.
abbrev pub start : List Emission → System
start es = record { alerts = nothing_sent; emissions = all_looking es }

abbrev pub count_key : Key → List Key → ℕ
count_key k [] = 0
count_key k (j ∷ ks) = (if same_key k j then 1 else 0) + count_key k ks

-- The emissions of a key that are about to send, and those that are about to mark.
abbrev pub sends : Key → Emission × Phase → ℕ
sends k (e, sending) = if same_key k (key_of e) then 1 else 0
sends k (e, _) = 0

abbrev pub marks : Key → Emission × Phase → ℕ
marks k (e, marking) = if same_key k (key_of e) then 1 else 0
marks k (e, _) = 0

abbrev pub total : (Emission × Phase → ℕ) → List (Emission × Phase) → ℕ
total weight [] = 0
total weight (h ∷ hs) = weight h + total weight hs

-- Whether an emission looks for a key.
abbrev pub looks_for : Key → Emission → Phase → Bool
looks_for k e looking = same_key k (key_of e)
looks_for k e _ = false

-- Whether the step of emission `i` looks for a key while another emission of that key is between its look
-- and its mark.
abbrev pub looks_beside : Key → ℕ → System → Bool
looks_beside k i sys = elim (get_elem? sys.emissions i) [
  | none ↦ false
  | some (e, p) ↦
      looks_for k e p && ltb 0 (total (sends k) sys.emissions + total (marks k) sys.emissions)
]

-- How often that happens in a schedule.
unfoldable pub overlaps : Deps → Key → List ℕ → System → ℕ
overlaps d k [] sys = 0
overlaps d k (i ∷ schedule) sys =
    (if looks_beside k i sys then 1 else 0) + overlaps d k schedule (step d i sys)

pub total-set :
    (weight : Emission × Phase → ℕ) (hs : List (Emission × Phase)) (i : ℕ) (h h' : Emission × Phase)
    → get_elem? hs i ≡ some h
    → total weight (set hs i h') + weight h ≡ total weight hs + weight h'
total-set weight [] i h h' e = cc
total-set weight (g ∷ hs) zero h h' e = ground arith
total-set weight (g ∷ hs) (suc i) h h' e = omega (arith, total-set weight hs i h h' e)

pub total-looking :
    (k : Key) (es : List Emission)
    → (total (sends k) (all_looking es) ≡ 0) × (total (marks k) (all_looking es) ≡ 0)
total-looking k [] = (refl, refl)
total-looking k (e ∷ es) = omega (arith, total-looking k es)

-- An emission that no other interrupts is its three calls in a row.
pub emit-advance :
    (d : Deps) (o : Outside) (now : UtcTime) (threshold_percent : ℕ) (s : Alerts)
    → let e : Emission = record { outside = o; now = now; threshold_percent = threshold_percent } in
      let alone : Meanwhile = record { before_send = λ a. a; before_mark = λ a. a } in
      let (p, s1) = advance d e looking s in
      let (q, s2) = advance d e p s1 in
      emit_monthly_budget_alert_once d o alone now threshold_percent s ≡ (advance d e q s2).1
unfolding advance emit_monthly_budget_alert_once
emit-advance d o now threshold_percent s = ground arith
