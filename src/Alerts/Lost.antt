-- ===== src/Alerts/Lost.antt =====
-- internal/gateway/alerts.go: alerts that are never delivered.
use costguard.Base.{
  ℕ, ◌+◌, ◌≡◌, inl, inr, true, false, List, [], ◌∷◌, arith, eq_refl, get_elem?, set, Option-cases,
  Bool-cases,
}
use costguard.Alerts.{
  Key, same_key, holds_key, Deps, Alerts, goes_to_send, send, send_budget_alert_email,
}
use costguard.Alerts.Race.{
  Emission, key_of, Phase, looking, sending, marking, finished, advance, System, step, run, start,
  count_key, sends, total, total-set, total-looking,
}
use costguard.Alerts.Once.{holds_key-same}

-- Marked as sent, never delivered, and with no emission about to send it.
abbrev Lost : Key → Alerts → ℕ → Type 0
Lost k a s = (holds_key k a.marked ≡ true) × (count_key k a.delivered ≡ 0) × (s ≡ 0)

module _ (d : Deps) (k : Key) where
  advance-Lost :
      (e : Emission) (p : Phase) (a : Alerts) (s s' : ℕ)
      → Lost k a s
      → s' + sends k (e, p) ≡ s + sends k (e, (advance d e p a).0)
      → Lost k (advance d e p a).1 s'
  unfolding advance goes_to_send send
  advance-Lost e looking a s s' h x = elim (Bool-cases (same_key k (key_of e))) [
    | inl same ↦ let both = holds_key-same k (key_of e) a.marked same in ground arith
    | inr other ↦ ground arith
  ]
  advance-Lost e sending a s s' h x = ground arith
  advance-Lost e marking a s s' h x = ground arith
  advance-Lost e finished a s s' h x = ground arith

  abbrev LostIn : System → Type 0
  LostIn sys = Lost k sys.alerts (total (sends k) sys.emissions)

  step-LostIn : (i : ℕ) (sys : System) → LostIn sys → LostIn (step d i sys)
  unfolding step
  step-LostIn i sys h = elim (Option-cases (get_elem? sys.emissions i)) [
    | inl none_there ↦ rw (none_there, step) h
    | inr ((e, p), there) ↦
        let next = (advance d e p sys.alerts).0 in
        rw (there, step)
          (advance-Lost e p sys.alerts (total (sends k) sys.emissions)
            (total (sends k) (set sys.emissions i (e, next))) h
            (total-set (sends k) sys.emissions i (e, p) (e, next) there))
  ]

  run-LostIn : (schedule : List ℕ) (sys : System) → LostIn sys → LostIn (run d schedule sys)
  unfolding run
  run-LostIn [] sys h = h
  run-LostIn (i ∷ schedule) sys h = run-LostIn schedule (step d i sys) (step-LostIn i sys h)

pub same_key_refl : (k : Key) → same_key k k ≡ true
same_key_refl k = ground (arith, eq_refl k.alert_type)

-- The three calls of an emission whose mail fails.
lost_by_three :
    (d : Deps) (e : Emission) (es : List Emission)
    → d.alert_store ≡ true
    → d.budget_checker ≡ true
    → d.notifier ≡ true
    → d.log ≡ false
    → e.outside.was_sent_fails ≡ false
    → e.outside.send_fails ≡ true
    → e.outside.mark_sent_fails ≡ false
    → LostIn d (key_of e) (step d 0 (step d 0 (step d 0 (start (e ∷ es)))))
unfolding step advance goes_to_send send send_budget_alert_email
lost_by_three d e es store checker notifier log look fails mark =
    ground (arith, same_key_refl (key_of e), total-looking (key_of e) es)

-- With everything configured but the logger, one failure of the mail server loses the alert of its
-- month and threshold for good: an emission whose mail fails, and which makes its three calls before any
-- other, marks the alert as sent, and no other emission delivers it, in whatever order their calls follow.
pub unlogged_failure_loses_alert :
    (d : Deps) (e : Emission) (es : List Emission) (schedule : List ℕ)
    → d.alert_store ≡ true
    → d.budget_checker ≡ true
    → d.notifier ≡ true
    → d.log ≡ false
    → e.outside.was_sent_fails ≡ false
    → e.outside.send_fails ≡ true
    → e.outside.mark_sent_fails ≡ false
    → let s = (run d (0 ∷ 0 ∷ 0 ∷ schedule) (start (e ∷ es))).alerts in
      (holds_key (key_of e) s.marked ≡ true) × (count_key (key_of e) s.delivered ≡ 0)
unfolding run
unlogged_failure_loses_alert d e es schedule store checker notifier log look fails mark =
    let k = key_of e in
    let three = step d 0 (step d 0 (step d 0 (start (e ∷ es)))) in
    let (marked, undelivered, idle) =
      run-LostIn d k schedule three
        (lost_by_three d e es store checker notifier log look fails mark) in
    (marked, undelivered)
