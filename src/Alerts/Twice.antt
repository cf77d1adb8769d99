-- ===== src/Alerts/Twice.antt =====
-- internal/gateway/alerts.go: alerts that are delivered twice.
use costguard.Base.{
  ℕ, ◌≤◌, ◌≡◌, inl, inr, true, false, List, [], ◌∷◌, arith, get_elem?, Option-cases,
}
use costguard.Alerts.{
  Key, same_key, Deps, Outside, Alerts, goes_to_send, send, send_budget_alert_email,
}
use costguard.Alerts.Race.{
  Emission, key_of, Phase, looking, sending, marking, finished, advance, System, step, run, start,
  count_key,
}
use costguard.Alerts.Lost.{same_key_refl}

module _ (d : Deps) (k : Key) where
  abbrev count : Alerts → ℕ
  count a = count_key k a.delivered

  advance-grows : (e : Emission) (p : Phase) (a : Alerts) → count a ≤ count (advance d e p a).1
  unfolding advance send
  advance-grows e looking a = omega arith
  advance-grows e sending a = ground arith
  advance-grows e marking a = ground arith
  advance-grows e finished a = omega arith

  step-grows : (i : ℕ) (sys : System) → count sys.alerts ≤ count (step d i sys).alerts
  unfolding step
  step-grows i sys = elim (Option-cases (get_elem? sys.emissions i)) [
    | inl none_there ↦ rw (none_there, step) (omega arith)
    | inr ((e, p), there) ↦ rw (there, step) (advance-grows e p sys.alerts)
  ]

  run-grows :
      (schedule : List ℕ) (sys : System) → count sys.alerts ≤ count (run d schedule sys).alerts
  unfolding run
  run-grows [] sys = omega arith
  run-grows (i ∷ schedule) sys = omega (arith, step-grows i sys, run-grows schedule (step d i sys))

-- The calls of the alert store and the notifier that an emission makes to send do not fail.
abbrev pub Sends : Outside → Type 0
Sends o = (o.was_sent_fails ≡ false) × (o.send_fails ≡ false)

both_look_then_send :
    (d : Deps) (e e' : Emission) (es : List Emission)
    → d.alert_store ≡ true
    → d.budget_checker ≡ true
    → d.notifier ≡ true
    → Sends e.outside
    → Sends e'.outside
    → same_key (key_of e) (key_of e') ≡ true
    → let both = step d 1 (step d 0 (step d 1 (step d 0 (start (e ∷ e' ∷ es))))) in
      2 ≤ count_key (key_of e) both.alerts.delivered
unfolding step advance goes_to_send send send_budget_alert_email
both_look_then_send d e e' es store checker notifier h h' same =
    ground (arith, same_key_refl (key_of e))

-- With an alert store, a budget checker and a notifier: two requests that emit the alert of the same month
-- and threshold, and that begin by both looking into the store before either sends, deliver the alert twice
-- at least, if their looks and mails succeed, whatever becomes of their marks, whatever other emissions
-- there are, and in whatever order the calls follow after.
pub race_delivers_twice :
    (d : Deps) (e e' : Emission) (es : List Emission) (schedule : List ℕ)
    → d.alert_store ≡ true
    → d.budget_checker ≡ true
    → d.notifier ≡ true
    → Sends e.outside
    → Sends e'.outside
    → same_key (key_of e) (key_of e') ≡ true
    → 2
      ≤ count_key
          (key_of e)
          (run d (0 ∷ 1 ∷ 0 ∷ 1 ∷ schedule) (start (e ∷ e' ∷ es))).alerts.delivered
unfolding run
race_delivers_twice d e e' es schedule store checker notifier h h' same =
    let both = step d 1 (step d 0 (step d 1 (step d 0 (start (e ∷ e' ∷ es))))) in
    omega (
      arith,
      both_look_then_send d e e' es store checker notifier h h' same,
      run-grows d (key_of e) schedule both,
    )
