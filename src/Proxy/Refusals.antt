-- ===== src/Proxy/Refusals.antt =====
-- internal/gateway/proxy.go: requests that are over a budget.
use costguard.Base.{ℕ, ◌≡◌, refl, ap, String, true, false, List, some, ok, arith, runes, eq_refl}
use costguard.Base.Float.{Float}
use costguard.Budget.{
  BudgetError, monthly_exceeded, Service, check_monthly_budget, check_request_budget,
}
use costguard.Alerts.{
  Alerts, Outside, Meanwhile, Key, holds_key, monthly_key, emit_monthly_budget_alert_once,
  goes_to_send, send, send_budget_alert_email,
}
use costguard.Proxy.{proxy, admit}
use costguard.Proxy.Stages.{proxy_state}
use costguard.Proxy.Responses.{new_json_error_response}
use costguard.Proxy.Routing.{is_some}
use costguard.Budget.{spent}
use costguard.Budget.Calendar.{monthly_window}
use costguard.Proxy.Types.{Library, Request, Gateway, State, Environment}
use costguard.Proxy.Admission.{alert_deps, check_budgets, budget_refusal, emit_monthly}

-- No call of the alert store or the notifier fails.
abbrev pub reachable : Outside
reachable = record { was_sent_fails = false; send_fails = false; mark_sent_fails = false }

-- What others do in between unmarks no alert.
abbrev pub KeepsMarks : Meanwhile → Type 0
KeepsMarks m =
    (k : Key) (a : Alerts)
    → holds_key k a.marked ≡ true
    → (holds_key k (m.before_send a).marked ≡ true) × (holds_key k (m.before_mark a).marked ≡ true)

-- Nothing but the alerts differs.
abbrev pub OnlyAlerts : {f : Float} → State f → State f → Type 0
OnlyAlerts s t = record t { alerts = s.alerts } ≡ s

module _ (f : Float) (lib : Library) (g : Gateway f) (env : Environment f) where
  open f use {Carrier, of_nat, le, lt}

  module _ (b : Service f) (r : Request) (e : BudgetError) where
    admit_over :
        (body : List ℕ) (model provider : String) (s : State f)
        → g.budget_checker ≡ some b
        → check_request_budget f b env.utc r.team r.project r.agent ≡ some e
        → (admit f lib g env r body model provider s).0 ≡ budget_refusal e
    unfolding admit check_budgets
    admit_over body model provider s h over = ground arith

    admit_over_state :
        (body : List ℕ) (model provider : String) (s : State f)
        → g.budget_checker ≡ some b
        → check_request_budget f b env.utc r.team r.project r.agent ≡ some e
        → OnlyAlerts s (admit f lib g env r body model provider s).1
    unfolding admit check_budgets
    admit_over_state body model provider s h over = ground arith

  -- A request whose team, project, agent or month is over its budget, or whose budget cannot be looked
  -- up, reaches no provider, is not metered, and leaves the cache and the breakers as they are, wherever
  -- it would have gone.
  pub over_budget_reaches_nothing :
      (b : Service f) (r : Request) (e : BudgetError) (s : State f)
      → g.budget_checker ≡ some b
      → check_request_budget f b env.utc r.team r.project r.agent ≡ some e
      → OnlyAlerts s (proxy f lib g env r s).1
  over_budget_reaches_nothing b r e s h over =
      proxy_state f lib g env (OnlyAlerts s) r s refl
        (λ body model provider. admit_over_state b r e body model provider s h over)

  emit_marks :
      (percent : ℕ) (a : Alerts)
      → env.outside percent ≡ reachable
      → g.alert_store ≡ true
      → g.notifier ≡ true
      → is_some g.budget_checker ≡ true
      → holds_key (monthly_key env.utc percent) (emit_monthly f g env percent a).marked ≡ true
  unfolding emit_monthly_budget_alert_once goes_to_send send send_budget_alert_email
  emit_marks percent a o x y z = ground (arith, eq_refl "monthly")

  emit_keeps :
      (percent : ℕ) (k : Key) (a : Alerts)
      → KeepsMarks (env.others_alerts percent)
      → holds_key k a.marked ≡ true
      → holds_key k (emit_monthly f g env percent a).marked ≡ true
  unfolding emit_monthly_budget_alert_once goes_to_send send send_budget_alert_email
  emit_keeps percent k a keeps h =
      let others = env.others_alerts percent in
      let a1 = others.before_send a in
      let a2 =
        (send (alert_deps f g env) (env.outside percent) (monthly_key env.utc percent) a1).1 in
      ground (arith, keeps k a h, keeps k a2)

  module _ (b : Service f) (total : Carrier) where
    open b use {usage, cfg}

    monthly_is_exceeded :
        cfg.enabled ≡ true
        → usage.total_spend (monthly_window env.utc) ≡ spent total
        → le cfg.monthly_usd (of_nat 0) ≡ false
        → le cfg.monthly_usd total ≡ true
        → check_monthly_budget f b env.utc ≡ some monthly_exceeded
    unfolding check_monthly_budget
    monthly_is_exceeded on found positive over = ground arith

    request_is_exceeded :
        (team project agent : String)
        → cfg.enabled ≡ true
        → usage.total_spend (monthly_window env.utc) ≡ spent total
        → lt (of_nat 0) cfg.monthly_usd ≡ true
        → le cfg.monthly_usd total ≡ true
        → check_request_budget f b env.utc team project agent ≡ some monthly_exceeded
    unfolding check_request_budget
    request_is_exceeded team project agent on found positive over = ground arith

    admit_alerts :
        (r : Request) (body : List ℕ) (model provider : String) (s : State f)
        → g.budget_checker ≡ some b
        → check_monthly_budget f b env.utc ≡ some monthly_exceeded
        → check_request_budget f b env.utc r.team r.project r.agent ≡ some monthly_exceeded
        → (admit f lib g env r body model provider s).1.alerts
          ≡ emit_monthly f g env 100 (emit_monthly f g env 90 (emit_monthly f g env 80 s.alerts))
    unfolding admit check_budgets
    admit_alerts r body model provider s h m q = ground arith

    -- When the month's spending has reached a limit above 0, and there are an alert store and a notifier
    -- whose calls succeed, and no mark is taken back meanwhile, a request whose provider and model are chosen is answered with status 402,
    -- and the alerts of 80, 90 and 100 percent are all marked as sent for the month then.
    pub admit-monthly_exceeded :
        (r : Request) (body : List ℕ) (model provider : String) (s : State f)
        → g.budget_checker ≡ some b
        → cfg.enabled ≡ true
        → usage.total_spend (monthly_window env.utc) ≡ spent total
        → le cfg.monthly_usd (of_nat 0) ≡ false
        → lt (of_nat 0) cfg.monthly_usd ≡ true
        → le cfg.monthly_usd total ≡ true
        → g.alert_store ≡ true
        → g.notifier ≡ true
        → ((percent : ℕ) → env.outside percent ≡ reachable)
        → ((percent : ℕ) → KeepsMarks (env.others_alerts percent))
        → let out = admit f lib g env r body model provider s in
          (out.0 ≡ ok (some (new_json_error_response 402 (runes "monthly budget exceeded"))))
          × (holds_key (monthly_key env.utc 80) out.1.alerts.marked ≡ true)
          × (holds_key (monthly_key env.utc 90) out.1.alerts.marked ≡ true)
          × (holds_key (monthly_key env.utc 100) out.1.alerts.marked ≡ true)
    unfolding budget_refusal
    admit-monthly_exceeded r body model provider s h on found above positive over store mail fine
          keeps =
        let q = request_is_exceeded r.team r.project r.agent on found positive over in
        let a80 = emit_monthly f g env 80 s.alerts in
        let a90 = emit_monthly f g env 90 a80 in
        let there : is_some g.budget_checker ≡ true = ap is_some h in
        let k80 = monthly_key env.utc 80 in
        let m80 =
          emit_keeps 90 k80 a80 (keeps 90) (emit_marks 80 s.alerts (fine 80) store mail there) in
        let m90 = emit_marks 90 a80 (fine 90) store mail there in
        rw (admit_alerts r body model provider s h (monthly_is_exceeded on found above over) q) (
          admit_over b r monthly_exceeded body model provider s h q,
          emit_keeps 100 k80 a90 (keeps 100) m80,
          emit_keeps 100 (monthly_key env.utc 90) a90 (keeps 100) m90,
          emit_marks 100 a90 (fine 100) store mail there,
        )
