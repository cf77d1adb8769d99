-- ===== src/Proxy/Admission.antt =====
-- internal/gateway/proxy.go: the budget checks that a request passes, with the alerts they cause.
use costguard.Base.{ℕ, String, Option, none, some, runes, Result, ok, err}
use costguard.Base.Float.{Float}
use costguard.Budget.{
  BudgetError, monthly_exceeded, reached_eighty, reached_ninety, team_exceeded, project_exceeded,
  agent_exceeded, store_failed, check_monthly_budget, check_request_budget,
}
use costguard.Alerts.{Deps, Alerts, emit_monthly_budget_alert_once, emit_agent_budget_alert_once}
use costguard.Gateway.Errors.{GoError, plain_error}
use costguard.Proxy.Types.{Request, Gateway, Environment, HttpResponse}
use costguard.Proxy.Routing.{is_some}
use costguard.Proxy.Responses.{new_json_error_response}

-- `err.Error()` of what the checker returns.
abbrev pub budget_error_text : BudgetError → String
budget_error_text monthly_exceeded = "monthly budget exceeded"
budget_error_text reached_eighty = "monthly budget reached 80%"
budget_error_text reached_ninety = "monthly budget reached 90%"
budget_error_text team_exceeded = "team monthly budget exceeded"
budget_error_text project_exceeded = "project monthly budget exceeded"
budget_error_text agent_exceeded = "agent monthly budget exceeded"
budget_error_text (store_failed e) = e

-- What the client gets: a limit that is reached is status 402, any other error is returned.
unfoldable pub budget_refusal : BudgetError → Result GoError (Option HttpResponse)
budget_refusal monthly_exceeded =
    ok (some (new_json_error_response 402 (runes "monthly budget exceeded")))
budget_refusal team_exceeded =
    ok (some (new_json_error_response 402 (runes "team monthly budget exceeded")))
budget_refusal project_exceeded =
    ok (some (new_json_error_response 402 (runes "project monthly budget exceeded")))
budget_refusal agent_exceeded =
    ok (some (new_json_error_response 402 (runes "agent monthly budget exceeded")))
budget_refusal reached_eighty = err (plain_error (runes (budget_error_text reached_eighty)))
budget_refusal reached_ninety = err (plain_error (runes (budget_error_text reached_ninety)))
budget_refusal (store_failed e) = err (plain_error (runes e))

module _ (f : Float) (g : Gateway f) (env : Environment f) where
  abbrev pub alert_deps : Deps
  alert_deps = record {
    alert_store = g.alert_store;
    budget_checker = is_some g.budget_checker;
    notifier = g.notifier;
    log = g.log;
  }

  abbrev pub emit_monthly : ℕ → Alerts → Alerts
  emit_monthly percent a =
      emit_monthly_budget_alert_once alert_deps (env.outside percent) (env.others_alerts percent)
        env.utc percent a

  -- The threshold alerts: a threshold that is passed implies those below it.
  unfoldable pub threshold_alerts : Option BudgetError → Alerts → Alerts
  threshold_alerts (some monthly_exceeded) a = emit_monthly 90 (emit_monthly 80 a)
  threshold_alerts (some reached_ninety) a = emit_monthly 90 (emit_monthly 80 a)
  threshold_alerts (some reached_eighty) a = emit_monthly 80 a
  threshold_alerts _ a = a

  -- The alerts of a refusal.
  unfoldable pub refusal_alerts : Request → BudgetError → Alerts → Alerts
  refusal_alerts r monthly_exceeded a = emit_monthly 100 a
  refusal_alerts r agent_exceeded a =
      emit_agent_budget_alert_once alert_deps (env.outside 100) (env.others_alerts 100) env.utc
        r.agent a
  refusal_alerts r _ a = a

  -- The refusal, if there is one, and the alerts that have been sent.
  unfoldable pub check_budgets : Request → Alerts → Option BudgetError × Alerts
  unfolding threshold_alerts refusal_alerts
  check_budgets r a = elim g.budget_checker [
    | none ↦ (none, a)
    | some s ↦
        let a1 = threshold_alerts (check_monthly_budget f s env.utc) a in
        elim (check_request_budget f s env.utc r.team r.project r.agent) [
          | none ↦ (none, a1)
          | some e ↦ (some e, refusal_alerts r e a1)
        ]
  ]
