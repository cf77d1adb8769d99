-- ===== src/Budget/Thresholds.antt =====
-- internal/budget/service.go: the monthly thresholds, and how the service's answers agree.
use costguard.Base.{
  ℕ, ◌≤◌, ◌≡◌, ◌↔◌, inl, inr, true, false, Option, none, some, String, arith, refl, sym, ◌∙◌,
  Bool-cases, Option-cases, ◌≢◌, Dict, lookup,
}
use costguard.Base.Float.{Float, FloatLaws}
use costguard.Budget.{
  BudgetError, monthly_exceeded, reached_eighty, reached_ninety, Answer, Service, threshold,
  check_monthly_budget, check_request_budget, check_global, check_limit, or_else, team_exceeded,
  project_exceeded, agent_exceeded,
}
use costguard.Budget.Calendar.{UtcTime, Window, monthly_window}

-- How far a budget is spent, by the error that reports it.
abbrev pub severity : Option BudgetError → ℕ
severity (some monthly_exceeded) = 3
severity (some reached_ninety) = 2
severity (some reached_eighty) = 1
severity _ = 0

module _ (f : Float) (laws : FloatLaws f) where
  open f use {Carrier, le}

  -- As the month's spending grows, the threshold that is reported never falls: none, 80 %, 90 %,
  -- 100 %.
  pub threshold_mono :
      (monthly_usd total total' : Carrier)
      → le total total' ≡ true
      → severity (threshold f monthly_usd total) ≤ severity (threshold f monthly_usd total')
  unfolding threshold
  threshold_mono monthly_usd total total' h = ground (
    arith,
    laws.le_trans monthly_usd total total',
    laws.le_trans (f.mul monthly_usd (f.dec 9 1)) total total',
    laws.le_trans (f.mul monthly_usd (f.dec 8 1)) total total',
  )

  check_limit-ne :
      (e : BudgetError) (name : String) (limits : Dict Carrier)
      (spend_for : String → Window → Answer Carrier) (w : Window)
      → e ≢ monthly_exceeded
      → check_limit f e name limits spend_for w ≢ some monthly_exceeded
  unfolding check_limit
  check_limit-ne e name limits spend_for w ne = elim (Option-cases (lookup name limits)) [
    | inl missing ↦ ground arith
    | inr (limit, found) ↦ ground arith
  ]

  or_else-eq :
      (a b : Option BudgetError)
      → b ≢ some monthly_exceeded
      → or_else a b ≡ some monthly_exceeded
      → a ≡ some monthly_exceeded
  or_else-eq none b h e = absurd (h e)
  or_else-eq (some x) b h e = e

  or_else-ne :
      (a b : Option BudgetError)
      → a ≢ some monthly_exceeded
      → b ≢ some monthly_exceeded
      → or_else a b ≢ some monthly_exceeded
  or_else-ne none b h k = k
  or_else-ne (some x) b h k = h

  -- The scopes behind the first of `CheckRequestBudget`.
  scopes-ne :
      (s : Service f) (w : Window) (team project agent : String)
      → or_else (check_limit f team_exceeded team s.cfg.teams s.usage.spend_for_team w) (
          or_else
            (check_limit f project_exceeded project s.cfg.projects s.usage.spend_for_project w)
            (check_limit f agent_exceeded agent s.cfg.agents s.usage.spend_for_agent w))
        ≢ some monthly_exceeded
  scopes-ne s w team project agent =
      or_else-ne _ _ (check_limit-ne team_exceeded team _ _ w (λ e. cc)) (
        or_else-ne _ _ (check_limit-ne project_exceeded project _ _ w (λ e. cc))
          (check_limit-ne agent_exceeded agent _ _ w (λ e. cc)))

  global-monthly :
      (s : Service f) (now : UtcTime)
      → s.cfg.enabled ≡ true
      → (check_monthly_budget f s now ≡ some monthly_exceeded)
        ↔ (check_global f s (monthly_window now) ≡ some monthly_exceeded)
  unfolding check_monthly_budget check_global
  global-monthly s now h = ground (arith, laws.lt-eq-not_le (f.of_nat 0) s.cfg.monthly_usd)

  abbrev scopes : Service f → Window → String → String → String → Option BudgetError
  scopes s w team project agent =
      or_else (check_limit f team_exceeded team s.cfg.teams s.usage.spend_for_team w) (
        or_else (check_limit f project_exceeded project s.cfg.projects s.usage.spend_for_project w)
          (check_limit f agent_exceeded agent s.cfg.agents s.usage.spend_for_agent w))

  request-enabled :
      (s : Service f) (now : UtcTime) (team project agent : String)
      → s.cfg.enabled ≡ true
      → check_request_budget f s now team project agent
        ≡ or_else
            (check_global f s (monthly_window now))
            (scopes s (monthly_window now) team project agent)
  unfolding check_request_budget
  request-enabled s now team project agent h = rw h refl

  none_when_off :
      (s : Service f) (now : UtcTime) (team project agent : String)
      → s.cfg.enabled ≡ false
      → (check_monthly_budget f s now ≡ none)
        × (check_request_budget f s now team project agent ≡ none)
  unfolding check_monthly_budget check_request_budget
  none_when_off s now team project agent h = (rw h refl, rw h refl)

  or_else-some : (a b : Option BudgetError) (e : BudgetError) → a ≡ some e → or_else a b ≡ some e
  or_else-some a b e h = rw h

  -- With no change of the store in between, a request is refused for the month's budget exactly
  -- when the monthly check reports that budget as spent.
  pub monthly_checks_agree :
      (s : Service f) (now : UtcTime) (team project agent : String)
      → (check_monthly_budget f s now ≡ some monthly_exceeded)
        ↔ (check_request_budget f s now team project agent ≡ some monthly_exceeded)
  monthly_checks_agree s now team project agent = elim (Bool-cases s.cfg.enabled) [
    | inl on ↦
        let request = request-enabled s now team project agent on in
        let (to, from) = global-monthly s now on in
        (
          λ e. request ∙ or_else-some _ _ monthly_exceeded (to e),
          λ e. from (
              or_else-eq _ _ (scopes-ne s (monthly_window now) team project agent)
                (sym request ∙ e)),
        )
    | inr off ↦
        let (monthly, request) = none_when_off s now team project agent off in
        (λ e. cc (monthly, e), λ e. cc (request, e))
  ]
