-- ===== src/Budget/Scopes.antt =====
-- internal/budget/service.go: which scope's limit refuses a request.
use mathlib.Core.Path.{ap₂}
use costguard.Base.{
  ◌≡◌, ◌↔◌, inl, inr, Bool, true, false, ◌&&◌, Option, none, some, String, List, [], ◌∷◌, ◌++◌,
  arith, refl, sym, ◌∙◌, if◌then◌else◌, Option-cases, Dict, lookup, str_eq, All,
}
use costguard.Base.Float.{Float}
use costguard.Budget.{
  BudgetError, monthly_exceeded, Answer, spent, Service, check_request_budget, check_global,
  check_limit, or_else, team_exceeded, project_exceeded, agent_exceeded,
}
use costguard.Budget.Calendar.{UtcTime, Window, monthly_window}

module _ (f : Float) where
  open f use {Carrier, le, lt, of_nat}

  -- A scope that applies to a request: its limit and what is spent, in the order of the checks.
  pub record Scope : Type 0 where
    pub limit : Carrier
    pub spend : Carrier
    pub error : BudgetError

  -- A positive limit that is reached.
  abbrev pub reached : Scope → Bool
  reached c = lt (of_nat 0) c.limit && le c.limit c.spend

  -- The specification: the error of the first scope whose positive limit is reached.
  abbrev pub first_reached : List Scope → Option BudgetError
  first_reached [] = none
  first_reached (c ∷ cs) = if reached c then some c.error else first_reached cs

  -- A store that answers every query, with the sums it answers.
  pub record Answers (s : Service f) (w : Window) : Type 0 where
    pub total : Carrier
    pub team : String → Carrier
    pub project : String → Carrier
    pub agent : String → Carrier
    pub total_eq : s.usage.total_spend w ≡ spent total
    pub team_eq : (name : String) → s.usage.spend_for_team name w ≡ spent (team name)
    pub project_eq : (name : String) → s.usage.spend_for_project name w ≡ spent (project name)
    pub agent_eq : (name : String) → s.usage.spend_for_agent name w ≡ spent (agent name)

  -- The scope of a name, if it is not empty and has a limit.
  abbrev pub scope_of : BudgetError → String → Dict Carrier → (String → Carrier) → List Scope
  scope_of error name limits spend_for = if str_eq name "" then [] else elim (lookup name limits) [
    | none ↦ []
    | some limit ↦ record { limit = limit; spend = spend_for name; error = error } ∷ []
  ]

  first_reached-append :
      (cs ds : List Scope)
      → first_reached (cs ++ ds) ≡ or_else (first_reached cs) (first_reached ds)
  first_reached-append [] ds = refl
  first_reached-append (c ∷ cs) ds = ground (arith, first_reached-append cs ds)

  check_limit-scope_of :
      (error : BudgetError) (name : String) (limits : Dict Carrier)
      (spend_for : String → Window → Answer Carrier) (w : Window) (sums : String → Carrier)
      → spend_for name w ≡ spent (sums name)
      → check_limit f error name limits spend_for w
        ≡ first_reached (scope_of error name limits sums)
  unfolding check_limit
  check_limit-scope_of error name limits spend_for w sums e =
      elim (Option-cases (lookup name limits)) [
        | inl missing ↦ ground arith
        | inr (limit, found) ↦ ground arith
      ]

  abbrev pub global_scope : Service f → Carrier → List Scope
  global_scope s total =
      record { limit = s.cfg.monthly_usd; spend = total; error = monthly_exceeded } ∷ []

  check_global-scope :
      (s : Service f) (w : Window) (total : Carrier)
      → s.usage.total_spend w ≡ spent total
      → check_global f s w ≡ first_reached (global_scope s total)
  unfolding check_global
  check_global-scope s w total e = ground arith

  -- The scopes of a request, in the order in which they are checked.
  abbrev pub scopes_of :
      (s : Service f) (w : Window) → Answers s w → String → String → String → List Scope
  scopes_of s w a team project agent =
      global_scope s a.total
      ++ (scope_of team_exceeded team s.cfg.teams a.team
          ++ (scope_of project_exceeded project s.cfg.projects a.project
              ++ scope_of agent_exceeded agent s.cfg.agents a.agent))

  request_scopes :
      (s : Service f) (now : UtcTime) (team project agent : String)
      (a : Answers s (monthly_window now))
      → s.cfg.enabled ≡ true
      → check_request_budget f s now team project agent
        ≡ first_reached (scopes_of s (monthly_window now) a team project agent)
  unfolding check_request_budget
  request_scopes s now team project agent a on =
      let w = monthly_window now in
      rw on (
        ap₂ or_else (check_global-scope s w a.total a.total_eq) (
          ap₂ or_else
            (check_limit-scope_of team_exceeded team s.cfg.teams s.usage.spend_for_team w a.team
              (a.team_eq team))
            (ap₂ or_else
                (check_limit-scope_of project_exceeded project s.cfg.projects
                  s.usage.spend_for_project w a.project (a.project_eq project))
                (check_limit-scope_of agent_exceeded agent s.cfg.agents s.usage.spend_for_agent w
                  a.agent (a.agent_eq agent))
              ∙ sym (
                  first_reached-append (scope_of project_exceeded project s.cfg.projects a.project)
                    (scope_of agent_exceeded agent s.cfg.agents a.agent)))
          ∙ sym (first_reached-append (scope_of team_exceeded team s.cfg.teams a.team) _))
        ∙ sym (first_reached-append (global_scope s a.total) _))

  first_reached-none :
      (cs : List Scope) → (first_reached cs ≡ none) ↔ All (λ c. reached c ≡ false) cs
  first_reached-none [] = (λ e. tt, λ a. refl)
  first_reached-none (c ∷ cs) = ground (arith, first_reached-none cs)

  -- With a store that answers every query, an enabled service refuses a request with the error of
  -- the first scope, of the month, its team, its project and its agent, whose positive limit is
  -- reached, and lets it through exactly when none is. A scope with no name or no limit does not
  -- count.
  pub check_request_budget-scopes :
      (s : Service f) (now : UtcTime) (team project agent : String)
      (a : Answers s (monthly_window now))
      → s.cfg.enabled ≡ true
      → let scopes = scopes_of s (monthly_window now) a team project agent in
        (check_request_budget f s now team project agent ≡ first_reached scopes)
        × ((check_request_budget f s now team project agent ≡ none)
            ↔ All (λ c. reached c ≡ false) scopes)
  check_request_budget-scopes s now team project agent a on =
      let e = request_scopes s now team project agent a on in
      (e, rw e (first_reached-none (scopes_of s (monthly_window now) a team project agent)))
