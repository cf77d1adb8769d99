-- ===== src/Budget/Tests.antt =====
-- internal/budget/service.go: runs on concrete inputs, and the theorems at inputs that meet their hypotheses.
use costguard.Base.{ℕ, ◌≡◌, ◌↔◌, true, false, ◌*◌, none, some, ◌∷◌, [], refl, All}
use costguard.Base.Float.Scaled.{scaled, scaled-laws, scale}
use costguard.Budget.{
  UsageReader, Service, spent, monthly_exceeded, team_exceeded, check_request_budget,
  check_monthly_budget, check_limit, check_global,
}
use costguard.Budget.Calendar.{UtcTime, monthly_window}
use costguard.Budget.Thresholds.{monthly_checks_agree}
use costguard.Budget.Scopes.{
  Answers, scopes_of, first_reached, reached, check_request_budget-scopes,
}

abbrev christmas : UtcTime
christmas = record { year = 2024; month = 12; into = 2_073_600_000_000_000 }

-- 50 dollars are spent, of which the team "core" has spent 30.
abbrev store : UsageReader ℕ
store = record {
  total_spend = λ w. spent (50 * scale);
  spend_for_team = λ name w. spent (30 * scale);
  spend_for_project = λ name w. spent 0;
  spend_for_agent = λ name w. spent 0;
}

abbrev service : Service scaled
service = record {
  usage = store;
  cfg = record {
    enabled = true;
    monthly_usd = 60 * scale;
    teams = ("core", 30 * scale) ∷ [];
    projects = [];
    agents = [];
  };
}

core_is_refused : check_request_budget scaled service christmas "core" "" "" ≡ some team_exceeded
unfolding check_request_budget check_limit check_global
core_is_refused = refl

others_pass : check_request_budget scaled service christmas "web" "" "" ≡ none
unfolding check_request_budget check_limit check_global
others_pass = refl

monthly_checks_agree_example :
    (check_monthly_budget scaled service christmas ≡ some monthly_exceeded)
    ↔ (check_request_budget scaled service christmas "core" "" "" ≡ some monthly_exceeded)
monthly_checks_agree_example =
    monthly_checks_agree scaled scaled-laws service christmas "core" "" ""

abbrev sums : Answers scaled service (monthly_window christmas)
sums = record {
  total = 50 * scale;
  team = λ name. 30 * scale;
  project = λ name. 0;
  agent = λ name. 0;
  total_eq = refl;
  team_eq = λ name. refl;
  project_eq = λ name. refl;
  agent_eq = λ name. refl;
}

check_request_budget-scopes_example :
    let scopes = scopes_of scaled service (monthly_window christmas) sums "core" "" "" in
    (check_request_budget scaled service christmas "core" "" "" ≡ first_reached scaled scopes)
    × ((check_request_budget scaled service christmas "core" "" "" ≡ none)
        ↔ All (λ c. reached scaled c ≡ false) scopes)
check_request_budget-scopes_example =
    check_request_budget-scopes scaled service christmas "core" "" "" sums refl
