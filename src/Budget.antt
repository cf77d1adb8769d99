-- ===== src/Budget.antt =====
-- internal/budget/service.go: spending limits per month, overall and by team, project and agent.
-- The usage store is a database: `UsageReader` is what the service asks of it, for a window of time.
pub mod Calendar
pub mod Thresholds
pub mod Scopes
mod Tests
use costguard.Base.{
  ℕ, String, Bool, true, false, not, ◌&&◌, Option, none, some, Dict, lookup, if◌then◌else◌, str_eq,
}
use costguard.Base.Float.{Float}
use costguard.Budget.Calendar.{UtcTime, Window, monthly_window}

pub data BudgetError : Type 0 where
  monthly_exceeded reached_eighty reached_ninety team_exceeded project_exceeded agent_exceeded :
      BudgetError
  store_failed : String → BudgetError

-- A query of the store: a sum of money, or the text of an error.
pub data Answer (C : Type 0) : Type 0 where
  spent : C → Answer C
  failed : String → Answer C

pub record UsageReader (C : Type 0) : Type 0 where
  pub total_spend : Window → Answer C
  pub spend_for_team : String → Window → Answer C
  pub spend_for_project : String → Window → Answer C
  pub spend_for_agent : String → Window → Answer C

pub record Config (C : Type 0) : Type 0 where
  pub enabled : Bool
  pub monthly_usd : C
  pub teams : Dict C
  pub projects : Dict C
  pub agents : Dict C

-- The first of two checks that fails.
abbrev pub or_else : Option BudgetError → Option BudgetError → Option BudgetError
or_else none next = next
or_else (some e) next = some e

module _ (f : Float) where
  open f use {Carrier, dec, of_nat, sub, mul, div, le, lt}

  pub record Service : Type 0 where
    pub usage : UsageReader Carrier
    pub cfg : Config Carrier

  -- The comparisons of `CheckMonthlyBudget` with the total.
  unfoldable pub threshold : Carrier → Carrier → Option BudgetError
  threshold monthly_usd total =
      if le monthly_usd total
      then some monthly_exceeded
      else if le (mul monthly_usd (dec 9 1)) total
      then some reached_ninety
      else if le (mul monthly_usd (dec 8 1)) total
      then some reached_eighty
      else none

  unfoldable pub check_monthly_budget : Service → UtcTime → Option BudgetError
  unfolding threshold
  check_monthly_budget s now =
      if not s.cfg.enabled
      then none
      else if le s.cfg.monthly_usd (of_nat 0)
      then none
      else elim (s.usage.total_spend (monthly_window now)) [
        | failed e ↦ some (store_failed e)
        | spent total ↦ threshold s.cfg.monthly_usd total
      ]

  -- One scope of `CheckRequestBudget`: a name with no limit, or an empty one, is not checked.
  unfoldable pub check_limit :
      BudgetError
      → String
      → Dict Carrier
      → (String → Window → Answer Carrier)
      → Window
      → Option BudgetError
  check_limit exceeded name limits spend_for w =
      if str_eq name "" then none else elim (lookup name limits) [
        | none ↦ none
        | some limit ↦ elim (spend_for name w) [
          | failed e ↦ some (store_failed e)
          | spent spend ↦ if lt (of_nat 0) limit && le limit spend then some exceeded else none
        ]
      ]

  unfoldable pub check_global : Service → Window → Option BudgetError
  check_global s w =
      if lt (of_nat 0) s.cfg.monthly_usd
      then elim (s.usage.total_spend w) [
        | failed e ↦ some (store_failed e)
        | spent total ↦ if le s.cfg.monthly_usd total then some monthly_exceeded else none
      ]
      else none

  unfoldable pub check_request_budget :
      Service → UtcTime → String → String → String → Option BudgetError
  unfolding check_limit check_global
  check_request_budget s now team project agent =
      let w = monthly_window now in
      if not s.cfg.enabled
      then none
      else or_else (check_global s w) (
          or_else (check_limit team_exceeded team s.cfg.teams s.usage.spend_for_team w) (
            or_else
              (check_limit project_exceeded project s.cfg.projects s.usage.spend_for_project w)
              (check_limit agent_exceeded agent s.cfg.agents s.usage.spend_for_agent w)))

  pub record Status : Type 0 where
    pub period : Window
    pub monthly_budget_usd : Carrier
    pub current_spend_usd : Carrier
    pub percentage_used : Carrier
    pub remaining_budget_usd : Carrier
    pub exceeded : Bool

  -- The status that `GetMonthlyStatus` makes of the total.
  unfoldable pub status_of : Service → Window → Carrier → Status
  status_of s w total = record {
    period = w;
    monthly_budget_usd = s.cfg.monthly_usd;
    current_spend_usd = total;
    percentage_used =
        if lt (of_nat 0) s.cfg.monthly_usd
        then mul (div total s.cfg.monthly_usd) (of_nat 100)
        else of_nat 0;
    remaining_budget_usd =
        (let remaining = sub s.cfg.monthly_usd total in
          if lt remaining (of_nat 0) then of_nat 0 else remaining);
    exceeded = le s.cfg.monthly_usd total && lt (of_nat 0) s.cfg.monthly_usd;
  }

  unfoldable pub get_monthly_status : Service → UtcTime → Answer Status
  unfolding status_of
  get_monthly_status s now = elim (s.usage.total_spend (monthly_window now)) [
    | failed e ↦ failed e
    | spent total ↦ spent (status_of s (monthly_window now) total)
  ]
