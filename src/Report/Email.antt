-- ===== src/Report/Email.antt =====
-- internal/report/email.go: the mail's text. The formatting of times and amounts is a parameter.
use Prim.Native.String
use costguard.Base.{String, List, [], ◌∷◌, str_eq, if◌then◌else◌, is_empty}
use costguard.Budget.Calendar.{UtcTime}

pub record MonthlySummary (C : Type 0) : Type 0 where
  pub from : UtcTime
  pub to : UtcTime
  pub total_spend : C
  pub by_team : List (String × C)
  pub by_provider : List (String × C)
  pub by_model : List (String × C)

-- `Format("2006-01")`, `Format("2006-01-02")` and `%.6f`.
pub record Words (C : Type 0) : Type 0 where
  pub month : UtcTime → String
  pub day : UtcTime → String
  pub amount : C → String

-- `b.WriteString(…)` of texts in turn.
abbrev pub written : List String → String
written [] = ""
written (s ∷ ss) = String.◌++◌ s (written ss)

module _ {C : Type 0} (words : Words C) where
  abbrev pub item_line : String → C → String
  item_line name spend =
      written (
        "- " ∷ (if str_eq name "" then "(none)" else name) ∷ ": $" ∷ words.amount spend ∷ "\n" ∷ [])

  abbrev pub item_lines : List (String × C) → List String
  item_lines [] = []
  item_lines ((name, spend) ∷ items) = item_line name spend ∷ item_lines items

  abbrev pub section_of : List (String × C) → String
  section_of items = if is_empty items then "- none\n" else written (item_lines items)

  -- The subject and the text.
  unfoldable pub format_monthly_summary_email : MonthlySummary C → String × String
  format_monthly_summary_email s = (
    written ("[Costguard] Monthly usage report (" ∷ words.month s.from ∷ ")" ∷ []),
    written (
        "Costguard monthly usage report\n\n"
        ∷ "Period: "
        ∷ words.day s.from
        ∷ " to "
        ∷ words.day s.to
        ∷ "\n"
        ∷ "Total spend: $"
        ∷ words.amount s.total_spend
        ∷ "\n\n"
        ∷ "Spend by team:\n"
        ∷ section_of s.by_team
        ∷ "\n"
        ∷ "Spend by provider:\n"
        ∷ section_of s.by_provider
        ∷ "\n"
        ∷ "Spend by model:\n"
        ∷ section_of s.by_model
        ∷ []),
  )
