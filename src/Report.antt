-- ===== src/Report.antt =====
-- internal/report: the monthly usage report, its mail, and the scheduler that sends it once a month. The
-- reader of the usage store, the notifier and the clock are parameters; the table of deliveries is
-- state, with the two statements of postgres_delivery_store.go as its operations.
pub mod Email
pub mod Once
mod Tests
use Prim.Native.String
use costguard.Base.{
  ℕ, ◌-◌, ◌*◌, String, Bool, true, false, not, ◌||◌, ◌&&◌, ◌==◌, List, [], ◌∷◌, ◌++◌, Option, none,
  some, str_eq, if◌then◌else◌, Result, ok, err, and_then, any,
}
use costguard.Budget.Calendar.{UtcTime, month_start}
use costguard.Gateway.Errors.{GoError}
use costguard.Report.Email.{MonthlySummary, Words, format_monthly_summary_email}

-- `usage` of the service: the four queries over a window.
pub record UsageReader (C : Type 0) : Type 0 where
  pub total_spend : UtcTime → UtcTime → Result GoError C
  pub by_team : UtcTime → UtcTime → Result GoError (List (String × C))
  pub by_provider : UtcTime → UtcTime → Result GoError (List (String × C))
  pub by_model : UtcTime → UtcTime → Result GoError (List (String × C))

-- `to.AddDate(0, -1, 0)`, from the beginning of a month.
abbrev pub last_month : UtcTime → UtcTime
last_month t =
    if t.month == 1
    then record t { year = t.year - 1; month = 12 }
    else record t { month = t.month - 1 }

unfoldable pub build_monthly_summary :
    {C : Type 0} → UsageReader C → UtcTime → Result GoError (MonthlySummary C)
build_monthly_summary usage now =
    let to = month_start now in
    let from = last_month to in
    and_then (usage.total_spend from to) (λ total. and_then (usage.by_team from to) (λ teams.
      and_then (usage.by_provider from to) (λ providers.
        and_then (usage.by_model from to) (λ models. ok (record {
          from = from;
          to = to;
          total_spend = total;
          by_team = teams;
          by_provider = providers;
          by_model = models;
        })))))

-- The table `monthly_reports`: the beginnings of periods, with the types of report.
abbrev pub Deliveries : Type 0
Deliveries = List (UtcTime × String)

abbrev pub same_time : UtcTime → UtcTime → Bool
same_time s t = s.year == t.year && (s.month == t.month && s.into == t.into)

unfoldable pub was_monthly_report_sent : Deliveries → UtcTime → String → Bool
was_monthly_report_sent d period kind = any (λ (p, k). same_time p period && str_eq k kind) d

-- `INSERT … ON CONFLICT DO NOTHING`
unfoldable pub mark_monthly_report_sent : Deliveries → UtcTime → String → Deliveries
unfolding was_monthly_report_sent
mark_monthly_report_sent d period kind =
    if was_monthly_report_sent d period kind then d else d ++ ((period, kind) ∷ [])

pub data ReportError : Type 0 where
  not_configured : String → ReportError
  failed : GoError → ReportError

-- Which of its parts an `EmailService` has.
pub record EmailService : Type 0 where
  pub reports : Bool
  pub notifier : Bool
  pub deliveries : Bool

-- An interval that is not positive is 0; it is in seconds.
pub record SchedulerConfig : Type 0 where
  pub enabled : Bool
  pub check_interval : ℕ
  pub run_on_startup : Bool

abbrev pub interval_of : SchedulerConfig → ℕ
interval_of cfg = if cfg.check_interval == 0 then 24 * 3600 else cfg.check_interval

-- A call at a time, with what the outside answers: the errors of the lookup, of the notifier and of
-- the mark, if any.
pub record Tick (C : Type 0) : Type 0 where
  pub now : UtcTime
  pub usage : UsageReader C
  pub lookup_error : Option GoError
  pub send_error : Option GoError
  pub mark_error : Option GoError

-- The deliveries, and the mails that the notifier has taken, with the times of the calls.
pub record State : Type 0 where
  pub deliveries : Deliveries
  pub mails : List (UtcTime × (String × String))

module _ {C : Type 0} (words : Words C) where
  unfoldable pub send_monthly_usage_report : Tick C → State → Result GoError Unit × State
  unfolding build_monthly_summary
  send_monthly_usage_report t s = elim (build_monthly_summary t.usage t.now) [
    | err e ↦ (err e, s)
    | ok summary ↦ elim t.send_error [
      | some e ↦ (err e, s)
      | none ↦ (
        ok tt,
        record s { mails = s.mails ++ ((t.now, format_monthly_summary_email words summary) ∷ []) },
      )
    ]
  ]

  -- The end of `SendMonthlyUsageReportIfNotSent`: sends the report, and marks it as sent.
  unfoldable pub send_and_mark : Tick C → State → Result ReportError Unit × State
  unfolding send_monthly_usage_report mark_monthly_report_sent
  send_and_mark t s =
      let (sent, s') = send_monthly_usage_report t s in
      elim sent [
        | err e ↦ (err (failed e), s')
        | ok u ↦ elim t.mark_error [
          | some e ↦ (err (failed e), s')
          | none ↦ (
            ok tt,
            record s' {
              deliveries = mark_monthly_report_sent s'.deliveries (month_start t.now) "usage";
            },
          )
        ]
      ]

  unfoldable pub send_monthly_usage_report_if_not_sent :
      EmailService → Tick C → State → Result ReportError Unit × State
  unfolding send_and_mark was_monthly_report_sent
  send_monthly_usage_report_if_not_sent service t s =
      if not service.reports
      then (err (not_configured "report service"), s)
      else if not service.notifier
      then (err (not_configured "notifier"), s)
      else if not service.deliveries
      then (err (not_configured "delivery store"), s)
      else elim t.lookup_error [
        | some e ↦ (err (failed e), s)
        | none ↦
            if was_monthly_report_sent s.deliveries (month_start t.now) "usage"
            then (ok tt, s)
            else send_and_mark t s
      ]

  -- `runOnce`, which logs an error.
  unfoldable pub run_once : EmailService → Tick C → State → State
  unfolding send_monthly_usage_report_if_not_sent
  run_once service t s = (send_monthly_usage_report_if_not_sent service t s).1

  unfoldable pub run_ticks : EmailService → List (Tick C) → State → State
  unfolding run_once
  run_ticks service [] s = s
  run_ticks service (t ∷ ts) s = run_ticks service ts (run_once service t s)

  -- `Start`, with the tick at the start, and those of the ticker until the context ends. `email` is
  -- nothing where there is no email service.
  unfoldable pub start :
      Option EmailService → SchedulerConfig → Tick C → List (Tick C) → State → State
  unfolding run_ticks
  start email cfg first ts s = elim email [
    | none ↦ s
    | some service ↦
        if not cfg.enabled
        then s
        else run_ticks service ts (if cfg.run_on_startup then run_once service first s else s)
  ]
