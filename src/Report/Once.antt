-- ===== src/Report/Once.antt =====
-- internal/report/sender.go and scheduler.go: a report is sent once a month.
use costguard.Base.{
  ℕ, ◌+◌, ◌≤◌, ◌≡◌, inl, inr, refl, String, true, ◌||◌, List, [], ◌∷◌, ◌++◌, Option, none, some,
  if◌then◌else◌, ok, arith, Bool-cases, Result-cases, All, Ensures, ensured, Ensures-and_then,
  Ensures-any,
}
use costguard.Budget.Calendar.{UtcTime, month_start, monthly_window, IsMonth}
use costguard.Report.Email.{Words, MonthlySummary, format_monthly_summary_email}
use costguard.Report

-- The mails that were sent in a month, which is given by its beginning.
abbrev pub sent_in : UtcTime → List (UtcTime × (String × String)) → ℕ
sent_in p [] = 0
sent_in p ((t, mail) ∷ mails) =
    let rest = sent_in p mails in if Report.same_time (month_start t) p then 1 + rest else rest

sent_in-append :
    (p t : UtcTime) (mail : String × String) (mails : List (UtcTime × (String × String)))
    → sent_in p (mails ++ ((t, mail) ∷ []))
      ≡ sent_in p mails + (if Report.same_time (month_start t) p then 1 else 0)
sent_in-append p t mail [] = ground arith
sent_in-append p t mail ((u, other) ∷ mails) = ground (arith, sent_in-append p t mail mails)

was-append :
    (p q : UtcTime) (d : Report.Deliveries)
    → Report.was_monthly_report_sent (d ++ ((q, "usage") ∷ [])) p "usage"
      ≡ (Report.was_monthly_report_sent d p "usage" || Report.same_time q p)
unfolding Report.was_monthly_report_sent
was-append p q [] = ground arith
was-append p q ((r, k) ∷ d) = ground (arith, was-append p q d)

was-same_time :
    (p q : UtcTime) (d : Report.Deliveries)
    → Report.same_time q p ≡ true
    → Report.was_monthly_report_sent d p "usage" ≡ Report.was_monthly_report_sent d q "usage"
unfolding Report.was_monthly_report_sent
was-same_time p q [] h = refl
was-same_time p q ((r, k) ∷ d) h = ground (arith, was-same_time p q d h)

was-mark :
    (p q : UtcTime) (d : Report.Deliveries)
    → Report.was_monthly_report_sent (Report.mark_monthly_report_sent d q "usage") p "usage"
      ≡ (Report.was_monthly_report_sent d p "usage" || Report.same_time q p)
unfolding Report.mark_monthly_report_sent
was-mark p q d = elim (Bool-cases (Report.was_monthly_report_sent d q "usage")) [
  | inl e ↦ ground (arith, was-same_time p q d)
  | inr e ↦ ground (arith, was-append p q d)
]

module _ {C : Type 0} (words : Words C) where
  -- The mails of each month are as many as its deliveries: one or none.
  abbrev Kept : Report.State → Type 0
  Kept s =
      (p : UtcTime)
      → sent_in p s.mails ≡ (if Report.was_monthly_report_sent s.deliveries p "usage" then 1 else 0)

  Kept-run_once :
      (service : Report.EmailService) (t : Report.Tick C) (s : Report.State)
      → t.mark_error ≡ none
      → Kept s
      → Kept (Report.run_once words service t s)
  unfolding Report.run_once Report.send_monthly_usage_report_if_not_sent Report.send_and_mark
      Report.send_monthly_usage_report
  Kept-run_once service t s m w p =
      let mail = λ (x : MonthlySummary C). format_monthly_summary_email words x in
      elim (Result-cases (Report.build_monthly_summary t.usage t.now)) [
        | inl (e, q) ↦ ground (arith, w p)
        | inr (x, q) ↦ ground (
          arith,
          w p,
          sent_in-append p t.now (mail x) s.mails,
          was-mark p (month_start t.now) s.deliveries,
          was-same_time p (month_start t.now) s.deliveries,
        )
      ]

  Kept-run_ticks :
      (service : Report.EmailService) (ts : List (Report.Tick C)) (s : Report.State)
      → All (λ t. t.mark_error ≡ none) ts
      → Kept s
      → Kept (Report.run_ticks words service ts s)
  unfolding Report.run_ticks
  Kept-run_ticks service [] s m w = w
  Kept-run_ticks service (t ∷ ts) s m w =
      Kept-run_ticks service ts (Report.run_once words service t s) m.1
        (Kept-run_once service t s m.0 w)

  abbrev pub nothing_sent : Report.State
  nothing_sent = record { deliveries = []; mails = [] }

  Kept-start :
      (email : Option Report.EmailService) (cfg : Report.SchedulerConfig) (first : Report.Tick C)
      (ts : List (Report.Tick C))
      → All (λ t. t.mark_error ≡ none) (first ∷ ts)
      → Kept (Report.start words email cfg first ts nothing_sent)
  unfolding Report.start Report.was_monthly_report_sent
  Kept-start none cfg first ts m = λ p. refl
  Kept-start (some service) cfg first ts m = elim (Bool-cases cfg.enabled) [
    | inr e ↦ rw e (λ p. refl)
    | inl e ↦ elim (Bool-cases cfg.run_on_startup) [
      | inl q ↦
          rw (e, q)
            (Kept-run_ticks service ts (Report.run_once words service first nothing_sent) m.1
              (Kept-run_once service first nothing_sent m.0 (λ p. refl)))
      | inr q ↦ rw (e, q) (Kept-run_ticks service ts nothing_sent m.1 (λ p. refl))
    ]
  ]

  -- Over any ticks, of which none fails to mark a report as sent, no month has more than one mail.
  pub one_mail_a_month :
      (email : Option Report.EmailService) (cfg : Report.SchedulerConfig) (first : Report.Tick C)
      (ts : List (Report.Tick C)) (p : UtcTime)
      → All (λ t. t.mark_error ≡ none) (first ∷ ts)
      → sent_in p (Report.start words email cfg first ts nothing_sent).mails ≤ 1
  one_mail_a_month email cfg first ts p m =
      let kept = Kept-start email cfg first ts m p in ground arith

  -- What was delivered stays so.
  run_once-delivered :
      (service : Report.EmailService) (t : Report.Tick C) (s : Report.State) (p : UtcTime)
      → Report.was_monthly_report_sent s.deliveries p "usage" ≡ true
      → Report.was_monthly_report_sent (Report.run_once words service t s).deliveries p "usage"
        ≡ true
  unfolding Report.run_once Report.send_monthly_usage_report_if_not_sent Report.send_and_mark
      Report.send_monthly_usage_report
  run_once-delivered service t s p h =
      elim (Result-cases (Report.build_monthly_summary t.usage t.now)) [
        | inl (e, q) ↦ ground arith
        | inr (x, q) ↦ ground (arith, was-mark p (month_start t.now) s.deliveries)
      ]

  run_ticks-delivered :
      (service : Report.EmailService) (ts : List (Report.Tick C)) (s : Report.State) (p : UtcTime)
      → Report.was_monthly_report_sent s.deliveries p "usage" ≡ true
      → Report.was_monthly_report_sent (Report.run_ticks words service ts s).deliveries p "usage"
        ≡ true
  unfolding Report.run_ticks
  run_ticks-delivered service [] s p h = h
  run_ticks-delivered service (t ∷ ts) s p h =
      run_ticks-delivered service ts (Report.run_once words service t s) p
        (run_once-delivered service t s p h)

  -- A service that has its parts, and a tick in which no call fails.
  abbrev pub IsReady : Report.EmailService → Type 0
  IsReady service =
      (service.reports ≡ true) × (service.notifier ≡ true) × (service.deliveries ≡ true)

  abbrev pub Succeeds : Report.Tick C → MonthlySummary C → Type 0
  Succeeds t x =
      (Report.build_monthly_summary t.usage t.now ≡ ok x)
      × (t.lookup_error ≡ none)
      × (t.send_error ≡ none)
      × (t.mark_error ≡ none)

  run_once-Succeeds :
      (service : Report.EmailService) (t : Report.Tick C) (x : MonthlySummary C) (s : Report.State)
      → IsReady service
      → Succeeds t x
      → Report.was_monthly_report_sent
          (Report.run_once words service t s).deliveries
          (month_start t.now)
          "usage"
        ≡ true
  unfolding Report.run_once Report.send_monthly_usage_report_if_not_sent Report.send_and_mark
      Report.send_monthly_usage_report
  run_once-Succeeds service t x s r h =
      let now = month_start t.now in ground (arith, was-mark now now s.deliveries)

  run_ticks-Succeeds :
      (service : Report.EmailService) (before after : List (Report.Tick C)) (t : Report.Tick C)
      (x : MonthlySummary C) (s : Report.State)
      → IsReady service
      → Succeeds t x
      → Report.was_monthly_report_sent
          (Report.run_ticks words service (before ++ (t ∷ after)) s).deliveries
          (month_start t.now)
          "usage"
        ≡ true
  unfolding Report.run_ticks
  run_ticks-Succeeds service [] after t x s r h =
      run_ticks-delivered service after (Report.run_once words service t s) (month_start t.now)
        (run_once-Succeeds service t x s r h)
  run_ticks-Succeeds service (u ∷ before) after t x s r h =
      run_ticks-Succeeds service before after t x (Report.run_once words service u s) r h

  -- With the scheduler enabled and its service whole, a tick in whose month no call fails is enough for
  -- the month to have its mail, exactly one, whatever fails at the other ticks, but for the marks.
  pub exactly_one_mail :
      (service : Report.EmailService) (cfg : Report.SchedulerConfig) (first : Report.Tick C)
      (before after : List (Report.Tick C)) (t : Report.Tick C) (x : MonthlySummary C)
      → cfg.enabled ≡ true
      → IsReady service
      → Succeeds t x
      → All (λ u. u.mark_error ≡ none) (first ∷ (before ++ (t ∷ after)))
      → sent_in
          (month_start t.now)
          (Report.start words (some service) cfg first (before ++ (t ∷ after)) nothing_sent).mails
        ≡ 1
  unfolding Report.start
  exactly_one_mail service cfg first before after t x e r h m =
      let kept =
        Kept-start (some service) cfg first (before ++ (t ∷ after)) m (month_start t.now) in
      let done = run_ticks-Succeeds service before after t x in
      ground
        (arith, done (Report.run_once words service first nothing_sent) r h, done nothing_sent r h)

-- The times of a summary.
abbrev Covers : {C : Type 0} → UtcTime → MonthlySummary C → Type 0
Covers now x = (x.from ≡ Report.last_month (month_start now)) × (x.to ≡ month_start now)

build_monthly_summary-Covers :
    {C : Type 0} (usage : Report.UsageReader C) (now : UtcTime)
    → Ensures (Covers now) (Report.build_monthly_summary usage now)
unfolding Report.build_monthly_summary
build_monthly_summary-Covers usage now =
    let to = month_start now in
    let from = Report.last_month to in
    Ensures-and_then (λ a. Unit {0}) (Covers now) (usage.total_spend from to) _
      (Ensures-any (usage.total_spend from to))
      (λ a u.
        Ensures-and_then (λ b. Unit {0}) (Covers now) (usage.by_team from to) _
          (Ensures-any (usage.by_team from to))
          (λ b v.
            Ensures-and_then (λ c. Unit {0}) (Covers now) (usage.by_provider from to) _
              (Ensures-any (usage.by_provider from to))
              (λ c w.
                Ensures-and_then (λ d. Unit {0}) (Covers now) (usage.by_model from to) _
                  (Ensures-any (usage.by_model from to)) (λ d x. (refl, refl)))))

-- The report of a month covers the month before: it begins where the budgets' window of that month
-- does, and ends with it, where the window of the month itself begins.
pub build_monthly_summary-monthly_window :
    {C : Type 0} (usage : Report.UsageReader C) (now : UtcTime) (x : MonthlySummary C)
    → IsMonth now
    → 1 ≤ now.year
    → Report.build_monthly_summary usage now ≡ ok x
    → ((monthly_window x.from).start ≡ x.from)
      × ((monthly_window x.from).end ≡ x.to)
      × (x.to ≡ (monthly_window now).start)
unfolding monthly_window
build_monthly_summary-monthly_window usage now x m y h =
    let covers =
      ensured (Covers now) (Report.build_monthly_summary usage now)
        (build_monthly_summary-Covers usage now) h in
    ground arith
