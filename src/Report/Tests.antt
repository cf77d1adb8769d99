-- ===== src/Report/Tests.antt =====
-- internal/report: the theorems at ticks that meet their hypotheses.
use costguard.Base.{ℕ, ◌≡◌, ◌≤◌, refl, true, false, [], ◌∷◌, ◌++◌, none, some, ok, runes}
use costguard.Budget.Calendar.{UtcTime, month_start}
use costguard.Gateway.Errors.{GoError}
use costguard.Report.{
  UsageReader, build_monthly_summary, Tick, EmailService, SchedulerConfig, start,
}
use costguard.Report.Email.{Words, MonthlySummary}
use costguard.Report.Once.{sent_in, nothing_sent, one_mail_a_month, exactly_one_mail}

abbrev words : Words ℕ
words = record { month = λ t. "month"; day = λ t. "day"; amount = λ n. "1.000000" }

abbrev usage : UsageReader ℕ
usage = record {
  total_spend = λ from to. ok 1;
  by_team = λ from to. ok (("", 1) ∷ []);
  by_provider = λ from to. ok [];
  by_model = λ from to. ok [];
}

abbrev january : UtcTime
january = record { year = 2026; month = 1; into = 5 }

abbrev summary : MonthlySummary ℕ
summary = record {
  from = record { year = 2025; month = 12; into = 0 };
  to = month_start january;
  total_spend = 1;
  by_team = ("", 1) ∷ [];
  by_provider = [];
  by_model = [];
}

abbrev tick : Tick ℕ
tick = record {
  now = january;
  usage = usage;
  lookup_error = none;
  send_error = none;
  mark_error = none;
}

abbrev refused : GoError
refused = record {
  message = runes "connection refused";
  deadline_exceeded = false;
  net_error = none;
  dns_error = false;
  upstream_status = none;
}

-- A tick at which the mail is refused.
abbrev failing : Tick ℕ
failing = record tick { send_error = some refused }

abbrev service : EmailService
service = record { reports = true; notifier = true; deliveries = true }

abbrev cfg : SchedulerConfig
cfg = record { enabled = true; check_interval = 0; run_on_startup = true }

one_mail_a_month_example :
    sent_in
      (month_start january)
      (start words (some service) cfg failing (tick ∷ tick ∷ []) (nothing_sent words)).mails
    ≤ 1
one_mail_a_month_example =
    one_mail_a_month words (some service) cfg failing (tick ∷ tick ∷ []) (month_start january)
      (refl, (refl, (refl, tt)))

exactly_one_mail_example :
    sent_in
      (month_start january)
      (start words
        (some service)
        cfg
        failing
        ((failing ∷ []) ++ (tick ∷ tick ∷ []))
        (nothing_sent words)).mails
    ≡ 1
unfolding build_monthly_summary
exactly_one_mail_example =
    exactly_one_mail words service cfg failing (failing ∷ []) (tick ∷ []) tick summary refl
      (refl, refl, refl) (refl, refl, refl, refl) (refl, (refl, (refl, (refl, tt))))
