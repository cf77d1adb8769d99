-- ===== src/Alerts/Tests.antt =====
-- internal/gateway/alerts.go: the theorems at concrete inputs.
use costguard.Base.{ℕ, ◌+◌, ◌≤◌, ◌≡◌, true, false, List, [], ◌∷◌, refl}
use costguard.Budget.Calendar.{UtcTime}
use costguard.Alerts.{Deps, Outside, Key, holds_key, monthly_key, goes_to_send, send}
use costguard.Alerts.Race.{Emission, advance, step, run, start, count_key, overlaps}
use costguard.Alerts.Once.{alert_at_most_once}
use costguard.Alerts.Lost.{unlogged_failure_loses_alert}
use costguard.Alerts.Twice.{race_delivers_twice}

abbrev all_set : Deps
all_set = record { alert_store = true; budget_checker = true; notifier = true; log = true }

abbrev no_log : Deps
no_log = record all_set { log = false }

abbrev works : Outside
works = record { was_sent_fails = false; send_fails = false; mark_sent_fails = false }

abbrev mail_down : Outside
mail_down = record works { send_fails = true }

abbrev noon : UtcTime
noon = record { year = 2026; month = 5; into = 7 }

abbrev key : Key
key = monthly_key noon 80

-- The mail of the first fails; the others look before either marks, and a fourth looks in vain.
abbrev requests : List Emission
requests =
    record { outside = mail_down; now = noon; threshold_percent = 80 }
    ∷ record { outside = works; now = noon; threshold_percent = 80 }
    ∷ record { outside = works; now = record noon { into = 9 }; threshold_percent = 80 }
    ∷ record { outside = works; now = noon; threshold_percent = 80 }
    ∷ []

abbrev schedule : List ℕ
schedule = 0 ∷ 0 ∷ 1 ∷ 2 ∷ 1 ∷ 2 ∷ 1 ∷ 2 ∷ 3 ∷ []

delivered_twice : (run all_set schedule (start requests)).alerts.delivered ≡ key ∷ key ∷ []
unfolding run step advance goes_to_send send
delivered_twice = refl

overlapped_once : overlaps all_set key schedule (start requests) ≡ 1
unfolding overlaps step advance goes_to_send send
overlapped_once = refl

alert_at_most_once_example :
    count_key key (run all_set schedule (start requests)).alerts.delivered
    ≤ 1 + overlaps all_set key schedule (start requests)
alert_at_most_once_example =
    alert_at_most_once all_set key requests schedule (refl, (refl, (refl, (refl, tt))))

abbrev failing : Emission
failing = record { outside = mail_down; now = noon; threshold_percent = 80 }

unlogged_failure_loses_alert_example :
    let s = (run no_log (0 ∷ 0 ∷ 0 ∷ schedule) (start (failing ∷ requests))).alerts in
    (holds_key key s.marked ≡ true) × (count_key key s.delivered ≡ 0)
unlogged_failure_loses_alert_example =
    unlogged_failure_loses_alert no_log failing requests schedule refl refl refl refl refl refl refl

abbrev second : Emission
second = record { outside = works; now = noon; threshold_percent = 80 }

abbrev third : Emission
third = record { outside = works; now = record noon { into = 9 }; threshold_percent = 80 }

race_delivers_twice_example :
    2
    ≤ count_key key
        (run all_set (0 ∷ 1 ∷ 0 ∷ 1 ∷ schedule) (start (second ∷ third ∷ []))).alerts.delivered
race_delivers_twice_example =
    race_delivers_twice all_set second third [] schedule refl refl refl (refl, refl) (refl, refl)
      refl
