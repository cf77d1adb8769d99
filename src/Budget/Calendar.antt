-- ===== src/Budget/Calendar.antt =====
-- internal/budget/service.go: the window of the month that a time lies in, in UTC.
use mathlib.Core.Path.{ap₂}
use costguard.Base.{ℕ, ◌+◌, ◌<◌, ◌≤◌, ◌≡◌, ◌⊎◌, ◌==◌, if◌then◌else◌, arith}

-- A time in UTC: year, month from 1 to 12, and the nanoseconds since the month began.
pub record UtcTime : Type 0 where
  pub year : ℕ
  pub month : ℕ
  pub into : ℕ

pub record Window : Type 0 where
  pub start : UtcTime
  pub end : UtcTime

-- `time.Date(now.UTC().Year(), now.UTC().Month(), 1, 0, 0, 0, 0, time.UTC)`
abbrev pub month_start : UtcTime → UtcTime
month_start t = record t { into = 0 }

-- `from.AddDate(0, 1, 0)`, from the beginning of a month.
abbrev pub next_month : UtcTime → UtcTime
next_month t =
    if t.month == 12
    then record t { year = t.year + 1; month = 1 }
    else record t { month = t.month + 1 }

unfoldable pub monthly_window : UtcTime → Window
monthly_window now = record { start = month_start now; end = next_month (month_start now) }

-- The order of times whose months are from 1 to 12: strict, and not.
abbrev pub Before : UtcTime → UtcTime → Type 0
Before s t =
    (s.year < t.year)
    ⊎ ((s.year ≡ t.year) × (s.month < t.month)
        ⊎ (s.year ≡ t.year) × (s.month ≡ t.month) × (s.into < t.into))

abbrev pub NotAfter : UtcTime → UtcTime → Type 0
NotAfter s t =
    (s.year < t.year)
    ⊎ ((s.year ≡ t.year) × (s.month < t.month)
        ⊎ (s.year ≡ t.year) × (s.month ≡ t.month) × (s.into ≤ t.into))

-- A month as the calendar has them.
abbrev pub IsMonth : UtcTime → Type 0
IsMonth t = (1 ≤ t.month) × (t.month ≤ 12)

same_month :
    (now t : UtcTime)
    → IsMonth now
    → IsMonth t
    → NotAfter (month_start now) t
    → Before t (next_month (month_start now))
    → (t.year ≡ now.year) × (t.month ≡ now.month)
same_month now t a b c d = ground arith

window_of_month :
    (s t : UtcTime) → s.year ≡ t.year → s.month ≡ t.month → monthly_window s ≡ monthly_window t
unfolding monthly_window
window_of_month s t p q = ap₂ (λ y m. monthly_window (record { year = y; month = m; into = 0 })) p q

-- A time lies in its own window, whose beginning belongs to it and whose end does not; and the
-- times in that window are those that have the same one, so that the windows tile the time line.
pub monthly_window_tiles :
    (now t : UtcTime)
    → IsMonth now
    → IsMonth t
    → NotAfter (monthly_window now).start t
    → Before t (monthly_window now).end
    → (monthly_window t ≡ monthly_window now)
      × NotAfter (monthly_window now).start now
      × Before now (monthly_window now).end
unfolding monthly_window
monthly_window_tiles now t a b c d =
    let (y, m) = same_month now t a b c d in (window_of_month t now y m, ground arith, ground arith)
