-- ===== src/Feedback/Stats/Means.antt =====
-- internal/feedback/stats.go: what the statistics are of the records, in whatever order.
use costguard.Base.{
  ℕ, zero, suc, ◌+◌, Bool, List, [], ◌∷◌, ℤ, pos, int_add, length, str_eq, if◌then◌else◌,
}
use costguard.Base.Float.{Float}
use costguard.Feedback.{FeedbackRecord, Filter}
use costguard.Feedback.Stats.{Totals, ModelStats}

-- How many records pass a test.
abbrev pub how_many : (FeedbackRecord → Bool) → List FeedbackRecord → ℕ
how_many test [] = 0
how_many test (r ∷ rs) = (if test r then 1 else 0) + how_many test rs

-- The sum of a field.
abbrev pub sum_of : (FeedbackRecord → ℤ) → List FeedbackRecord → ℤ
sum_of field_of [] = pos 0
sum_of field_of (r ∷ rs) = int_add (field_of r) (sum_of field_of rs)

abbrev pub is_success : FeedbackRecord → Bool
is_success r = str_eq r.outcome "success"

-- The totals of records, on top of others.
abbrev totals_over : List FeedbackRecord → Totals → Totals
totals_over rs t = record {
  successes = t.successes + how_many is_success rs;
  reviewer_passes = t.reviewer_passes + how_many (λ r. r.reviewer_passed) rs;
  retries = int_add t.retries (sum_of (λ r. r.reviewer_retries) rs);
  duration_sum = int_add t.duration_sum (sum_of (λ r. r.duration_ms) rs);
  input_sum = int_add t.input_sum (sum_of (λ r. r.input_tokens) rs);
  output_sum = int_add t.output_sum (sum_of (λ r. r.output_tokens) rs);
}

module _ (f : Float) (of_int : ℤ → f.Carrier) where
  open f use {Carrier, of_nat, div}

  -- A sum divided by a number of records, 0 if there are none.
  abbrev pub mean : Carrier → ℕ → Carrier
  mean sum zero = of_nat 0
  mean sum (suc n) = div sum (of_nat (suc n))

  -- The statistics of a model: the share of the records with the outcome "success" and of those that the
  -- reviewer passed, and the means of retries, duration and tokens.
  abbrev pub means : List FeedbackRecord → Filter → ModelStats f of_int
  means rs g = record {
    consumer = g.consumer;
    role = g.role;
    model = g.model;
    task_count = length rs;
    success_rate = mean (of_nat (how_many is_success rs)) (length rs);
    reviewer_pass_rate = mean (of_nat (how_many (λ r. r.reviewer_passed) rs)) (length rs);
    avg_reviewer_retries = mean (of_int (sum_of (λ r. r.reviewer_retries) rs)) (length rs);
    avg_duration_ms = mean (of_int (sum_of (λ r. r.duration_ms) rs)) (length rs);
    avg_input_tokens = mean (of_int (sum_of (λ r. r.input_tokens) rs)) (length rs);
    avg_output_tokens = mean (of_int (sum_of (λ r. r.output_tokens) rs)) (length rs);
  }
