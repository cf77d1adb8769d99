-- ===== src/Feedback/Stats.antt =====
-- internal/feedback/stats.go and stats_handler.go. `of_int` is the conversion of an int to a float64.
pub mod Order
pub mod Means
use costguard.Base.{
  ℕ, zero, suc, ◌+◌, String, Bool, true, false, not, ◌||◌, ◌==◌, List, [], ◌∷◌, ◌++◌, Option, none,
  some, str_eq, if◌then◌else◌, Result, ok, err, ℤ, pos, negsuc, int_add, is_empty, length,
}
use costguard.Base.Float.{Float}
use costguard.Feedback.{FeedbackRecord, Filter, Coder, Opened, read}

-- The sums over the records.
pub record Totals : Type 0 where
  pub successes : ℕ
  pub reviewer_passes : ℕ
  pub retries : ℤ
  pub duration_sum : ℤ
  pub input_sum : ℤ
  pub output_sum : ℤ

-- One round of the loop.
unfoldable pub add_record : FeedbackRecord → Totals → Totals
add_record r t = record {
  successes = if str_eq r.outcome "success" then t.successes + 1 else t.successes;
  reviewer_passes = if r.reviewer_passed then t.reviewer_passes + 1 else t.reviewer_passes;
  retries = int_add t.retries r.reviewer_retries;
  duration_sum = int_add t.duration_sum r.duration_ms;
  input_sum = int_add t.input_sum r.input_tokens;
  output_sum = int_add t.output_sum r.output_tokens;
}

unfoldable pub add_records : List FeedbackRecord → Totals → Totals
unfolding add_record
add_records [] t = t
add_records (r ∷ rs) t = add_records rs (add_record r t)

abbrev pub no_totals : Totals
no_totals = record {
  successes = 0;
  reviewer_passes = 0;
  retries = pos 0;
  duration_sum = pos 0;
  input_sum = pos 0;
  output_sum = pos 0;
}

-- What `strconv.Atoi` gives of the parameter `last_n`, which may be absent or empty, and the others.
pub record Query : Type 0 where
  pub last_n : String
  pub consumer : String
  pub role : String
  pub model : String

module _ (f : Float) (of_int : ℤ → f.Carrier) where
  open f use {Carrier, of_nat, div}

  pub record ModelStats : Type 0 where
    pub consumer : String
    pub role : String
    pub model : String
    pub task_count : ℕ
    pub success_rate : Carrier
    pub reviewer_pass_rate : Carrier
    pub avg_reviewer_retries : Carrier
    pub avg_duration_ms : Carrier
    pub avg_input_tokens : Carrier
    pub avg_output_tokens : Carrier

  abbrev pub stats_of : Filter → ℕ → Totals → ModelStats
  stats_of g n t = record {
    consumer = g.consumer;
    role = g.role;
    model = g.model;
    task_count = n;
    success_rate = div (of_nat t.successes) (of_nat n);
    reviewer_pass_rate = div (of_nat t.reviewer_passes) (of_nat n);
    avg_reviewer_retries = div (of_int t.retries) (of_nat n);
    avg_duration_ms = div (of_int t.duration_sum) (of_nat n);
    avg_input_tokens = div (of_int t.input_sum) (of_nat n);
    avg_output_tokens = div (of_int t.output_sum) (of_nat n);
  }

  -- Of no records, the zero value of each rate.
  abbrev pub empty_stats : Filter → ModelStats
  empty_stats g = record {
    consumer = g.consumer;
    role = g.role;
    model = g.model;
    task_count = 0;
    success_rate = of_nat 0;
    reviewer_pass_rate = of_nat 0;
    avg_reviewer_retries = of_nat 0;
    avg_duration_ms = of_nat 0;
    avg_input_tokens = of_nat 0;
    avg_output_tokens = of_nat 0;
  }

  unfoldable pub aggregate : List FeedbackRecord → Filter → ModelStats
  unfolding add_records
  aggregate records g =
      if is_empty records
      then empty_stats g
      else stats_of g (length records) (add_records records no_totals)

  -- `last_n` as a number: 0 where it is empty, and nothing where it is no number or negative.
  abbrev pub last_n_of : (String → Option ℤ) → String → Option ℕ
  last_n_of atoi s =
      if str_eq s ""
      then some 0
      else elim (atoi s) [ none ↦ none | some v ↦ elim v [ pos n ↦ some n | negsuc n ↦ none ] ]

  -- `StatsHandler.ServeHTTP`: the status, and the statistics of a success.
  unfoldable pub serve_stats :
      Coder → (String → Option ℤ) → String → Query → Opened → ℕ × Option ModelStats
  unfolding aggregate
  serve_stats coder atoi method q file =
      if not (str_eq method "GET") then (405, none) else elim (last_n_of atoi q.last_n) [
        | none ↦ (400, none)
        | some n ↦
            let g : Filter = record {
              consumer = q.consumer;
              role = q.role;
              model = q.model;
              last_n = n;
            } in
            elim (read coder g file) [
              | err e ↦ (500, none)
              | ok records ↦ (200, some (aggregate records g))
            ]
      ]
