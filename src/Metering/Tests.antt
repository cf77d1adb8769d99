-- ===== src/Metering/Tests.antt =====
-- internal/metering: runs on concrete inputs, and the theorems at inputs that meet their hypotheses.
use costguard.Base.{ℕ, true, false, [], ◌≡◌, ◌≢◌, arith, refl}
use costguard.Base.Float.Scaled.{scaled, scaled-laws}
use costguard.Metering.Families.{normalize_provider, normalize_model}
use costguard.Metering.Families.Laws.{mini_models-normalize_model}
use costguard.Metering.Prices.{Price}
use costguard.Metering.Cost.{Usage, estimate_cost, input_price_per_1m}
use costguard.Metering.Cost.Lookup.{find_price, charged, ranked, estimate_cost-find_price}
use costguard.Metering.Cost.Order.{IsPrice, IsMore}

abbrev small : Usage
small = record {
  provider = "openai_primary";
  model = "gpt-4o-2024-08-06";
  prompt_tokens = 1_000_000;
  completion_tokens = 100_000;
  total_tokens = 1_100_000;
  cache_hit = false;
  cache_creation_input_tokens = 0;
  cache_read_input_tokens = 0;
}

abbrev large : Usage
large = record small { completion_tokens = 200_000 }

-- 2.50 dollars for the prompt and 1.00 for the completion.
cost_of_small : estimate_cost scaled [] small ≡ (3_500_000_000, true)
unfolding estimate_cost normalize_provider normalize_model
cost_of_small = refl

mini_models-normalize_model_example :
    (normalize_model "openai" "gpt-5.4-mini-2026" ≡ "gpt-5.4")
    × (normalize_model "openai" "gpt-5.4-mini" ≢ "gpt-5.4-mini")
    × (normalize_model "openai" "gpt-5.4-mini" ≢ "gpt-5.4-nano")
mini_models-normalize_model_example =
    mini_models-normalize_model "gpt-5.4-mini-2026" "gpt-5.4-mini" refl

estimate_cost-find_price_example :
    let price = find_price scaled [] "openai_primary" "gpt-4o-2024-08-06" in
    (estimate_cost scaled [] small ≡ charged scaled [] small price)
    × (input_price_per_1m scaled [] "openai_primary" "gpt-4o-2024-08-06" ≡ ranked scaled [] price)
    × ((estimate_cost scaled [] small).1
        ≡ (input_price_per_1m scaled [] "openai_primary" "gpt-4o-2024-08-06").1)
estimate_cost-find_price_example = estimate_cost-find_price scaled [] small refl

any-IsPrice : (p : Price ℕ) → IsPrice scaled scaled-laws p
any-IsPrice p = ground arith

more : IsMore scaled scaled-laws small large
more = ground arith
