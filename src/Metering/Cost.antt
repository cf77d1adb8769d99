-- ===== src/Metering/Cost.antt =====
-- internal/metering/estimator.go, lookup.go and usage.go: the estimated cost of a request.
-- The package variable `configPrices` is an argument; nil, which every lookup misses, is the empty
-- map.
pub mod Lookup
pub mod Order
use costguard.Base.{ℕ, String, Bool, true, false, Option, none, some, Dict, lookup, if◌then◌else◌}
use costguard.Base.Float.{Float}
use costguard.Metering.Families.{normalize_provider, normalize_model}
use costguard.Metering.Prices.{Price, prices}

pub record Usage : Type 0 where
  pub provider : String
  pub model : String
  pub prompt_tokens : ℕ
  pub completion_tokens : ℕ
  pub total_tokens : ℕ
  pub cache_hit : Bool
  pub cache_creation_input_tokens : ℕ
  pub cache_read_input_tokens : ℕ

module _ (f : Float) where
  open f use {Carrier, dec, of_nat, add, mul, div}

  abbrev cache_read_cost_multiplier : Carrier
  cache_read_cost_multiplier = dec 1 1

  abbrev cache_write_cost_multiplier : Carrier
  cache_write_cost_multiplier = dec 125 2

  -- `(float64(n) / 1_000_000) * price`
  abbrev pub per_million : ℕ → Carrier → Carrier
  per_million n price = mul (div (of_nat n) (of_nat 1_000_000)) price

  -- The sum that both branches of `EstimateCost` return.
  unfoldable pub cost_at : Usage → Price Carrier → Carrier
  cost_at u price =
      add
        (add
          (add (per_million u.prompt_tokens price.input_per_1m) (
            mul (per_million u.cache_read_input_tokens price.input_per_1m)
              cache_read_cost_multiplier))
          (mul (per_million u.cache_creation_input_tokens price.input_per_1m)
            cache_write_cost_multiplier))
        (per_million u.completion_tokens price.output_per_1m)

  -- `table[provider][model]`, if both keys are there.
  abbrev pub entry : Dict (Dict (Price Carrier)) → String → String → Option (Price Carrier)
  entry table provider model = elim (lookup provider table) [
    | none ↦ none
    | some models ↦ lookup model models
  ]

  module _ (config_prices : Dict (Dict (Price Carrier))) where
    unfoldable pub estimate_cost : Usage → Carrier × Bool
    unfolding cost_at
    estimate_cost u =
        let provider = normalize_provider u.provider in
        let model = normalize_model provider u.model in
        if u.cache_hit then (of_nat 0, true) else elim (entry config_prices provider model) [
          | some price ↦ (cost_at u price, true)
          | none ↦ elim (entry (prices f) provider model) [
            | some price ↦ (cost_at u price, true)
            | none ↦ (of_nat 0, false)
          ]
        ]

    unfoldable pub input_price_per_1m : String → String → Carrier × Bool
    input_price_per_1m provider_name model_id =
        let provider = normalize_provider provider_name in
        let model = normalize_model provider model_id in
        elim (entry config_prices provider model) [
          | some price ↦ (price.input_per_1m, true)
          | none ↦ elim (entry (prices f) provider model) [
            | some price ↦ (price.input_per_1m, true)
            | none ↦ (of_nat 0, false)
          ]
        ]
