-- ===== src/Metering/Cost/Order.antt =====
-- internal/metering/estimator.go: more tokens never cost less.
use costguard.Base.{ℕ, ◌≤◌, true, false, Option, none, some, Dict, ◌≡◌, arith, refl}
use costguard.Base.Float.{Float, FloatLaws}
use costguard.Metering.Prices.{Price}
use costguard.Metering.Cost.{Usage, per_million, cost_at, estimate_cost}
use costguard.Metering.Cost.Lookup.{find_price, charged, estimate_cost-find_price}

module _ (f : Float) (laws : FloatLaws f) where
  open f use {Carrier, of_nat, mul, div, le, dec}

  -- Neither price of an entry is negative.
  pub record IsPrice (p : Price Carrier) : Type 0 where
    pub input : le (of_nat 0) p.input_per_1m ≡ true
    pub output : le (of_nat 0) p.output_per_1m ≡ true

  -- The second request is for the same model, and has no fewer tokens of any class.
  pub record IsMore (u v : Usage) : Type 0 where
    pub provider : u.provider ≡ v.provider
    pub model : u.model ≡ v.model
    pub hit : u.cache_hit ≡ false
    pub hit' : v.cache_hit ≡ false
    pub prompt : u.prompt_tokens ≤ v.prompt_tokens
    pub completion : u.completion_tokens ≤ v.completion_tokens
    pub creation : u.cache_creation_input_tokens ≤ v.cache_creation_input_tokens
    pub read : u.cache_read_input_tokens ≤ v.cache_read_input_tokens

  per_million_mono :
      (m n : ℕ) (p : Carrier)
      → le (of_nat 0) p ≡ true
      → m ≤ n
      → le (per_million f m p) (per_million f n p) ≡ true
  per_million_mono m n p h k =
      laws.mul_mono _ _ p h (laws.div_mono _ _ 1_000_000 (omega arith) (laws.of_nat_mono m n k))

  cost_at_mono :
      (u v : Usage) (p : Price Carrier)
      → IsPrice p
      → IsMore u v
      → le (cost_at f u p) (cost_at f v p) ≡ true
  unfolding cost_at
  cost_at_mono u v p h m =
      laws.add_mono _ _ _ _
        (laws.add_mono _ _ _ _
          (laws.add_mono _ _ _ _
            (per_million_mono u.prompt_tokens v.prompt_tokens p.input_per_1m h.input m.prompt)
            (laws.mul_mono _ _ (dec 1 1) (laws.dec_nonneg 1 1) (
              per_million_mono u.cache_read_input_tokens v.cache_read_input_tokens p.input_per_1m
                h.input m.read)))
          (laws.mul_mono _ _ (dec 125 2) (laws.dec_nonneg 125 2) (
            per_million_mono u.cache_creation_input_tokens v.cache_creation_input_tokens
              p.input_per_1m h.input m.creation)))
        (per_million_mono u.completion_tokens v.completion_tokens p.output_per_1m h.output
          m.completion)

  charged_mono :
      (u v : Usage) (o : Option (Price Carrier)) (config_prices : Dict (Dict (Price Carrier)))
      → ((p : Price Carrier) → o ≡ some p → IsPrice p)
      → IsMore u v
      → le (charged f config_prices u o).0 (charged f config_prices v o).0 ≡ true
  charged_mono u v none config_prices h m = laws.le_refl (of_nat 0)
  charged_mono u v (some p) config_prices h m = cost_at_mono u v p (h p refl) m

  -- A request with no fewer tokens of any class than another for the same model is estimated to
  -- cost no less, whatever the configured prices, if the price found for them is not negative and
  -- neither was answered from the cache.
  pub estimate_cost_mono :
      (config_prices : Dict (Dict (Price Carrier))) (u v : Usage)
      → ((p : Price Carrier) → find_price f config_prices u.provider u.model ≡ some p → IsPrice p)
      → IsMore u v
      → le (estimate_cost f config_prices u).0 (estimate_cost f config_prices v).0 ≡ true
  unfolding cost_at
  estimate_cost_mono config_prices u v h m =
      rw
        (
          (estimate_cost-find_price f config_prices u m.hit).0,
          (estimate_cost-find_price f config_prices v m.hit').0,
          ← m.provider,
          ← m.model,
        )
        (charged_mono u v (find_price f config_prices u.provider u.model) config_prices h m)
