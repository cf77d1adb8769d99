-- ===== src/Metering/Cost/Lookup.antt =====
-- internal/metering: which price a request is charged at, and when there is one.
use costguard.Base.{String, Bool, true, false, Option, none, some, Dict, ◌≡◌, refl}
use costguard.Base.Float.{Float}
use costguard.Metering.Families.{normalize_provider, normalize_model}
use costguard.Metering.Prices.{Price, prices}
use costguard.Metering.Cost.{Usage, entry, cost_at, estimate_cost, input_price_per_1m}

module _ (f : Float) where
  open f use {Carrier, of_nat}

  module _ (config_prices : Dict (Dict (Price Carrier))) where
    -- The specification: the price of a provider's model, the configuration before the built-in
    -- table, both under the normalised names.
    abbrev pub find_price : String → String → Option (Price Carrier)
    find_price provider_name model_id =
        let provider = normalize_provider provider_name in
        let model = normalize_model provider model_id in
        elim (entry f config_prices provider model) [
          | some price ↦ some price
          | none ↦ entry f (prices f) provider model
        ]

    abbrev pub charged : Usage → Option (Price Carrier) → Carrier × Bool
    charged u none = (of_nat 0, false)
    charged u (some price) = (cost_at f u price, true)

    abbrev pub ranked : Option (Price Carrier) → Carrier × Bool
    ranked none = (of_nat 0, false)
    ranked (some price) = (price.input_per_1m, true)

    ranked-or :
        (a b : Option (Price Carrier))
        → (let r : Carrier × Bool = elim a [
          | some price ↦ (price.input_per_1m, true)
          | none ↦ elim b [ some price ↦ (price.input_per_1m, true) | none ↦ (of_nat 0, false) ]
        ] in
            r)
          ≡ ranked (elim a [ some price ↦ some price | none ↦ b ])
    ranked-or none none = refl
    ranked-or none (some p) = refl
    ranked-or (some p) b = refl

    charged-or :
        (u : Usage) (a b : Option (Price Carrier))
        → (let r : Carrier × Bool = elim a [
          | some price ↦ (cost_at f u price, true)
          | none ↦ elim b [ some price ↦ (cost_at f u price, true) | none ↦ (of_nat 0, false) ]
        ] in
            r)
          ≡ charged u (elim a [ some price ↦ some price | none ↦ b ])
    charged-or u none none = refl
    charged-or u none (some p) = refl
    charged-or u (some p) b = refl

    same_flag : (u : Usage) (o : Option (Price Carrier)) → (charged u o).1 ≡ (ranked o).1
    same_flag u none = refl
    same_flag u (some p) = refl

    input_price-find_price :
        (provider_name model_id : String)
        → input_price_per_1m f config_prices provider_name model_id
          ≡ ranked (find_price provider_name model_id)
    unfolding input_price_per_1m
    input_price-find_price provider_name model_id =
        ranked-or
          (entry f config_prices (normalize_provider provider_name)
            (normalize_model (normalize_provider provider_name) model_id))
          (entry f (prices f) (normalize_provider provider_name)
            (normalize_model (normalize_provider provider_name) model_id))

    -- A request that was not answered from the cache is charged at the price that the configuration
    -- has for its provider and model, else at the built-in one, else nothing; and the router ranks
    -- the provider by the input price of that same entry, so that it knows a price exactly when
    -- requests are charged.
    pub estimate_cost-find_price :
        (u : Usage)
        → u.cache_hit ≡ false
        → let price = find_price u.provider u.model in
          (estimate_cost f config_prices u ≡ charged u price)
          × (input_price_per_1m f config_prices u.provider u.model ≡ ranked price)
          × ((estimate_cost f config_prices u).1
              ≡ (input_price_per_1m f config_prices u.provider u.model).1)
    unfolding estimate_cost
    estimate_cost-find_price u h =
        let cost : estimate_cost f config_prices u ≡ charged u (find_price u.provider u.model) =
          rw h (
            charged-or u
              (entry f config_prices (normalize_provider u.provider)
                (normalize_model (normalize_provider u.provider) u.model))
              (entry f (prices f) (normalize_provider u.provider)
                (normalize_model (normalize_provider u.provider) u.model))) in
        (
          cost,
          input_price-find_price u.provider u.model,
          rw (cost, input_price-find_price u.provider u.model)
              (same_flag u (find_price u.provider u.model)),
        )
