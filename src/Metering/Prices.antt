-- ===== src/Metering/Prices.antt =====
-- internal/metering/pricing.go: the built-in prices, in US dollars per million tokens.
use costguard.Base.{[], ◌∷◌, Dict}
use costguard.Base.Float.{Float}

pub record Price (C : Type 0) : Type 0 where
  pub input_per_1m : C
  pub cached_input_per_1m : C
  pub output_per_1m : C

module _ (f : Float) where
  open f use {Carrier, dec}

  abbrev price : Carrier → Carrier → Carrier → Price Carrier
  price input cached output = record {
    input_per_1m = input;
    cached_input_per_1m = cached;
    output_per_1m = output;
  }

  -- A price with no entry for cached input leaves it at Go's zero value.
  abbrev uncached : Carrier → Carrier → Price Carrier
  uncached input output = price input (dec 0 0) output

  abbrev openai_prices : Dict (Price Carrier)
  openai_prices =
      ("gpt-5.4", price (dec 250 2) (dec 25 2) (dec 1500 2))
      ∷ ("gpt-5.4-mini", price (dec 75 2) (dec 75 3) (dec 450 2))
      ∷ ("gpt-5", price (dec 125 2) (dec 125 3) (dec 1000 2))
      ∷ ("gpt-5-mini", price (dec 25 2) (dec 25 3) (dec 200 2))
      ∷ ("gpt-5-nano", price (dec 5 2) (dec 5 3) (dec 40 2))
      ∷ ("gpt-4o", price (dec 250 2) (dec 125 2) (dec 1000 2))
      ∷ ("gpt-4o-mini", price (dec 15 2) (dec 75 3) (dec 60 2))
      ∷ ("gpt-4.1", price (dec 200 2) (dec 50 2) (dec 800 2))
      ∷ ("gpt-4.1-mini", price (dec 40 2) (dec 10 2) (dec 160 2))
      ∷ ("gpt-4.1-nano", price (dec 10 2) (dec 25 3) (dec 40 2))
      ∷ ("o3", price (dec 200 2) (dec 50 2) (dec 800 2))
      ∷ ("o4-mini", price (dec 110 2) (dec 275 3) (dec 440 2))
      ∷ []

  abbrev anthropic_prices : Dict (Price Carrier)
  anthropic_prices =
      ("claude-haiku-4-5", uncached (dec 100 2) (dec 500 2))
      ∷ ("claude-sonnet-4-5", uncached (dec 300 2) (dec 1500 2))
      ∷ ("claude-sonnet-4-6", uncached (dec 300 2) (dec 1500 2))
      ∷ ("claude-opus-4-6", uncached (dec 500 2) (dec 2500 2))
      ∷ []

  abbrev google_prices : Dict (Price Carrier)
  google_prices =
      ("gemini-2.5-flash-lite", uncached (dec 10 2) (dec 40 2))
      ∷ ("gemini-2.5-flash", uncached (dec 30 2) (dec 250 2))
      ∷ ("gemini-2.5-pro", uncached (dec 125 2) (dec 1000 2))
      ∷ []

  abbrev xai_prices : Dict (Price Carrier)
  xai_prices =
      ("grok-4-1-fast-reasoning", uncached (dec 20 2) (dec 50 2))
      ∷ ("grok-4-1-fast-non-reasoning", uncached (dec 20 2) (dec 50 2))
      ∷ []

  abbrev pub prices : Dict (Dict (Price Carrier))
  prices =
      ("openai", openai_prices)
      ∷ ("anthropic", anthropic_prices)
      ∷ ("google", google_prices)
      ∷ ("xai", xai_prices)
      ∷ []
