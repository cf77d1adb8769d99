-- ===== src/Router.antt =====
-- internal/router: which provider a request for a model goes to. The catalog, the priorities and
-- the prices are interfaces that may be nil, options here; what is logged is left out.
pub mod Matchers
pub mod Usable
pub mod Ranking
pub mod Best
mod Tests
use costguard.Base.{
  ℕ, String, Bool, true, false, not, ◌&&◌, List, [], ◌∷◌, ◌++◌, Option, none, some, Dict, lookup_or,
  str_eq, str_lt, any, is_empty, if◌then◌else◌, ℤ, int_lt, int_eq,
}
use costguard.Base.Float.{Float}
use costguard.Router.Matchers.{match_provider_by_model, named}

module _ (f : Float) where
  open f use {Carrier, of_nat, inf, eq, lt}

  pub record Router : Type 0 where
    pub default_provider : String
    pub model_to_provider : Dict String
    pub available_providers : Dict Bool
    pub catalog : Option (String → String → Bool)
    pub priority : Option (String → ℤ)
    pub cost : Option (String → String → Carrier × Bool)

  unfoldable pub is_available : Router → String → Bool
  is_available r provider =
      if str_eq provider ""
      then false
      else if is_empty r.available_providers
      then true
      else lookup_or provider false r.available_providers

  unfoldable pub catalog_allows : Router → String → String → Bool
  catalog_allows r provider model = elim r.catalog [
    | none ↦ true
    | some model_supported ↦ model_supported provider model
  ]

  unfoldable pub pick_from_exact_mapping : Router → String → String
  pick_from_exact_mapping r model = if str_eq model "" then "" else named r.model_to_provider model

  unfoldable pub pick_from_matchers : String → String
  pick_from_matchers model = if str_eq model "" then "" else match_provider_by_model model

  -- One stage of the legacy order: its provider, or else what the next ones give.
  abbrev pub stage : Router → String → String → String → String
  stage r model provider next =
      if str_eq provider ""
      then next
      else if not (is_available r provider)
      then next
      else if not (catalog_allows r provider model)
      then next
      else provider

  unfoldable pub pick_default : Router → String → String
  pick_default r model =
      if not (is_available r r.default_provider)
      then ""
      else if not (catalog_allows r r.default_provider model)
      then ""
      else r.default_provider

  unfoldable pub pick_with_legacy_order : Router → String → String
  unfolding pick_default
  pick_with_legacy_order r model =
      stage r model (pick_from_exact_mapping r model)
        (stage r model (pick_from_matchers model) (pick_default r model))

  pub record Candidate : Type 0 where
    pub provider : String
    pub priority : ℤ
    pub cost : Carrier
    pub price_known : Bool

  abbrev pub effective_cost : Candidate → Carrier
  effective_cost c = if not c.price_known then inf else c.cost

  -- The order of the call of `sort.Slice`.
  unfoldable pub less : Candidate → Candidate → Bool
  less c d =
      if not (int_eq c.priority d.priority)
      then int_lt d.priority c.priority
      else if not (eq (effective_cost c) (effective_cost d))
      then lt (effective_cost c) (effective_cost d)
      else str_lt c.provider d.provider

  abbrev pub price_of : Router → String → String → Carrier × Bool
  price_of r provider model = elim r.cost [
    | none ↦ (of_nat 0, false)
    | some input_price_per_1m ↦ input_price_per_1m provider model
  ]

  unfoldable pub candidate_of : Router → (String → ℤ) → String → String → Candidate
  candidate_of r priority model provider = record {
    provider = provider;
    priority = priority provider;
    cost = (price_of r provider model).0;
    price_known = (price_of r provider model).1;
  }

  pub record Tried : Type 0 where
    pub seen : List String
    pub candidates : List Candidate

  unfoldable pub try_add : Router → (String → ℤ) → String → String → Tried → Tried
  unfolding candidate_of
  try_add r priority model provider t =
      if str_eq provider ""
      then t
      else if any (str_eq provider) t.seen
      then t
      else if not (is_available r provider)
      then record t { seen = provider ∷ t.seen }
      else if not (catalog_allows r provider model)
      then record t { seen = provider ∷ t.seen }
      else record {
        seen = provider ∷ t.seen;
        candidates = t.candidates ++ (candidate_of r priority model provider ∷ []);
      }

  -- `sort.Slice`, which sorts fewer than 12 items by insertion: here there are at most two.
  abbrev pub sort_into : Candidate → List Candidate → List Candidate
  sort_into c [] = c ∷ []
  sort_into c (d ∷ ds) = if less c d then c ∷ d ∷ ds else d ∷ sort_into c ds

  abbrev pub sort_all : List Candidate → List Candidate → List Candidate
  sort_all sorted [] = sorted
  sort_all sorted (c ∷ cs) = sort_all (sort_into c sorted) cs

  abbrev pub winner_of : List Candidate → String
  winner_of [] = ""
  winner_of (c ∷ cs) = c.provider

  unfoldable pub candidates_of : Router → (String → ℤ) → String → List Candidate
  unfolding try_add
  candidates_of r priority model =
      let t =
        try_add r priority model (pick_from_matchers model)
          (record { seen = []; candidates = [] }) in
      (try_add r priority model r.default_provider t).candidates

  unfoldable pub pick_with_priority : Router → (String → ℤ) → String → String
  unfolding candidates_of
  pick_with_priority r priority model =
      stage r model (pick_from_exact_mapping r model)
        (winner_of (sort_all [] (candidates_of r priority model)))

  -- `PickProvider`, by the priorities of the router.
  unfoldable pub pick_by : Router → String → Option (String → ℤ) → String
  unfolding pick_with_priority pick_with_legacy_order
  pick_by r model (some priority) = pick_with_priority r priority model
  pick_by r model none = pick_with_legacy_order r model

  unfoldable pub pick_provider : Router → String → String
  unfolding pick_by
  pick_provider r model = pick_by r model r.priority
