-- ===== src/Router/Tests.antt =====
-- internal/router: runs on concrete inputs, and the theorems at inputs that meet their hypotheses.
use costguard.Base.{
  ◌≡◌, ◌⊎◌, refl, true, false, String, [], ◌∷◌, none, some, str_eq, if◌then◌else◌, ◌*◌, ℤ, pos,
}
use costguard.Base.Float.Scaled.{scaled, scaled-laws, scale}
use costguard.Router.{
  Router, pick_provider, pick_by, pick_with_priority, pick_from_exact_mapping, pick_from_matchers,
  is_available, catalog_allows, candidates_of, candidate_of, try_add, less,
}
use costguard.Router.Matchers.{match_provider_by_model}
use costguard.Router.Usable.{usable}
use costguard.Router.Ranking.{pick_provider-usable}
use costguard.Router.Best.{IsBetter, priority_picks_best}

abbrev legacy : Router scaled
legacy = record {
  default_provider = "openai_primary";
  model_to_provider = ("gpt-4o", "anthropic_primary") ∷ [];
  available_providers = [];
  catalog = none;
  priority = none;
  cost = none;
}

abbrev same_priority : String → ℤ
same_priority name = pos 80

-- Google is the cheaper one.
abbrev priced : Router scaled
priced = record legacy {
  priority = some same_priority;
  cost = some (λ provider model.
      (if str_eq provider "openai_primary" then 25 * scale else 3 * scale, true));
}

case_is_folded : match_provider_by_model " GPT-4o" ≡ "openai_primary"
unfolding match_provider_by_model
case_is_folded = refl

cheaper_wins : pick_provider scaled priced "gemini-2.5-flash" ≡ "google_primary"
unfolding pick_provider pick_by pick_with_priority pick_from_exact_mapping pick_from_matchers
    match_provider_by_model is_available catalog_allows candidates_of candidate_of try_add less
cheaper_wins = refl

pick_provider-usable_example :
    let w = pick_provider scaled priced "gpt-4o" in
    (w ≡ "")
      × (usable scaled priced "gpt-4o" (pick_from_exact_mapping scaled priced "gpt-4o") ≡ false)
      × (usable scaled priced "gpt-4o" (pick_from_matchers scaled "gpt-4o") ≡ false)
      × (usable scaled priced "gpt-4o" "openai_primary" ≡ false)
    ⊎ ((w ≡ pick_from_exact_mapping scaled priced "gpt-4o")
        ⊎ ((w ≡ pick_from_matchers scaled "gpt-4o") ⊎ (w ≡ "openai_primary")))
      × (usable scaled priced "gpt-4o" w ≡ true)
pick_provider-usable_example = pick_provider-usable scaled priced "gpt-4o"

abbrev gemini : String
gemini = "gemini-2.5-flash"

priority_picks_best_example :
    let first = pick_from_matchers scaled gemini in
    let second : String = "openai_primary" in
    (pick_provider scaled priced gemini ≡ first)
      × IsBetter scaled scaled-laws priced same_priority gemini first second
    ⊎ (pick_provider scaled priced gemini ≡ second)
      × IsBetter scaled scaled-laws priced same_priority gemini second first
unfolding pick_from_exact_mapping pick_from_matchers match_provider_by_model is_available
    catalog_allows
priority_picks_best_example =
    priority_picks_best scaled scaled-laws priced same_priority gemini refl refl refl refl refl
