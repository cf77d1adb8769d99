-- ===== src/Router/Usable.antt =====
-- internal/router/router.go: the provider picked can be used, and an exact mapping comes first.
use costguard.Base.{
  String, Bool, true, not, ◌&&◌, ◌≡◌, ap, ◌∙◌, List, [], ◌∷◌, Option, none, some, str_eq,
  if◌then◌else◌, ℤ, eq_iff, arith,
}
use costguard.Base.Float.{Float}
use costguard.Router.{
  Router, is_available, catalog_allows, pick_from_exact_mapping, pick_from_matchers, stage,
  pick_default, pick_with_legacy_order, Candidate, candidate_of, try_add, candidates_of,
  pick_with_priority, pick_by, pick_provider,
}

module _ (f : Float) where
  -- What a request may be sent to: a provider with a name, that is available, and whose catalog
  -- has the model.
  abbrev pub usable : Router f → String → String → Bool
  usable r model p = not (str_eq p "") && (is_available f r p && catalog_allows f r p model)

  -- The specification of the legacy order: the first name that can be used, or none.
  abbrev pub first_usable : Router f → String → List String → String
  first_usable r model [] = ""
  first_usable r model (p ∷ ps) = if usable r model p then p else first_usable r model ps

  pub stage-usable :
      (r : Router f) (model p next : String)
      → stage f r model p next ≡ (if usable r model p then p else next)
  stage-usable r model p next = ground arith

  pub pick_default-usable :
      (r : Router f) (model : String)
      → pick_default f r model
        ≡ (if usable r model r.default_provider then r.default_provider else "")
  unfolding pick_default is_available
  pick_default-usable r model = ground arith

  pub pick_by-legacy :
      (r : Router f) (model : String)
      → pick_by f r model none
        ≡ first_usable r model (
            pick_from_exact_mapping f r model
            ∷ pick_from_matchers f model
            ∷ r.default_provider
            ∷ [])
  unfolding pick_by pick_with_legacy_order
  pick_by-legacy r model = ground (
    arith,
    pick_default-usable r model,
    stage-usable r model (pick_from_matchers f model) (pick_default f r model),
  )

  -- Without priorities the provider picked is the first that can be used of the model's exact
  -- mapping, of the match of its name and of the default; and the empty name if none can.
  pub legacy_order-first_usable :
      (r : Router f) (model : String)
      → r.priority ≡ none
      → pick_provider f r model
        ≡ first_usable r model (
            pick_from_exact_mapping f r model
            ∷ pick_from_matchers f model
            ∷ r.default_provider
            ∷ [])
  unfolding pick_provider
  legacy_order-first_usable r model e = ap (pick_by f r model) e ∙ pick_by-legacy r model

  pub pick_by-exact :
      (r : Router f) (model : String) (o : Option (String → ℤ))
      → usable r model (pick_from_exact_mapping f r model) ≡ true
      → pick_by f r model o ≡ pick_from_exact_mapping f r model
  unfolding pick_by pick_with_legacy_order pick_with_priority
  pick_by-exact r model none u = ground arith
  pick_by-exact r model (some priority) u = ground arith

  -- Whether there are priorities or not, an exact mapping that can be used is what is picked.
  pub exact_mapping_wins :
      (r : Router f) (model : String)
      → usable r model (pick_from_exact_mapping f r model) ≡ true
      → pick_provider f r model ≡ pick_from_exact_mapping f r model
  unfolding pick_provider
  exact_mapping_wins r model u = pick_by-exact r model r.priority u

  -- The candidates that two names add.
  abbrev pub candidates : Router f → (String → ℤ) → String → String → String → List (Candidate f)
  candidates r priority model p q =
      let first = candidate_of f r priority model p in
      let second = candidate_of f r priority model q in
      if usable r model p
      then (if usable r model q && not (str_eq q p) then first ∷ second ∷ [] else first ∷ [])
      else (if usable r model q then second ∷ [] else [])

  pub candidates_of-candidates :
      (r : Router f) (priority : String → ℤ) (model : String)
      → candidates_of f r priority model
        ≡ candidates r priority model (pick_from_matchers f model) r.default_provider
  unfolding candidates_of try_add
  candidates_of-candidates r priority model =
      let p = pick_from_matchers f model in
      let q = r.default_provider in ground (arith, eq_iff p "", eq_iff q "", eq_iff q p)
