-- ===== src/Router/Ranking.antt =====
-- internal/router/router.go: the choice by priority, price and name.
use costguard.Base.{
  String, true, false, ◌≡◌, ◌⊎◌, inl, inr, refl, ap, ◌∙◌, List, [], ◌∷◌, Option, none, some, str_eq,
  if◌then◌else◌, ℤ, arith, Bool-cases,
}
use costguard.Base.Float.{Float}
use costguard.Router.{
  Router, pick_from_exact_mapping, pick_from_matchers, Candidate, less, candidate_of, sort_all,
  winner_of, candidates_of, pick_with_priority, pick_by, pick_provider,
}
use costguard.Router.Usable.{
  usable, stage-usable, candidates, candidates_of-candidates, pick_by-legacy, pick_by-exact,
}

module _ (f : Float) where
  -- Of two candidates the winner is one that the other does not precede.
  winner_of-two :
      (c d : Candidate f)
      → winner_of f (sort_all f [] (c ∷ d ∷ [])) ≡ (if less f d c then d.provider else c.provider)
  winner_of-two c d = ground arith

  abbrev ranked : Router f → (String → ℤ) → String → List (Candidate f)
  ranked r priority model =
      candidates f r priority model (pick_from_matchers f model) r.default_provider

  pick_by-ranked :
      (r : Router f) (priority : String → ℤ) (model : String)
      → usable f r model (pick_from_exact_mapping f r model) ≡ false
      → pick_by f r model (some priority) ≡ winner_of f (sort_all f [] (ranked r priority model))
  unfolding pick_by pick_with_priority
  pick_by-ranked r priority model exact =
      stage-usable f r model (pick_from_exact_mapping f r model)
        (winner_of f (sort_all f [] (candidates_of f r priority model)))
      ∙ rw exact
          (ap (λ cs. winner_of f (sort_all f [] cs)) (candidates_of-candidates f r priority model))

  two_candidates :
      (r : Router f) (priority : String → ℤ) (model p q : String)
      → usable f r model p ≡ true
      → usable f r model q ≡ true
      → str_eq q p ≡ false
      → candidates f r priority model p q
        ≡ candidate_of f r priority model p ∷ candidate_of f r priority model q ∷ []
  two_candidates r priority model p q up uq ne = rw up (rw uq (rw ne refl))

  pub pick_by-two :
      (r : Router f) (priority : String → ℤ) (model : String)
      → usable f r model (pick_from_exact_mapping f r model) ≡ false
      → usable f r model (pick_from_matchers f model) ≡ true
      → usable f r model r.default_provider ≡ true
      → str_eq r.default_provider (pick_from_matchers f model) ≡ false
      → let first = candidate_of f r priority model (pick_from_matchers f model) in
        let second = candidate_of f r priority model r.default_provider in
        pick_by f r model (some priority)
        ≡ (if less f second first then second.provider else first.provider)
  pick_by-two r priority model exact up uq ne =
      pick_by-ranked r priority model exact
      ∙ ap (λ cs. winner_of f (sort_all f [] cs))
          (two_candidates r priority model (pick_from_matchers f model) r.default_provider up uq ne)
      ∙ winner_of-two (candidate_of f r priority model (pick_from_matchers f model))
          (candidate_of f r priority model r.default_provider)

  winner_of-name :
      (c d : Candidate f)
      → (winner_of f (sort_all f [] (c ∷ d ∷ [])) ≡ c.provider)
        ⊎ (winner_of f (sort_all f [] (c ∷ d ∷ [])) ≡ d.provider)
  winner_of-name c d = elim (Bool-cases (less f d c)) [
    | inl before ↦ inr (winner_of-two c d ∙ rw before refl)
    | inr after ↦ inl (winner_of-two c d ∙ rw after refl)
  ]

  -- What the ranking of two names gives: the empty name if neither can be used, else one that can.
  winner_usable :
      (r : Router f) (priority : String → ℤ) (model p q : String)
      → let w = winner_of f (sort_all f [] (candidates f r priority model p q)) in
        (w ≡ "") × (usable f r model p ≡ false) × (usable f r model q ≡ false)
        ⊎ ((w ≡ p) ⊎ (w ≡ q)) × (usable f r model w ≡ true)
  unfolding candidate_of
  winner_usable r priority model p q = ground (
    arith,
    winner_of-name (candidate_of f r priority model p) (candidate_of f r priority model q),
  )

  abbrev IsAnswer : Router f → String → String → Type 0
  IsAnswer r model w =
      (w ≡ "")
        × (usable f r model (pick_from_exact_mapping f r model) ≡ false)
        × (usable f r model (pick_from_matchers f model) ≡ false)
        × (usable f r model r.default_provider ≡ false)
      ⊎ ((w ≡ pick_from_exact_mapping f r model)
          ⊎ ((w ≡ pick_from_matchers f model) ⊎ (w ≡ r.default_provider)))
        × (usable f r model w ≡ true)

  pick_by-IsAnswer :
      (r : Router f) (model : String) (o : Option (String → ℤ))
      → IsAnswer r model (pick_by f r model o)
  pick_by-IsAnswer r model none = rw (pick_by-legacy f r model) (ground arith)
  pick_by-IsAnswer r model (some priority) =
      elim (Bool-cases (usable f r model (pick_from_exact_mapping f r model))) [
        | inl exact ↦ ground (arith, pick_by-exact f r model (some priority) exact)
        | inr other ↦ ground (
          arith,
          pick_by-ranked r priority model other,
          winner_usable r priority model (pick_from_matchers f model) r.default_provider,
        )
      ]

  -- With priorities and without, the name picked is that of the exact mapping, of the match of the
  -- model's name or of the default, and can be used; it is empty only if none of the three can.
  pub pick_provider-usable :
      (r : Router f) (model : String)
      → let w = pick_provider f r model in
        (w ≡ "")
          × (usable f r model (pick_from_exact_mapping f r model) ≡ false)
          × (usable f r model (pick_from_matchers f model) ≡ false)
          × (usable f r model r.default_provider ≡ false)
        ⊎ ((w ≡ pick_from_exact_mapping f r model)
            ⊎ ((w ≡ pick_from_matchers f model) ⊎ (w ≡ r.default_provider)))
          × (usable f r model w ≡ true)
  unfolding pick_provider
  pick_provider-usable r model = pick_by-IsAnswer r model r.priority
