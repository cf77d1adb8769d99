-- ===== src/Router/Best.antt =====
-- internal/router/router.go: of two providers that can be used, the better one is picked.
use costguard.Base.{
  String, true, false, ◌≡◌, ◌⊎◌, inl, inr, refl, ap, ◌∙◌, none, some, str_eq, str_lt, str_lt-asymm,
  Option-cases, int_lt, int_eq, ℤ, int_eq_comm, int_eq-not_lt, int_lt-asymm, if◌then◌else◌, arith,
  Bool-cases,
}
use costguard.Base.Float.{Float, FloatLaws}
use costguard.Router.{
  Router, pick_from_exact_mapping, pick_from_matchers, Candidate, less, effective_cost,
  candidate_of, pick_by, pick_provider,
}
use costguard.Router.Usable.{usable}
use costguard.Router.Ranking.{pick_by-two}

module _ (f : Float) (laws : FloatLaws f) where
  open f use {Carrier, lt, le, eq}

  lt-asymm : (a b : Carrier) → lt a b ≡ true → lt b a ≡ false
  lt-asymm a b h = ground (arith, laws.lt-eq-not_le a b, laws.lt-eq-not_le b a, laws.le_total b a)

  -- What makes a candidate `c` win over `d`, by what the order compares.
  abbrev NotBeaten : Candidate f → Candidate f → Type 0
  NotBeaten c d =
      (int_lt c.priority d.priority ≡ false)
      × (int_eq c.priority d.priority ≡ true
          → eq (effective_cost f d) (effective_cost f c) ≡ false
          → lt (effective_cost f d) (effective_cost f c) ≡ false)
      × (int_eq c.priority d.priority ≡ true
          → eq (effective_cost f d) (effective_cost f c) ≡ true
          → str_lt d.provider c.provider ≡ false)

  not_less-NotBeaten : (c d : Candidate f) → less f d c ≡ false → NotBeaten c d
  unfolding less
  not_less-NotBeaten c d h = (
    ground (arith, int_eq_comm c.priority d.priority, int_eq-not_lt c.priority d.priority),
    λ same other. ground (arith, int_eq_comm c.priority d.priority),
    λ same price. ground (arith, int_eq_comm c.priority d.priority),
  )

  less-NotBeaten : (c d : Candidate f) → less f c d ≡ true → NotBeaten c d
  unfolding less
  less-NotBeaten c d h = (
    ground (arith, int_eq-not_lt c.priority d.priority, int_lt-asymm d.priority c.priority),
    λ same other. ground (
      arith,
      laws.eq_comm (effective_cost f c) (effective_cost f d),
      lt-asymm (effective_cost f c) (effective_cost f d),
    ),
    λ same price. ground (
      arith,
      laws.eq_comm (effective_cost f c) (effective_cost f d),
      str_lt-asymm c.provider d.provider,
    ),
  )

  -- The input price at which the router ranks a provider for a model: infinity if it knows none.
  abbrev pub rank_price : Router f → String → String → Carrier
  rank_price r model p = elim r.cost [
    | none ↦ f.inf
    | some price ↦ if (price p model).1 then (price p model).0 else f.inf
  ]

  -- That a provider is the better of two: of no lower priority; at the same priority and
  -- another price not dearer; and at the same priority and price not later by its name.
  abbrev pub IsBetter : Router f → (String → ℤ) → String → String → String → Type 0
  IsBetter r priority model p q =
      (int_lt (priority p) (priority q) ≡ false)
      × (int_eq (priority p) (priority q) ≡ true
          → eq (rank_price r model q) (rank_price r model p) ≡ false
          → lt (rank_price r model q) (rank_price r model p) ≡ false)
      × (int_eq (priority p) (priority q) ≡ true
          → eq (rank_price r model q) (rank_price r model p) ≡ true
          → str_lt q p ≡ false)

  effective_cost-rank_price :
      (r : Router f) (priority : String → ℤ) (model p : String)
      → effective_cost f (candidate_of f r priority model p) ≡ rank_price r model p
  unfolding candidate_of
  effective_cost-rank_price r priority model p = ground (arith, Option-cases r.cost)

  IsBetter-candidates :
      (r : Router f) (priority : String → ℤ) (model p q : String)
      → NotBeaten (candidate_of f r priority model p) (candidate_of f r priority model q)
      → IsBetter r priority model p q
  unfolding candidate_of
  IsBetter-candidates r priority model p q h =
      rw (← effective_cost-rank_price r priority model p)
        (rw (← effective_cost-rank_price r priority model q) h)

  -- With priorities, and no exact mapping that can be used: if the match of the model's name and
  -- the default are two providers that can both be used, the one picked is one of them, and the better:
  -- its priority is not lower than the other's; at the same priority and another price it is not dearer, a
  -- provider with no known price costing infinity; and at the same priority and price its name is not later.
  pub priority_picks_best :
      (r : Router f) (priority : String → ℤ) (model : String)
      → r.priority ≡ some priority
      → usable f r model (pick_from_exact_mapping f r model) ≡ false
      → usable f r model (pick_from_matchers f model) ≡ true
      → usable f r model r.default_provider ≡ true
      → str_eq r.default_provider (pick_from_matchers f model) ≡ false
      → let first = pick_from_matchers f model in
        let second = r.default_provider in
        (pick_provider f r model ≡ first) × IsBetter r priority model first second
        ⊎ (pick_provider f r model ≡ second) × IsBetter r priority model second first
  unfolding pick_provider candidate_of
  priority_picks_best r priority model e exact up uq ne =
      let p = pick_from_matchers f model in
      let q = r.default_provider in
      let first = candidate_of f r priority model p in
      let second = candidate_of f r priority model q in
      let picked = ap (pick_by f r model) e ∙ pick_by-two f r priority model exact up uq ne in
      elim (Bool-cases (less f second first)) [
        | inl before ↦ inr (
          picked ∙ rw before refl,
          IsBetter-candidates r priority model q p (less-NotBeaten second first before),
        )
        | inr after ↦ inl (
          picked ∙ rw after refl,
          IsBetter-candidates r priority model p q (not_less-NotBeaten first second after),
        )
      ]
