-- ===== src/Endpoints/Guarded.antt =====
-- internal/gateway/audio.go, speech.go and embeddings.go: which of the endpoints the budgets guard.
use costguard.Base.{
  ℕ, ◌≡◌, ◌⊎◌, inl, inr, refl, String, Bool, not, ◌&&◌, ◌++◌, List, [], ◌∷◌, Option, none, some,
  Result-cases, Option-cases, Bool-cases,
}
use costguard.Base.Float.{Float}
use costguard.Budget.{Service}
use costguard.Gateway.Retry.{Response}
use costguard.Proxy.Stages.{Reply-cases}
use costguard.Proxy.Types.{Library, Request, Gateway, State, Environment, Record}
use costguard.Endpoints.Settings.{Settings}
use costguard.Endpoints.Embeddings.{
  proxy_embeddings, embed, return_embeddings, choose_embedding_provider, embedding_request,
  meter_embedding_response, parse_embedding_usage,
}
use costguard.Proxy.Upstream.{call_single_provider, calls_of, outcomes_of, after_call}
use costguard.Proxy.Usages.{save, empty_record}

module _ (f : Float) (lib : Library) (usage_of : List ℕ → Option (ℕ × ℕ)) (g : Gateway f)
    (settings : Settings) (env : Environment f) where
  -- An embeddings request is served the same whatever budgets the gateway has, and whether it has
  -- breakers: one that is over every budget still reaches its provider.
  pub proxy_embeddings-unguarded :
      (b : Option (Service f)) (breakers : Bool) (r : Request) (s : State f)
      → proxy_embeddings f lib usage_of
          (record g { budget_checker = b; breakers = breakers })
          settings
          env
          r
          s
        ≡ proxy_embeddings f lib usage_of g settings env r s
  unfolding proxy_embeddings call_single_provider outcomes_of calls_of
  proxy_embeddings-unguarded b breakers r s = refl

  -- At most one record more, that costs nothing.
  abbrev pub CostsNothing : List (Record f) → List (Record f) → Type 0
  CostsNothing before after =
      (after ≡ before)
      ⊎ ((u : Record f) × (after ≡ before ++ (u ∷ [])) × (u.estimated_cost_usd ≡ f.of_nat 0))

  save-CostsNothing :
      (u : Record f) (s : State f)
      → u.estimated_cost_usd ≡ f.of_nat 0
      → CostsNothing s.saved (save f g env u s).saved
  save-CostsNothing u s h = elim (Bool-cases (g.usage_store && not env.save_fails)) [
    | inl e ↦ rw e (inr (u, refl, h))
    | inr e ↦ rw e (inl refl)
  ]

  return_embeddings-CostsNothing :
      (r : Request) (provider model : String) (resp : Option (Response f)) (s : State f)
      → CostsNothing s.saved
          (return_embeddings f lib usage_of g settings env r provider model resp s).1.saved
  unfolding return_embeddings meter_embedding_response
  return_embeddings-CostsNothing r provider model none s = inl refl
  return_embeddings-CostsNothing r provider model (some resp) s =
      elim (Option-cases (env.payload_of resp.content).body) [
        | inl e ↦ rw (e, return_embeddings) (inl refl)
        | inr (reading, e) ↦ elim (Result-cases reading) [
          | inl (x, q) ↦ rw (e, return_embeddings, q) (inl refl)
          | inr (body, q) ↦
              let tokens = parse_embedding_usage f lib usage_of g settings env body in
              rw (e, return_embeddings, q)
                (save-CostsNothing
                  (record (empty_record f g env r provider model resp.status_code) {
                    prompt_tokens = tokens.0;
                    total_tokens = tokens.1;
                  })
                  s refl)
        ]
      ]

  embed-CostsNothing :
      (r : Request) (body : List ℕ) (model provider : String) (s : State f)
      → CostsNothing s.saved (embed f lib usage_of g settings env r body model provider s).1.saved
  unfolding embed
  embed-CostsNothing r body model provider s =
      elim (Reply-cases f (call_single_provider f g env provider body).answer) [
        | inl (x, e) ↦ rw (e, embed) (inl refl)
        | inr (resp, e) ↦
            rw (e, embed)
              (return_embeddings-CostsNothing r provider model resp
                (after_call f g env provider body s))
      ]

  -- Whatever tokens an embeddings request used, it leaves at most one record, and that with an estimated
  -- cost of 0, so that it never counts towards a budget.
  pub proxy_embeddings-CostsNothing :
      (r : Request) (s : State f)
      → CostsNothing s.saved (proxy_embeddings f lib usage_of g settings env r s).1.saved
  unfolding proxy_embeddings embed
  proxy_embeddings-CostsNothing r s = elim (Result-cases r.body) [
    | inl (x, q) ↦ rw (q, proxy_embeddings) (inl refl)
    | inr (body, q) ↦
        elim (Result-cases (choose_embedding_provider f lib usage_of g settings env r)) [
          | inl (x, k) ↦ rw (q, proxy_embeddings, k) (inl refl)
          | inr (provider, k) ↦
              let sent = embedding_request f lib usage_of g settings env body in
              rw (q, proxy_embeddings, k) (embed-CostsNothing r sent.0 sent.1 provider s)
        ]
  ]
