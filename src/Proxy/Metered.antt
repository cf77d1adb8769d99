-- ===== src/Proxy/Metered.antt =====
-- internal/gateway/metering.go: a request leaves one usage record at most.
use costguard.Base.{
  ℕ, ◌≡◌, ap, String, Bool, true, false, List, [], ◌∷◌, ◌++◌, arith, Option-cases, Result-cases,
  Bool-cases, inl, inr, ◌⊎◌, if◌then◌else◌, not, ◌&&◌, str_eq,
}
use costguard.Base.Float.{Float}
use costguard.Providers.{get_provider}
use costguard.Proxy.Types.{Library, Request, Gateway, State, Environment, Record}
use costguard.Proxy.Usages.{
  save, meter_response, meter_answer, meter_cache_hit, meter_failed_response, usage_record,
  correct_vision, estimate_vision_tokens,
}

module _ (f : Float) (g : Gateway f) (env : Environment f) where
  -- Nothing differs but that there may be one more record.
  abbrev pub OneMore : State f → State f → Type 0
  OneMore s t = (t ≡ s) ⊎ ((u : Record f) × (t ≡ record s { saved = s.saved ++ (u ∷ []) }))

  save-OneMore : (u : Record f) (s : State f) → OneMore s (save f g env u s)
  save-OneMore u s = elim (Bool-cases (g.usage_store && not env.save_fails)) [
    | inl e ↦ inr (u, ground arith)
    | inr e ↦ inl (ground arith)
  ]

  pub meter_failed_response-OneMore :
      (r : Request) (provider model : String) (status : ℕ) (s : State f)
      → OneMore s (meter_failed_response f g env r provider model status s)
  unfolding meter_failed_response
  meter_failed_response-OneMore r provider model status s = save-OneMore _ s

  meter_answer-OneMore :
      (lib : Library) (r : Request) (request_body : List ℕ) (provider model : String)
      (body : List ℕ) (status : ℕ) (s : State f)
      → OneMore s (meter_answer f g env lib r request_body provider model body status s)
  unfolding meter_answer
  meter_answer-OneMore lib r request_body provider model body status s =
      elim (Bool-cases (lib.is_usage_response body)) [
        | inr e ↦ inl (ground arith)
        | inl e ↦ elim (Option-cases (get_provider g.registry provider)) [
          | inl q ↦ inl (ground arith)
          | inr (p, q) ↦ elim (Result-cases (p.parse_response_meta body)) [
            | inl (x, y) ↦ inl (ground arith)
            | inr (parsed, y) ↦
                let meta = correct_vision (estimate_vision_tokens lib p request_body) parsed in
                let final_model = if str_eq meta.model "" then model else meta.model in
                rw (e, q, y, meter_answer)
                  (save-OneMore
                    (usage_record f g env r provider final_model false false meta status) s)
          ]
        ]
      ]

  pub meter_response-OneMore :
      (lib : Library) (r : Request) (request_body : List ℕ) (provider model : String)
      (body : List ℕ) (cache_hit : Bool) (status : ℕ) (s : State f)
      → OneMore s (meter_response f g env lib r request_body provider model body cache_hit status s)
  unfolding meter_response meter_cache_hit
  meter_response-OneMore lib r request_body provider model body true status s = save-OneMore _ s
  meter_response-OneMore lib r request_body provider model body false status s =
      meter_answer-OneMore lib r request_body provider model body status s

  -- What does not depend on the records stays.
  pub OneMore-cache : (s t : State f) → OneMore s t → t.cache ≡ s.cache
  OneMore-cache s t h = elim h [
    | inl e ↦ ap (λ (x : State f). x.cache) e
    | inr (u, e) ↦ ap (λ (x : State f). x.cache) e
  ]

  pub OneMore-asked : (s t : State f) → OneMore s t → t.asked ≡ s.asked
  OneMore-asked s t h = elim h [
    | inl e ↦ ap (λ (x : State f). x.asked) e
    | inr (u, e) ↦ ap (λ (x : State f). x.asked) e
  ]

  pub OneMore-saved :
      (s t : State f)
      → OneMore s t
      → (t.saved ≡ s.saved) ⊎ ((u : Record f) × (t.saved ≡ s.saved ++ (u ∷ [])))
  OneMore-saved s t h = elim h [
    | inl e ↦ inl (ap (λ (x : State f). x.saved) e)
    | inr (u, e) ↦ inr (u, ap (λ (x : State f). x.saved) e)
  ]
