-- ===== src/Endpoints/Embeddings.antt =====
-- internal/gateway/embeddings.go. The check of the dimensions only logs. A body is not `null`, of which
-- Go's map would be nil.
use costguard.Base.{
  ℕ, String, not, List, ◌++◌, Option, none, some, str_eq, if◌then◌else◌, Result, ok, err, runes,
}
use costguard.Base.Float.{Float}
use costguard.Gateway.Errors.{GoError, gateway_error_category}
use costguard.Gateway.Retry.{replied, errored, Response}
use costguard.Gateway.Calls.{category_text}
use costguard.Proxy.{error_type_of}
use costguard.Proxy.Types.{Library, Request, Gateway, State, Environment, HttpResponse, buffered}
use costguard.Proxy.Routing.{known, requested_provider_hint, extract_model, rewrite_model_in_body}
use costguard.Proxy.Responses.{new_json_error_response, new_json_error_response_categorized}
use costguard.Proxy.Usages.{save, empty_record}
use costguard.Proxy.Upstream.{call_single_provider, after_call}
use costguard.Endpoints.Settings.{Settings, passed}

module _ (f : Float) (lib : Library) (usage_of : List ℕ → Option (ℕ × ℕ)) (g : Gateway f)
    (settings : Settings) (env : Environment f) where
  -- The tokens of the prompt and the total, of a body that could be decoded.
  unfoldable pub parse_embedding_usage : List ℕ → ℕ × ℕ
  parse_embedding_usage body = elim (usage_of body) [ none ↦ (0, 0) | some tokens ↦ tokens ]

  unfoldable pub meter_embedding_response :
      Request → String → String → ℕ → ℕ × ℕ → State f → State f
  meter_embedding_response r provider model status (prompt, total) s =
      save f g env
        (record (empty_record f g env r provider model status) {
          prompt_tokens = prompt;
          total_tokens = total;
        })
        s

  -- The provider, or the status and the message of the refusal.
  unfoldable pub choose_embedding_provider : Request → Result (ℕ × List ℕ) String
  choose_embedding_provider r =
      let hinted = requested_provider_hint lib r in
      let configured = settings.embedding_provider_name in
      if not (str_eq hinted "")
      then (if known f g hinted
          then ok hinted
          else err (400, runes "unknown provider hint: " ++ runes hinted))
      else if str_eq configured ""
      then err (503, runes "no embedding provider configured")
      else if known f g configured
      then ok configured
      else err (503, runes "embedding provider unavailable: " ++ runes configured)

  -- The body and the model that are sent.
  unfoldable pub embedding_request : List ℕ → List ℕ × String
  embedding_request body =
      if str_eq settings.embedding_model ""
      then (body, extract_model lib body)
      else elim (rewrite_model_in_body lib body settings.embedding_model) [
        | err e ↦ (body, extract_model lib body)
        | ok rewritten ↦ (rewritten, settings.embedding_model)
      ]

  -- What is made of a response: one with a body is read and metered, whatever its status.
  unfoldable pub return_embeddings :
      Request
      → String
      → String
      → Option (Response f)
      → State f
      → Result GoError (Option HttpResponse) × State f
  unfolding meter_embedding_response parse_embedding_usage
  return_embeddings r provider model none s = (ok none, s)
  return_embeddings r provider model (some resp) s = elim (env.payload_of resp.content).body [
    | none ↦ (ok (some (passed f g env resp)), s)
    | some reading ↦ elim reading [
      | err e ↦ (err e, s)
      | ok body ↦ (
        ok (some (record (passed f g env resp) { body = buffered body })),
        meter_embedding_response r provider model resp.status_code (parse_embedding_usage body) s,
      )
    ]
  ]

  -- The call of the provider, which no breaker guards.
  unfoldable pub embed :
      Request → List ℕ → String → String → State f → Result GoError (Option HttpResponse) × State f
  unfolding return_embeddings
  embed r body model provider s =
      let s' = after_call f g env provider body s in
      elim (call_single_provider f g env provider body).answer [
        | errored e ↦
            let category = gateway_error_category e in
            (
              ok (
                  some (
                    new_json_error_response_categorized 502 e.message (error_type_of category)
                      (category_text category))),
              s',
            )
        | replied resp ↦ return_embeddings r provider model resp s'
      ]

  -- `ProxyEmbeddings`
  unfoldable pub proxy_embeddings :
      Request → State f → Result GoError (Option HttpResponse) × State f
  unfolding choose_embedding_provider embedding_request embed
  proxy_embeddings r s = elim r.body [
    | err e ↦ (err e, s)
    | ok body ↦ elim (choose_embedding_provider r) [
      | err (status, message) ↦ (ok (some (new_json_error_response status message)), s)
      | ok provider ↦
          let (sent_body, model) = embedding_request body in embed r sent_body model provider s
    ]
  ]
