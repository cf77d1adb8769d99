-- ===== src/Endpoints/Speech.antt =====
-- internal/gateway/speech.go: speech, from a JSON body.
use costguard.Base.{
  ℕ, String, true, ◌==◌, List, [], ◌∷◌, Option, none, some, str_eq, if◌then◌else◌, Result, ok, err,
  runes, Dict, insert, length, and_then,
}
use costguard.Base.Float.{Float}
use costguard.Json.{text}
use costguard.Gateway.Errors.{GoError}
use costguard.Gateway.Retry.{Reply, replied, errored, Response}
use costguard.Proxy.Types.{Library, Request, Gateway, State, Environment, HttpResponse}
use costguard.Proxy.Routing.{choose_provider, extract_model}
use costguard.Proxy.Admission.{budget_refusal}
use costguard.Proxy.Responses.{new_json_error_response}
use costguard.Proxy.Usages.{save, empty_record}
use costguard.Proxy.Upstream.{call_providers}
use costguard.Endpoints.Settings.{
  Settings, LocalRequest, without_hints, Served, over_budget, passed,
}

-- `rewriteJSONModel`, of a body that is not `null`.
unfoldable pub rewrite_json_model : Library → List ℕ → String → Result GoError (List ℕ)
rewrite_json_model lib body new_model =
    and_then (lib.unmarshal_map body) (λ m. lib.marshal_map (insert "model" (text new_model) m))

-- Of the field `input`, if the body could be decoded.
unfoldable pub extract_input_char_count : (List ℕ → Option String) → List ℕ → ℕ
extract_input_char_count input_of body = elim (input_of body) [
  | none ↦ 0
  | some input ↦ length (runes input)
]

module _ (f : Float) (lib : Library) (input_of : List ℕ → Option String) (g : Gateway f)
    (settings : Settings) (env : Environment f) (local : LocalRequest → Reply f) where
  unfoldable pub meter_speech_response : Request → String → String → ℕ → ℕ → State f → State f
  meter_speech_response r provider model chars status s =
      save f g env
        (record (empty_record f g env r provider model status) {
          prompt_tokens = chars;
          total_tokens = chars;
          metering_estimated = true;
        })
        s

  -- The end of both branches: the response is passed on, a 200 is metered.
  unfoldable pub return_speech :
      Request
      → String
      → String
      → ℕ
      → Option (Response f)
      → State f
      → Result GoError (Option HttpResponse) × State f
  unfolding meter_speech_response
  return_speech r provider model chars none s = (ok none, s)
  return_speech r provider model chars (some resp) s = (
    ok (some (passed f g env resp)),
    if resp.status_code == 200
        then meter_speech_response r provider model chars resp.status_code s
        else s,
  )

  -- The body and the model for the server of the operator's own.
  abbrev pub for_local : List ℕ → String → List ℕ × String
  for_local body model =
      if str_eq settings.audio_tts_model ""
      then (body, model)
      else elim (rewrite_json_model lib body settings.audio_tts_model) [
        | err e ↦ (body, model)
        | ok rewritten ↦ (rewritten, settings.audio_tts_model)
      ]

  unfoldable pub proxy_speech_to_local :
      Request → Dict (List String) → List ℕ → String → ℕ → State f → Served f g env
  unfolding return_speech
  proxy_speech_to_local r header body model chars s =
      let (sent_body, sent_model) = for_local body model in
      let req : LocalRequest = record {
        method = r.method;
        target = settings.audio_tts_url;
        path = r.path;
        raw_query = r.raw_query;
        header = without_hints header;
        body = sent_body;
      } in
      (
        elim (local req) [
          | errored e ↦ (err e, s)
          | replied resp ↦ return_speech r "local" sent_model chars resp s
        ],
        req ∷ [],
      )

  -- The call of the providers, within the budget.
  unfoldable pub speech_through :
      Request
      → List ℕ
      → String
      → ℕ
      → String
      → State f
      → Result GoError (Option HttpResponse) × State f
  unfolding return_speech
  speech_through r body model chars provider s =
      let (fallen, s') = call_providers f g env lib provider body model s in
      elim fallen.answer [
        | errored e ↦ (err e, s')
        | replied resp ↦ return_speech r fallen.provider model chars resp s'
      ]

  -- `ProxySpeech`
  unfoldable pub proxy_speech : Request → Dict (List String) → State f → Served f g env
  unfolding proxy_speech_to_local speech_through
  proxy_speech r header s = elim r.body [
    | err e ↦ ((err e, s), [])
    | ok body ↦
        let model = extract_model lib body in
        let chars = extract_input_char_count input_of body in
        if str_eq settings.audio_tts_provider "local"
        then proxy_speech_to_local r header body model chars s
        else (
          elim (choose_provider f lib g r model) [
            | err message ↦ (ok (some (new_json_error_response 400 (runes message))), s)
            | ok provider ↦ elim (over_budget f g env r) [
              | some e ↦ (budget_refusal e, s)
              | none ↦ speech_through r body model chars provider s
            ]
          ],
          [],
        )
  ]
