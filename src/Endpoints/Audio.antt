-- ===== src/Endpoints/Audio.antt =====
-- internal/gateway/audio.go: transcriptions.
use costguard.Base.{
  ℕ, String, true, not, ◌==◌, List, [], ◌∷◌, Option, none, some, str_eq, if◌then◌else◌, Result, ok,
  err, runes, Dict, insert,
}
use costguard.Base.Float.{Float}
use costguard.Gateway.Errors.{GoError}
use costguard.Gateway.Retry.{Reply, replied, errored, Response}
use costguard.Proxy.Types.{Library, Request, Gateway, State, Environment, HttpResponse, buffered}
use costguard.Proxy.Routing.{choose_provider}
use costguard.Proxy.Admission.{budget_refusal}
use costguard.Proxy.Responses.{new_json_error_response, header_get}
use costguard.Proxy.Usages.{save, empty_record}
use costguard.Proxy.Upstream.{call_providers}
use costguard.Endpoints.Settings.{
  Settings, LocalRequest, without_hints, Served, over_budget, passed,
}
use costguard.Endpoints.Multipart.{Forms, extract_model_from_multipart, rewrite_multipart_model}

module _ (f : Float) (lib : Library) (forms : Forms) (g : Gateway f) (settings : Settings)
    (env : Environment f) (local : LocalRequest → Reply f) where
  unfoldable pub meter_audio_response : Request → String → String → ℕ → State f → State f
  meter_audio_response r provider model status s =
      save f g env
        (record (empty_record f g env r provider model status) { metering_estimated = true }) s

  -- The end of both branches: a 200 is read and metered, anything else is passed on.
  unfoldable pub return_audio :
      Request
      → String
      → String
      → Option (Response f)
      → State f
      → Result GoError (Option HttpResponse) × State f
  unfolding meter_audio_response
  return_audio r provider model none s = (ok none, s)
  return_audio r provider model (some resp) s = elim (env.payload_of resp.content).body [
    | none ↦ (ok (some (passed f g env resp)), s)
    | some reading ↦
        if not (resp.status_code == 200)
        then (ok (some (passed f g env resp)), s)
        else elim reading [
          | err e ↦ (err e, s)
          | ok body ↦ (
            ok (some (record (passed f g env resp) { body = buffered body })),
            meter_audio_response r provider model resp.status_code s,
          )
        ]
  ]

  -- The body, its content type and the model for the server of the operator's own.
  abbrev pub for_local : String → List ℕ → String → (List ℕ × String) × String
  for_local content_type body model =
      if str_eq settings.audio_transcription_model ""
      then ((body, content_type), model)
      else elim (rewrite_multipart_model forms content_type body
          settings.audio_transcription_model) [
            | err e ↦ ((body, content_type), model)
            | ok rewritten ↦ (rewritten, settings.audio_transcription_model)
          ]

  unfoldable pub proxy_audio_to_local :
      Request → Dict (List String) → List ℕ → String → State f → Served f g env
  unfolding return_audio
  proxy_audio_to_local r header body model s =
      let ((sent_body, content_type), sent_model) =
        for_local (header_get "Content-Type" header) body model in
      let req : LocalRequest = record {
        method = r.method;
        target = settings.audio_transcription_url;
        path = r.path;
        raw_query = r.raw_query;
        header = without_hints (insert "Content-Type" (content_type ∷ []) header);
        body = sent_body;
      } in
      (
        elim (local req) [
          | errored e ↦ (err e, s)
          | replied resp ↦ return_audio r "local" sent_model resp s
        ],
        req ∷ [],
      )

  -- The call of the providers, within the budget.
  unfoldable pub audio_through :
      Request → List ℕ → String → String → State f → Result GoError (Option HttpResponse) × State f
  unfolding return_audio
  audio_through r body model provider s =
      let (fallen, s') = call_providers f g env lib provider body model s in
      elim fallen.answer [
        | errored e ↦ (err e, s')
        | replied resp ↦ return_audio r fallen.provider model resp s'
      ]

  -- `ProxyAudio`
  unfoldable pub proxy_audio : Request → Dict (List String) → State f → Served f g env
  unfolding proxy_audio_to_local audio_through
  proxy_audio r header s = elim r.body [
    | err e ↦ ((err e, s), [])
    | ok body ↦
        let model = extract_model_from_multipart forms (header_get "Content-Type" header) body in
        if str_eq settings.audio_transcription_provider "local"
        then proxy_audio_to_local r header body model s
        else (
          elim (choose_provider f lib g r model) [
            | err message ↦ (ok (some (new_json_error_response 400 (runes message))), s)
            | ok provider ↦ elim (over_budget f g env r) [
              | some e ↦ (budget_refusal e, s)
              | none ↦ audio_through r body model provider s
            ]
          ],
          [],
        )
  ]
