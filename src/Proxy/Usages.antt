-- ===== src/Proxy/Usages.antt =====
-- internal/gateway/metering.go and streaming.go: the usage records that requests leave.
use costguard.Base.{
  ℕ, ◌+◌, ◌/◌, ◌==◌, String, Bool, true, false, not, ◌&&◌, List, [], ◌∷◌, ◌++◌, none, some, str_eq,
  if◌then◌else◌, ltb, length, ok, err, is_empty,
}
use costguard.Base.Float.{Float}
use costguard.Metering.Cost.{Usage, estimate_cost}
use costguard.Providers.{get_provider}
use costguard.Content.{extract_request_images}
use costguard.Vision.{ImageUrl, anthropic_image_tokens, openai_image_tokens}
use costguard.Gateway.Meter.{DoneReport, new_stream_meter}
use costguard.Proxy.Types.{
  Library, Request, Gateway, State, Environment, Record, Provider, ResponseMeta, HttpResponse,
  metered,
}

abbrev pub request_images : Library → List ℕ → List ImageUrl
request_images lib body = elim (lib.message_contents body) [
  | none ↦ []
  | some contents ↦ extract_request_images contents
]

unfoldable pub estimate_vision_tokens : Library → Provider → List ℕ → ℕ
estimate_vision_tokens lib p body =
    let images = request_images lib body in
    if is_empty images
    then 0
    else if str_eq p.family "anthropic"
    then anthropic_image_tokens images
    else if str_eq p.family "openai"
    then openai_image_tokens images
    else 0

-- The correction of a response that reports no prompt tokens although the request has images.
unfoldable pub correct_vision : ℕ → ResponseMeta → ResponseMeta
correct_vision estimate meta =
    if ltb 0 estimate && (meta.prompt_tokens == 0)
    then record meta { prompt_tokens = estimate; total_tokens = estimate + meta.completion_tokens }
    else meta

module _ (f : Float) (g : Gateway f) (env : Environment f) where
  -- `usageStore.Save`, if there is a store.
  abbrev pub save : Record f → State f → State f
  save u s =
      if g.usage_store && not env.save_fails then record s { saved = s.saved ++ (u ∷ []) } else s

  -- A record of a request without tokens.
  abbrev pub empty_record : Request → String → String → ℕ → Record f
  empty_record r provider model status = record {
    request_id = r.request_id;
    timestamp = env.now;
    provider = provider;
    model = model;
    prompt_tokens = 0;
    completion_tokens = 0;
    total_tokens = 0;
    estimated_cost_usd = f.of_nat 0;
    price_found = false;
    cache_hit = false;
    metering_estimated = false;
    team = r.team;
    project = r.project;
    user = r.user;
    agent = r.agent;
    path = r.path;
    status_code = status;
  }

  unfoldable pub meter_failed_response : Request → String → String → ℕ → State f → State f
  meter_failed_response r provider model status s = save (empty_record r provider model status) s

  abbrev pub usage_of : String → String → Bool → ResponseMeta → Usage
  usage_of provider model cache_hit meta = record {
    provider = provider;
    model = model;
    prompt_tokens = meta.prompt_tokens;
    completion_tokens = meta.completion_tokens;
    total_tokens = meta.total_tokens;
    cache_hit = cache_hit;
    cache_creation_input_tokens = meta.cache_creation_input_tokens;
    cache_read_input_tokens = meta.cache_read_input_tokens;
  }

  abbrev pub no_tokens : String → ResponseMeta
  no_tokens model = record {
    model = model;
    prompt_tokens = 0;
    completion_tokens = 0;
    total_tokens = 0;
    cache_creation_input_tokens = 0;
    cache_read_input_tokens = 0;
  }

  -- The record of a request, by its tokens, with the cost that they are estimated to have.
  abbrev pub usage_record : Request → String → String → Bool → Bool → ResponseMeta → ℕ → Record f
  usage_record r provider model cache_hit estimated meta status =
      let (cost, price_found) =
        estimate_cost f g.config_prices (usage_of provider model cache_hit meta) in
      record (empty_record r provider model status) {
        prompt_tokens = meta.prompt_tokens;
        completion_tokens = meta.completion_tokens;
        total_tokens = meta.total_tokens;
        estimated_cost_usd = cost;
        price_found = price_found;
        cache_hit = cache_hit;
        metering_estimated = estimated;
      }

  -- `meterResponse` of what the cache answered.
  unfoldable pub meter_cache_hit : Request → String → String → ℕ → State f → State f
  meter_cache_hit r provider model status s =
      save (usage_record r provider model true false (no_tokens model) status) s

  -- `meterResponse` of what a provider answered; where it cannot be understood there is no record.
  unfoldable pub meter_answer :
      Library → Request → List ℕ → String → String → List ℕ → ℕ → State f → State f
  unfolding estimate_vision_tokens correct_vision
  meter_answer lib r request_body provider model body status s =
      if not (lib.is_usage_response body) then s else elim (get_provider g.registry provider) [
        | none ↦ s
        | some p ↦ elim (p.parse_response_meta body) [
          | err e ↦ s
          | ok parsed ↦
              let meta = correct_vision (estimate_vision_tokens lib p request_body) parsed in
              let final_model = if str_eq meta.model "" then model else meta.model in
              save (usage_record r provider final_model false false meta status) s
        ]
      ]

  unfoldable pub meter_response :
      Library → Request → List ℕ → String → String → List ℕ → Bool → ℕ → State f → State f
  unfolding meter_cache_hit meter_answer
  meter_response lib r request_body provider model body cache_hit status s =
      if cache_hit
      then meter_cache_hit r provider model status s
      else meter_answer lib r request_body provider model body status s

  -- `passthroughStreaming`: the meter that the client reads the body through.
  unfoldable pub passthrough_streaming :
      Library → String → String → List ℕ → HttpResponse → ℕ → HttpResponse
  passthrough_streaming lib provider model request_body resp source =
      let vision : ℕ = elim (get_provider g.registry provider) [
        | none ↦ 0
        | some p ↦ estimate_vision_tokens lib p request_body
      ] in
      record resp {
        body = metered source (new_stream_meter model (length request_body / 4) vision);
      }

  abbrev pub meta_of : DoneReport → ResponseMeta
  meta_of d = record {
    model = d.model;
    prompt_tokens = d.prompt;
    completion_tokens = d.completion;
    total_tokens = d.total;
    cache_creation_input_tokens = d.cache_creation;
    cache_read_input_tokens = d.cache_read;
  }

  -- `meterStreamingUsage`, of a call of `onDone`.
  unfoldable pub meter_streaming_usage : Request → String → DoneReport → State f → State f
  meter_streaming_usage r provider d s =
      save (usage_record r provider d.model false d.estimated (meta_of d) 200) s
