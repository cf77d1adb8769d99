-- ===== src/Proxy/Stages.antt =====
-- internal/gateway/proxy.go: what holds behind each stage of a request holds behind the request.
use costguard.Base.{
  ℕ, ◌≡◌, refl, String, Bool, List, Option, none, some, ok, err, arith, Option-cases, inl, inr,
  Result-cases, Bool-cases, ◌==◌, ◌⊎◌,
}
use costguard.Base.Float.{Float}
use costguard.Alerts.{Alerts}
use costguard.Proxy.{
  Outcome, proxy, route, send_to, admit, serve, ask_providers, maybe_store_and_return,
  store_and_return, provider_error,
}
use costguard.Proxy.Types.{Library, Request, Gateway, State, Environment, HttpResponse, unread}
use costguard.Proxy.Responses.{is_streaming_response}
use costguard.Proxy.Usages.{meter_failed_response}
use costguard.Proxy.Upstream.{call_providers}
use costguard.Gateway.Errors.{GoError}
use costguard.Gateway.Retry.{Reply, Response, replied, errored}
use costguard.Proxy.Routing.{choose_provider, effective_request, extract_model}
use costguard.Proxy.Admission.{check_budgets}

pub Reply-cases :
    (f : Float) (a : Reply f)
    → ((e : GoError) × (a ≡ errored e)) ⊎ ((resp : Option (Response f)) × (a ≡ replied resp))
Reply-cases f (replied resp) = inr (resp, refl)
Reply-cases f (errored e) = inl (e, refl)

module _ (f : Float) (lib : Library) (g : Gateway f) (env : Environment f) (P : State f → Type 0)
    (r : Request) where
  pub send_to_state :
      (body : List ℕ) (model provider : String) (s : State f)
      → P s
      → ((body' : List ℕ) (model' : String) → P (admit f lib g env r body' model' provider s).1)
      → P (send_to f lib g env r body model provider s).1
  unfolding send_to
  send_to_state body model provider s h k =
      elim (Result-cases (effective_request f lib g body model provider)) [
        | inl (e, q) ↦ rw (q, send_to) h
        | inr ((body', model'), q) ↦ rw (q, send_to) (k body' model')
      ]

  route_state :
      (body : List ℕ) (s : State f)
      → P s
      → ((body' : List ℕ) (model provider : String)
          → P (admit f lib g env r body' model provider s).1)
      → P (route f lib g env r body s).1
  unfolding route
  route_state body s h k =
      let model = extract_model lib body in
      elim (Result-cases (choose_provider f lib g r model)) [
        | inl (message, c) ↦ rw (c, route) h
        | inr (provider, c) ↦
            rw (c, route)
              (send_to_state body model provider s h (λ body' model'. k body' model' provider))
      ]

  -- What holds of the state before a request, and behind its budget checks and all that follows them,
  -- holds behind the request.
  pub proxy_state :
      (s : State f)
      → P s
      → ((body : List ℕ) (model provider : String)
          → P (admit f lib g env r body model provider s).1)
      → P (proxy f lib g env r s).1
  unfolding proxy
  proxy_state s h k =
      elim r.body
        as (λ b.
          let out : Outcome f lib g env = elim b [
            | err e ↦ (err e, s)
            | ok body ↦ route f lib g env r body s
          ] in
          P out.1) [ err e ↦ h | ok body ↦ route_state body s h k ]

  -- The same behind the budget checks, for what does not depend on the alerts.
  pub admit_state :
      (body : List ℕ) (model provider : String) (s : State f)
      → ((a : Alerts) → P (record s { alerts = a }))
      → ((a : Alerts) → P (serve f lib g env r body model provider (record s { alerts = a })).1)
      → P (admit f lib g env r body model provider s).1
  unfolding admit
  admit_state body model provider s h k = elim (Option-cases (check_budgets f g env r s.alerts).0) [
    | inl e ↦ rw (e, admit) (k (check_budgets f g env r s.alerts).1)
    | inr (refusal, e) ↦ rw (e, admit) (h (check_budgets f g env r s.alerts).1)
  ]

  -- The same behind an answer, where the record of a failure or what is done with a 200 comes last.
  pub maybe_store_state :
      (body : List ℕ) (resp : Option (Response f)) (provider model : String) (cacheable : Bool)
      (key : String) (s : State f)
      → P s
      → ((status : ℕ) → P (meter_failed_response f g env r provider model status s))
      → ((out : HttpResponse) (b : List ℕ)
          → out.status_code ≡ 200
          → P (store_and_return f lib g env r body provider model cacheable key out b s).1)
      → P (maybe_store_and_return f lib g env r body resp provider model cacheable key s).1
  unfolding maybe_store_and_return
  maybe_store_state body none provider model cacheable key s h k l = h
  maybe_store_state body (some resp) provider model cacheable key s h k l =
      let payload = env.payload_of resp.content in
      let out : HttpResponse = record {
        status_code = resp.status_code;
        header = payload.header;
        body = unread resp.content;
      } in
      elim (Option-cases payload.body) [
        | inl e ↦ rw (e, maybe_store_and_return) h
        | inr (reading, e) ↦ elim (Bool-cases (resp.status_code == 200)) [
          | inr c ↦ rw (e, maybe_store_and_return, c) (k resp.status_code)
          | inl c ↦ elim (Bool-cases (is_streaming_response payload.header)) [
            | inl d ↦ rw (e, maybe_store_and_return, c, d) h
            | inr d ↦ elim (Result-cases reading) [
              | inl (x, q) ↦ rw (e, maybe_store_and_return, c, d, q) h
              | inr (b, q) ↦ rw (e, maybe_store_and_return, c, d, q) (l out b (ground arith))
            ]
          ]
        ]
      ]

  -- The same behind the calls of the providers.
  pub ask_providers_state :
      (body : List ℕ) (model provider : String) (cacheable : Bool) (key : String) (s : State f)
      → let s' = (call_providers f g env lib provider body model s).1 in
        P s'
        → ((provider' model' : String) (status : ℕ)
            → P (meter_failed_response f g env r provider' model' status s'))
        → ((provider' model' : String) (out : HttpResponse) (b : List ℕ)
            → out.status_code ≡ 200
            → P (store_and_return f lib g env r body provider' model' cacheable key out b s').1)
        → P (ask_providers f lib g env r body model provider cacheable key s).1
  unfolding ask_providers provider_error
  ask_providers_state body model provider cacheable key s h k l =
      let fallen = (call_providers f g env lib provider body model s).0 in
      let s' = (call_providers f g env lib provider body model s).1 in
      elim (Reply-cases f fallen.answer) [
        | inr (resp, e) ↦
            rw (e, ask_providers)
              (maybe_store_state body resp fallen.provider fallen.model cacheable key s' h
                (k fallen.provider fallen.model) (l fallen.provider fallen.model))
        | inl (x, e) ↦ elim (Option-cases x.upstream_status) [
          | inl q ↦ rw (e, ask_providers, q) h
          | inr (status, q) ↦ rw (e, ask_providers, q) (k fallen.provider fallen.model status)
        ]
      ]
