-- ===== src/Proxy/Stored.antt =====
-- internal/gateway/provider.go and internal/cache/memory.go: what the cache holds.
use costguard.Base.{
  ℕ, zero, suc, ◌≡◌, refl, String, Bool, true, false, not, List, [], ◌∷◌, arith, Option-cases,
  Result-cases, Bool-cases, inl, inr, Dict, insert, delete, keep_values, ◌||◌, ◌==◌,
}
use costguard.Base.Float.{Float}
use costguard.Cache.{Entry, Memory, expired, drop_one, make_room, set_entry, get, get_locked}
use costguard.Proxy.{proxy, serve, ask_providers, store_and_return, uses_cache, key_of}
use costguard.Proxy.Types.{Library, Request, Gateway, State, Environment, HttpResponse}
use costguard.Proxy.Stages.{proxy_state, admit_state, ask_providers_state}
use costguard.Proxy.Metered.{
  OneMore, OneMore-cache, meter_response-OneMore, meter_failed_response-OneMore,
}
use costguard.Proxy.Responses.{cache_entry_from_response, is_cacheable_request}
use costguard.Proxy.Routing.{effective_request}
use costguard.Proxy.Upstream.{call_provider, call_providers, call_fallback}
use costguard.Proxy.Usages.{meter_response, meter_failed_response}

-- Every entry is of a response with status 200.
abbrev pub OkEntries : Dict Entry → Type 0
OkEntries [] = Unit
OkEntries ((k, e) ∷ m) = (e.status_code ≡ 200) × OkEntries m

insert-OkEntries :
    (k : String) (e : Entry) (m : Dict Entry)
    → e.status_code ≡ 200
    → OkEntries m
    → OkEntries (insert k e m)
insert-OkEntries k e [] h w = (h, tt)
insert-OkEntries k e ((j, d) ∷ m) h w = ground (arith, insert-OkEntries k e m h)

delete-OkEntries : (k : String) (m : Dict Entry) → OkEntries m → OkEntries (delete k m)
delete-OkEntries k [] w = tt
delete-OkEntries k ((j, d) ∷ m) w = ground (arith, delete-OkEntries k m)

keep_values-OkEntries :
    (p : Entry → Bool) (m : Dict Entry) → OkEntries m → OkEntries (keep_values p m)
keep_values-OkEntries p [] w = tt
keep_values-OkEntries p ((j, d) ∷ m) w = ground (arith, keep_values-OkEntries p m)

drop_one-OkEntries : (i : ℕ) (m : Dict Entry) → OkEntries m → OkEntries (drop_one i m)
drop_one-OkEntries i [] w = tt
drop_one-OkEntries zero (e ∷ m) w = w.1
drop_one-OkEntries (suc i) (e ∷ []) w = tt
drop_one-OkEntries (suc i) (e ∷ d ∷ m) w = (w.0, drop_one-OkEntries i (d ∷ m) w.1)

set_entry-OkEntries :
    (pick now : ℕ) (m : Memory) (k : String) (e : Entry)
    → e.status_code ≡ 200
    → OkEntries m.entries
    → OkEntries (set_entry pick now m k e).entries
unfolding set_entry make_room
set_entry-OkEntries pick now m k e h w =
    let live = keep_values (λ (d : Entry). not (expired now d)) m.entries in
    insert-OkEntries k e (make_room pick now m) h (
      ground (
        arith,
        keep_values-OkEntries (λ (d : Entry). not (expired now d)) m.entries w,
        drop_one-OkEntries pick live,
      ))

get-OkEntries :
    (others : Memory → Memory) (m : Memory) (k : String) (now : ℕ)
    → OkEntries m.entries
    → OkEntries (others m).entries
    → OkEntries (get others m k now).1.entries
unfolding get get_locked
get-OkEntries others m k now w v = ground (arith, delete-OkEntries k (others m).entries v)

module _ (f : Float) (lib : Library) (g : Gateway f) (env : Environment f) where
  -- The provider's calls leave the cache alone.
  call_provider-cache :
      (provider : String) (body : List ℕ) (s : State f)
      → (call_provider f g env provider body s).1.cache ≡ s.cache
  unfolding call_provider
  call_provider-cache provider body s = ground arith

  call_fallback-cache :
      (body : List ℕ) (model : String) (s : State f)
      → (call_fallback f g env lib body model s).1.cache ≡ s.cache
  unfolding call_fallback
  call_fallback-cache body model s =
      elim (Result-cases (effective_request f lib g body model g.fallback)) [
        | inl (e, q) ↦ rw (q, call_fallback) refl
        | inr ((body', model'), q) ↦ rw (q, call_fallback) (call_provider-cache g.fallback body' s)
      ]

  call_providers-cache :
      (provider : String) (body : List ℕ) (model : String) (s : State f)
      → (call_providers f g env lib provider body model s).1.cache ≡ s.cache
  unfolding call_providers
  call_providers-cache provider body model s =
      let s' = (call_provider f g env provider body s).1 in
      ground (arith, call_provider-cache provider body s, call_fallback-cache body model s')

  abbrev Holds : State f → Type 0
  Holds s = OkEntries s.cache.entries

  OneMore-Holds : (s t : State f) → OneMore f g env s t → Holds s → Holds t
  OneMore-Holds s t h w = rw (OneMore-cache f g env s t h) w

  store_and_return-Holds :
      (r : Request) (request_body : List ℕ) (provider model : String) (cacheable : Bool)
      (key : String) (out : HttpResponse) (body : List ℕ) (s : State f)
      → out.status_code ≡ 200
      → Holds s
      → Holds
          (store_and_return f lib g env r request_body provider model cacheable key out body s).1
  unfolding store_and_return
  store_and_return-Holds r request_body provider model cacheable key out body s h w =
      let s' =
        meter_response f g env lib r request_body provider model body false out.status_code s in
      let e = cache_entry_from_response lib out.status_code out.header body env.now g.cache_ttl in
      let w' : Holds s' =
        OneMore-Holds s s'
          (meter_response-OneMore f g env lib r request_body provider model body false
            out.status_code s)
          w in
      elim (Bool-cases (not cacheable || (not g.has_cache || (g.cache_ttl == 0)))) [
        | inl c ↦ rw (c, store_and_return) w'
        | inr c ↦
            rw (c, store_and_return)
              (set_entry-OkEntries env.pick env.now s'.cache key e
                (unfold cache_entry_from_response in h) w')
      ]

  ask_providers-Holds :
      (r : Request) (body : List ℕ) (model provider : String) (cacheable : Bool) (key : String)
      (s : State f)
      → Holds s
      → Holds (ask_providers f lib g env r body model provider cacheable key s).1
  ask_providers-Holds r body model provider cacheable key s w =
      let s' = (call_providers f g env lib provider body model s).1 in
      let w' : Holds s' = rw (call_providers-cache provider body model s) w in
      ask_providers_state f lib g env Holds r body model provider cacheable key s w'
        (λ p m status.
          OneMore-Holds s' (meter_failed_response f g env r p m status s')
            (meter_failed_response-OneMore f g env r p m status s') w')
        (λ p m out b h. store_and_return-Holds r body p m cacheable key out b s' h w')

  module _
      (kept : (m : Memory) → OkEntries m.entries → OkEntries (env.others_cache m).entries) where
    serve-Holds :
        (r : Request) (body : List ℕ) (model provider : String) (s : State f)
        → Holds s
        → Holds (serve f lib g env r body model provider s).1
    unfolding serve
    serve-Holds r body model provider s w =
        let key = key_of f lib g env r body model provider in
        let (found, cache) = get env.others_cache s.cache key env.now in
        let s' : State f = record s { cache = cache } in
        let w' = get-OkEntries env.others_cache s.cache key env.now w (kept s.cache w) in
        elim (Bool-cases (uses_cache f lib g env r body)) [
          | inr c ↦
              rw (c, serve)
                (ask_providers-Holds r body model provider (is_cacheable_request lib r body) "" s w)
          | inl c ↦ elim (Option-cases found) [
            | inl e ↦ rw (c, serve, e) (ask_providers-Holds r body model provider true key s' w')
            | inr (entry, e) ↦
                rw (c, serve, e)
                  (OneMore-Holds s'
                    (meter_response f g env lib r body provider model entry.body true 200 s')
                    (meter_response-OneMore f g env lib r body provider model entry.body true 200
                      s')
                    w')
          ]
        ]

    -- A cache that holds only responses with status 200 still does behind every request, whatever the
    -- providers answer, if what others do to the cache meanwhile keeps this: an error is never replayed.
    pub proxy-OkEntries :
        (r : Request) (s : State f)
        → OkEntries s.cache.entries
        → OkEntries (proxy f lib g env r s).1.cache.entries
    proxy-OkEntries r s w = proxy_state f lib g env Holds r s w (λ body model provider.
        admit_state f lib g env Holds r body model provider s (λ a. w)
          (λ a. serve-Holds r body model provider (record s { alerts = a }) w))
