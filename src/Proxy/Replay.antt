-- ===== src/Proxy/Replay.antt =====
-- internal/gateway/proxy.go, cache.go and provider.go: what is answered from the cache.
use costguard.Base.{
  ℕ, ◌+◌, ◌≡◌, ◌≤◌, refl, sym, ◌∙◌, String, true, false, not, List, none, some, ok, arith, ◌||◌,
  ◌==◌, eq_refl, lookup, lookup-insert,
}
use costguard.Base.Float.{Float}
use costguard.Cache.{Entry, Memory, get, look, set_entry, make_room}
use costguard.Gateway.Retry.{Response, replied}
use costguard.Proxy.{
  serve, ask_providers, maybe_store_and_return, store_and_return, uses_cache, key_of,
}
use costguard.Proxy.Types.{Library, Request, Gateway, State, Environment}
use costguard.Proxy.Metered.{OneMore-asked, meter_response-OneMore}
use costguard.Proxy.Responses.{
  is_streaming_response, cache_entry_from_response, response_from_cache_entry,
}
use costguard.Proxy.Upstream.{call_providers}
use costguard.Proxy.Usages.{meter_response}

-- What is set is found.
lookup-set_entry :
    (pick now : ℕ) (m : Memory) (k : String) (e : Entry)
    → lookup k (set_entry pick now m k e).entries ≡ some e
unfolding set_entry
lookup-set_entry pick now m k e =
    rw (lookup-insert k k e (make_room pick now m)) (ground (arith, eq_refl k))

get_fresh :
    (others : Memory → Memory) (m : Memory) (k : String) (now : ℕ) (e : Entry)
    → lookup k m.entries ≡ some e
    → now ≤ e.expires_at
    → (get others m k now).0 ≡ some e
unfolding get look
get_fresh others m k now e h l = ground arith

module _ (f : Float) (lib : Library) (g : Gateway f) where
  -- A fresh entry is the answer, and no provider is asked.
  serve-hit :
      (env : Environment f) (r : Request) (body : List ℕ) (model provider : String) (s : State f)
      (e : Entry)
      → uses_cache f lib g env r body ≡ true
      → lookup (key_of f lib g env r body model provider) s.cache.entries ≡ some e
      → env.now ≤ e.expires_at
      → let out = serve f lib g env r body model provider s in
        (out.0 ≡ ok (some (response_from_cache_entry lib e))) × (out.1.asked ≡ s.asked)
  unfolding serve
  serve-hit env r body model provider s e c h l =
      let key = key_of f lib g env r body model provider in
      let cache = (get env.others_cache s.cache key env.now).1 in
      let s' : State f = record s { cache = cache } in
      let q = get_fresh env.others_cache s.cache key env.now e h l in
      let metered = meter_response f g env lib r body provider model e.body true 200 s' in
      rw (c, serve, q)
        (
          refl,
          OneMore-asked f g env s' metered
              (meter_response-OneMore f g env lib r body provider model e.body true 200 s'),
        )

  module _ (env : Environment f) (r : Request) (body : List ℕ) (model provider : String)
      (resp : Response f) (b : List ℕ) where
    -- The entry that the answer becomes.
    abbrev pub entry_made : Entry
    entry_made =
        cache_entry_from_response lib resp.status_code (env.payload_of resp.content).header b
          env.now g.cache_ttl

    ask_stores :
        (key : String) (s : State f)
        → (not g.has_cache || (g.cache_ttl == 0)) ≡ false
        → (call_providers f g env lib provider body model s).0.answer ≡ replied (some resp)
        → (resp.status_code == 200) ≡ true
        → (env.payload_of resp.content).body ≡ some (ok b)
        → is_streaming_response (env.payload_of resp.content).header ≡ false
        → let out = ask_providers f lib g env r body model provider true key s in
          (out.0 ≡ ok (some (response_from_cache_entry lib entry_made)))
          × (lookup key out.1.cache.entries ≡ some entry_made)
    unfolding ask_providers maybe_store_and_return store_and_return
    ask_stores key s storing answer is_ok read whole =
        let (fallen, t) = call_providers f g env lib provider body model s in
        let t' =
          meter_response f g env lib r body fallen.provider fallen.model b false resp.status_code
            t in
        rw
          (
            answer, ask_providers, maybe_store_and_return, read, is_ok, whole, store_and_return,
            storing,
          )
          (refl, lookup-set_entry env.pick env.now t'.cache key entry_made)

    uses_cache_storing :
        uses_cache f lib g env r body ≡ true → (not g.has_cache || (g.cache_ttl == 0)) ≡ false
    uses_cache_storing h = ground arith

    serve_miss :
        (s : State f)
        → uses_cache f lib g env r body ≡ true
        → let key = key_of f lib g env r body model provider in
          let looked = get env.others_cache s.cache key env.now in
          looked.0 ≡ none
          → serve f lib g env r body model provider s
            ≡ ask_providers f lib g env r body model provider true key
                (record s { cache = looked.1 })
    unfolding serve
    serve_miss s c e = rw (c, serve, e) refl

    -- A request that missed the cache and that a provider answered with a body and status 200, not as a
    -- stream: if it is the next to be sent, within the cache's time to live and to the same provider and
    -- model, it gets the same response, and no provider is asked, whatever they would answer then.
    pub serve_replayed :
        (s : State f) (env2 : Environment f)
        → uses_cache f lib g env r body ≡ true
        → let key = key_of f lib g env r body model provider in
          let looked = get env.others_cache s.cache key env.now in
          looked.0 ≡ none
          → (call_providers f g env lib provider body model
              (record s { cache = looked.1 })).0.answer
            ≡ replied (some resp)
          → (resp.status_code == 200) ≡ true
          → (env.payload_of resp.content).body ≡ some (ok b)
          → is_streaming_response (env.payload_of resp.content).header ≡ false
          → env2.now ≤ env.now + g.cache_ttl
          → let first = serve f lib g env r body model provider s in
            let again = serve f lib g env2 r body model provider first.1 in
            (again.0 ≡ first.0) × (again.1.asked ≡ first.1.asked)
    unfolding cache_entry_from_response
    serve_replayed s env2 uses missed answer is_ok read whole soon =
        let key = key_of f lib g env r body model provider in
        let s' : State f = record s { cache = (get env.others_cache s.cache key env.now).1 } in
        let (first, stored) = ask_stores key s' (uses_cache_storing uses) answer is_ok read whole in
        let t = (ask_providers f lib g env r body model provider true key s').1 in
        let (again, asked) = serve-hit env2 r body model provider t entry_made uses stored soon in
        rw (serve_miss s uses missed) (again ∙ sym first, asked)
