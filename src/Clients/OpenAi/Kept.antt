-- ===== src/Clients/OpenAi/Kept.antt =====
-- internal/providers/openai/client.go: every header of a request reaches OpenAI.
use Prim.Native.String
use mathlib.Core.Path.{subst}
use mathlib.Core.List.{append-nil}
use costguard.Base.{
  ◌≡◌, ◌∙◌, refl, sym, ap, String, true, false, ◌&&◌, List, [], ◌∷◌, ◌++◌, str_eq, lookup_or,
  lookup-insert, has, IsMap, lookup_missing, any, arith, eq_iff, Bool-cases, inl, inr,
}
use costguard.Proxy.Responses.{header_get}
use costguard.Clients.Http.{Header, add_all}
use costguard.Clients.Headers.{lookup_or-add_all}
use costguard.Clients.OpenAi.{Client, copy_headers, set_default, upstream_header}

equal : (k j : String) → str_eq k j ≡ true → k ≡ j
equal k j e = ground (arith, eq_iff k j)

missing : (j : String) (h : Header) → has j h ≡ false → lookup_or j [] h ≡ []
missing j h e = ground (arith, lookup_missing j h e)

lookup_or-copy_headers :
    (j : String) (src dst : Header)
    → IsMap src
    → lookup_or j [] (copy_headers src dst) ≡ lookup_or j [] dst ++ lookup_or j [] src
unfolding copy_headers
lookup_or-copy_headers j [] dst w = sym (append-nil (lookup_or j [] dst))
lookup_or-copy_headers j ((k, vv) ∷ src) dst w =
    let ih = lookup_or-copy_headers j src (add_all k vv dst) w.1 in
    let added = lookup_or-add_all j k vv dst in
    elim (Bool-cases (str_eq k j)) [
      | inl e ↦
          let gone = missing j src (subst (λ i. has i src ≡ false) (equal k j e) w.0) in
          let rest = append-nil (lookup_or j [] dst ++ vv) in
          let found : lookup_or j [] ((k, vv) ∷ src) ≡ vv = rw (e, lookup_or) refl in
          rw (ih, added, e)
            (ap (λ (z : List String). (lookup_or j [] dst ++ vv) ++ z) gone
              ∙ (rest ∙ ap (λ (z : List String). lookup_or j [] dst ++ z) (sym found)))
      | inr e ↦
          let other : lookup_or j [] ((k, vv) ∷ src) ≡ lookup_or j [] src =
            rw (e, lookup_or) refl in
          rw (ih, added, e) (ap (λ (z : List String). lookup_or j [] dst ++ z) (sym other))
    ]

-- The first value, the empty text where there is none.
abbrev first : List String → String
first [] = ""
first (v ∷ vs) = v

header_get-first : (j : String) (h : Header) → header_get j h ≡ first (lookup_or j [] h)
header_get-first j h = ground arith

set_default-kept :
    (j k configured v : String) (h : Header)
    → (str_eq k j && str_eq (first (lookup_or j [] h)) "") ≡ false
    → lookup_or j [] (set_default k configured v h) ≡ lookup_or j [] h
unfolding set_default
set_default-kept j k configured v h e = elim (Bool-cases (str_eq k j)) [
  | inl q ↦
      let same = ap (λ i. header_get i h) (equal k j q) ∙ header_get-first j h in
      ground (arith, same)
  | inr q ↦ ground (arith, lookup-insert k j (v ∷ []) h)
]

-- The headers that a configuration sets where a request has none.
abbrev pub configured_headers : List String
configured_headers = "Openai-Project" ∷ "Openai-Organization" ∷ "Authorization" ∷ []

-- Every header of a request reaches OpenAI with its values, whichever it is, but for Authorization and
-- the two that name organization and project where they are empty.
pub upstream_header-kept :
    (c : Client) (h : Header) (j : String)
    → IsMap h
    → (any (λ k. str_eq k j) configured_headers && str_eq (header_get j h) "") ≡ false
    → lookup_or j [] (upstream_header c h) ≡ lookup_or j [] h
unfolding upstream_header
upstream_header-kept c h j w e =
    let copied = lookup_or-copy_headers j h [] w in
    let step =
      λ (k configured v : String) (m : Header)
          (here : (str_eq k j && str_eq (first (lookup_or j [] h)) "") ≡ false)
          (same : lookup_or j [] m ≡ lookup_or j [] h).
        set_default-kept j k configured v m
          (subst (λ vs. (str_eq k j && str_eq (first vs) "") ≡ false) (sym same) here)
        ∙ same in
    let bearer = String.◌++◌ "Bearer " c.api_key in
    let values = header_get-first j h in
    step "Openai-Project" c.project c.project _ (ground arith) (
      step "Openai-Organization" c.org c.org _ (ground arith)
        (step "Authorization" c.api_key bearer _ (ground arith) copied))
