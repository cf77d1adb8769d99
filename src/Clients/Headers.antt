-- ===== src/Clients/Headers.antt =====
-- internal/providers/anthropic/client.go and gemini/client.go: which headers of a client's request reach
-- the provider.
use mathlib.Core.List.{append-nil, append_assoc}
use costguard.Base.{
  ◌≡◌, ◌∙◌, refl, String, Bool, true, false, List, [], ◌∷◌, ◌++◌, not, ◌&&◌, str_eq, if◌then◌else◌,
  any, insert, lookup_or, lookup-insert, arith, eq_iff, Bool-cases, inl, inr, Result,
}
use costguard.Anthropic.Types.{MessagesRequest}
use costguard.Gateway.Errors.{GoError}
use costguard.Clients.Http.{
  Header, set, add_all, allowed_headers, copy_allowed_headers, Sent, Answer,
}
use costguard.Gemini.Types.{GenerateRequest}
use costguard.Clients.Anthropic as Anthropic
use costguard.Clients.Anthropic.{set_unless_empty}
use costguard.Clients.Gemini as Gemini

-- Adding values of a key puts them behind its own, and leaves the others.
pub lookup_or-add_all :
    (j k : String) (vs : List String) (h : Header)
    → lookup_or j [] (add_all k vs h)
      ≡ (if str_eq k j then lookup_or j [] h ++ vs else lookup_or j [] h)
lookup_or-add_all j k [] h = ground (arith, append-nil (lookup_or j [] h))
lookup_or-add_all j k (v ∷ vs) h =
    let vv = lookup_or k [] h ++ (v ∷ []) in
    ground (
      arith,
      eq_iff k j,
      lookup_or-add_all j k vs (insert k vv h),
      lookup-insert k j vv h,
      append_assoc (lookup_or j [] h) (v ∷ []) vs,
    )

any-equal :
    (k j : String) (ks : List String) → str_eq k j ≡ true → any (str_eq k) ks ≡ any (str_eq j) ks
any-equal k j ks h = ground (arith, eq_iff k j)

lookup_or-copy_allowed_headers :
    (canonical : String → String) (j : String) (src dst : Header)
    → any (str_eq j) allowed_headers ≡ false
    → lookup_or j [] (copy_allowed_headers canonical src dst) ≡ lookup_or j [] dst
unfolding copy_allowed_headers
lookup_or-copy_allowed_headers canonical j [] dst h = refl
lookup_or-copy_allowed_headers canonical j ((k, vv) ∷ src) dst h =
    elim (Bool-cases (any (str_eq (canonical k)) allowed_headers)) [
      | inr e ↦ rw e (lookup_or-copy_allowed_headers canonical j src dst h)
      | inl e ↦ elim (Bool-cases (str_eq (canonical k) j)) [
        | inl q ↦ ground (arith, any-equal (canonical k) j allowed_headers q)
        | inr q ↦ ground (
          arith,
          lookup_or-copy_allowed_headers canonical j src (add_all (canonical k) vv dst) h,
          lookup_or-add_all j (canonical k) vv dst,
        )
      ]
    ]

-- The headers of a request that are meant to reach a provider: its id, and the four that name team,
-- project, user and agent.
abbrev pub forwarded : List String
forwarded =
    "X-Request-Id" ∷ "X-Costguard-Team" ∷ "X-Costguard-Project" ∷ "X-Costguard-User"
    ∷ "X-Costguard-Agent" ∷ []

-- What a client sends of its own under a name: the type of the body, for a stream what it accepts, and
-- for Anthropic the key and the version of the client's configuration, if they are set.
abbrev pub own_gemini : Bool → String → List String
own_gemini streaming j =
    if str_eq "Content-Type" j
    then "application/json" ∷ []
    else if str_eq "Accept" j && streaming
    then "text/event-stream" ∷ []
    else []

abbrev pub unless_empty : String → List String
unless_empty v = if str_eq v "" then [] else v ∷ []

abbrev pub own_anthropic : Anthropic.Client → Bool → String → List String
own_anthropic c streaming j =
    if str_eq "X-Api-Key" j
    then unless_empty c.api_key
    else if str_eq "Anthropic-Version" j
    then unless_empty c.anthropic_version
    else own_gemini streaming j

copied_nothing :
    (canonical : String → String) (j : String) (h : Header)
    → any (str_eq j) forwarded ≡ false
    → lookup_or j [] (copy_allowed_headers canonical h []) ≡ []
copied_nothing canonical j h foreign = lookup_or-copy_allowed_headers canonical j h [] foreign

lookup_or-set :
    (k j v : String) (h : Header)
    → lookup_or j [] (set k v h) ≡ (if str_eq k j then v ∷ [] else lookup_or j [] h)
lookup_or-set k j v h = ground (arith, lookup-insert k j (v ∷ []) h)

lookup_or-set_unless_empty :
    (k j v : String) (h : Header)
    → lookup_or j [] (set_unless_empty k v h)
      ≡ (if str_eq k j && not (str_eq v "") then v ∷ [] else lookup_or j [] h)
lookup_or-set_unless_empty k j v h = ground (arith, lookup_or-set k j v h)

-- The headers for both, in front of those that only Anthropic gets.
abbrev base : (String → String) → Bool → Header → Header
base canonical streaming h =
    let typed = set "Content-Type" "application/json" (copy_allowed_headers canonical h []) in
    if streaming then set "Accept" "text/event-stream" typed else typed

lookup_or-base :
    (canonical : String → String) (streaming : Bool) (h : Header) (j : String)
    → any (str_eq j) forwarded ≡ false
    → lookup_or j [] (base canonical streaming h) ≡ own_gemini streaming j
lookup_or-base canonical streaming h j foreign =
    let copied = copy_allowed_headers canonical h [] in
    let typed = set "Content-Type" "application/json" copied in
    ground (
      arith,
      eq_iff "Content-Type" j,
      eq_iff "Accept" j,
      eq_iff "Content-Type" "Accept",
      copied_nothing canonical j h foreign,
      lookup_or-set "Content-Type" j "application/json" copied,
      lookup_or-set "Accept" j "text/event-stream" typed,
    )

-- Which of the two that are set last comes first makes no difference.
own_in_order :
    (c : Anthropic.Client) (streaming : Bool) (j : String)
    → (if str_eq "Anthropic-Version" j && not (str_eq c.anthropic_version "")
        then c.anthropic_version ∷ []
        else if str_eq "X-Api-Key" j && not (str_eq c.api_key "")
        then c.api_key ∷ []
        else own_gemini streaming j)
      ≡ own_anthropic c streaming j
own_in_order c streaming j = elim (Bool-cases (str_eq "X-Api-Key" j)) [
  | inl key ↦ rw (← (eq_iff "X-Api-Key" j).0 key) (ground arith)
  | inr other ↦ elim (Bool-cases (str_eq "Anthropic-Version" j)) [
    | inl version ↦ rw (← (eq_iff "Anthropic-Version" j).0 version) (ground arith)
    | inr rest ↦ ground arith
  ]
]

-- Of the headers of a request, only its id and the four that name team, project, user and agent reach
-- Anthropic or Gemini: under any other name, the names of credentials among them, the provider gets
-- exactly what the gateway's own client sets, whatever the request has there. These are the type of the
-- body, for a stream what is accepted, and for Anthropic the configured key and version, if not empty.
pub foreign_headers_dropped :
    {F : Type 0} (a : Anthropic.Wire F) (ask : Sent (MessagesRequest F) → Result GoError Answer)
    (g : Gemini.Wire F) (ask_gemini : Sent (GenerateRequest F) → Result GoError Answer)
    (c : Anthropic.Client) (streaming : Bool) (h : Header) (j : String)
    → any (str_eq j) forwarded ≡ false
    → (lookup_or j [] (Anthropic.upstream_header a ask c streaming h) ≡ own_anthropic c streaming j)
      × (lookup_or j [] (Gemini.upstream_header g ask_gemini streaming h) ≡ own_gemini streaming j)
unfolding Anthropic.upstream_header Gemini.upstream_header
foreign_headers_dropped a ask g ask_gemini c streaming h j foreign =
    let common = base a.canonical streaming h in
    let keyed = set_unless_empty "X-Api-Key" c.api_key common in
    (
      lookup_or-set_unless_empty "Anthropic-Version" j c.anthropic_version keyed
          ∙ rw (lookup_or-set_unless_empty "X-Api-Key" j c.api_key common)
              (rw (lookup_or-base a.canonical streaming h j foreign) (own_in_order c streaming j)),
      lookup_or-base g.canonical streaming h j foreign,
    )
