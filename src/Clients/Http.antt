-- ===== src/Clients/Http.antt =====
-- internal/providers/anthropic/client.go, gemini/client.go, openaicompat/client.go and
-- openai/client.go: what the clients share. Each of the four has its own copy of `joinURLPath`, and two
-- have the same `copyAllowedHeaders`. Texts that are taken apart are lists of code points; HTTP itself
-- and the parsing of URLs are the standard library's.
use costguard.Base.{
  ℕ, String, Bool, not, ◌&&◌, ◌==◌, List, [], ◌∷◌, ◌++◌, Option, str_eq, if◌then◌else◌, any,
  is_empty, Dict, insert, lookup_or, Result, ltb,
}
use costguard.Gateway.Errors.{GoError}

-- `http.Header`, whose keys are canonical but where code sets them otherwise.
abbrev pub Header : Type 0
Header = Dict (List String)

abbrev pub set : String → String → Header → Header
set k v h = insert k (v ∷ []) h

-- `dst.Add(k, v)` for each value.
abbrev pub add_all : String → List String → Header → Header
add_all k [] h = h
add_all k (v ∷ vs) h = add_all k vs (insert k (lookup_or k [] h ++ (v ∷ [])) h)

abbrev pub allowed_headers : List String
allowed_headers =
    "X-Request-Id" ∷ "X-Costguard-Team" ∷ "X-Costguard-Project" ∷ "X-Costguard-User"
    ∷ "X-Costguard-Agent" ∷ []

-- `copyAllowedHeaders`, the source in the order in which the map is walked; `canonical` is
-- `http.CanonicalHeaderKey`.
unfoldable pub copy_allowed_headers : (String → String) → Header → Header → Header
copy_allowed_headers canonical [] dst = dst
copy_allowed_headers canonical ((k, vv) ∷ src) dst =
    copy_allowed_headers canonical src
      (if any (str_eq (canonical k)) allowed_headers then add_all (canonical k) vv dst else dst)

-- `strings.TrimLeft(s, "/")`
abbrev pub trim_slashes : List ℕ → List ℕ
trim_slashes [] = []
trim_slashes (c ∷ s) = if c == b'/' then trim_slashes s else c ∷ s

-- `strings.TrimRight(s, "/")`
abbrev pub trim_right_slashes : List ℕ → List ℕ
trim_right_slashes [] = []
trim_right_slashes (c ∷ s) =
    let rest = trim_right_slashes s in if c == b'/' && is_empty rest then [] else c ∷ rest

unfoldable pub join_url_path : List ℕ → List ℕ → List ℕ
join_url_path a b =
    if is_empty a
    then b
    else if is_empty b
    then a
    else trim_right_slashes a ++ (b'/' ∷ trim_slashes b)

-- `url.URL`: what stands in front of the path, and the path.
pub record Url : Type 0 where
  pub origin : String
  pub path : List ℕ

-- What `http.NewRequestWithContext` is given, with a payload of type `P`.
pub record Sent (P : Type 0) : Type 0 where
  pub method : String
  pub origin : String
  pub path : List ℕ
  pub query : Dict String
  pub header : Header
  pub payload : P

-- A response of the upstream: what its body holds, the lines that a scanner gives of it, and the
-- error that ends reading it, if any.
pub record Answer : Type 0 where
  pub status_code : ℕ
  pub header : Header
  pub body : List ℕ
  pub lines : List String
  pub read_error : Option GoError

abbrev pub is_success : ℕ → Bool
is_success status = not (ltb status 200) && ltb status 300

-- The errors of `NewClient`.
pub data ConfigError : Type 0 where
  name_required : ConfigError
  base_url_required : ConfigError
  bad_url : GoError → ConfigError

-- `http.Request` as a client reads it.
pub record Incoming : Type 0 where
  pub method : String
  pub path : String
  pub query : Dict String
  pub header : Header
  pub body : Result GoError (List ℕ)

-- Why a client answers by itself: the path, or a body that is not JSON, or not translated.
pub data Refusal (E : Type 0) : Type 0 where
  unsupported_path : String → Refusal E
  invalid_body : Refusal E
  untranslatable : E → Refusal E

abbrev pub refusal_status : {E : Type 0} → Refusal E → ℕ
refusal_status (unsupported_path p) = 501
refusal_status invalid_body = 400
refusal_status (untranslatable e) = 400

abbrev pub refusal_type : {E : Type 0} → Refusal E → String
refusal_type (unsupported_path p) = "not_implemented"
refusal_type invalid_body = "invalid_request_error"
refusal_type (untranslatable e) = "invalid_request_error"

-- The body of a client's response: an error of its own by its reason, a translated response, the
-- upstream's bytes, or the chunks of a translated stream.
pub data ReplyBody (E R C : Type 0) : Type 0 where
  refusal : Refusal E → ReplyBody E R C
  chat : R → ReplyBody E R C
  raw : List ℕ → ReplyBody E R C
  event_stream : List C → ReplyBody E R C

pub record Reply (E R C : Type 0) : Type 0 where
  pub status_code : ℕ
  pub header : Header
  pub body : ReplyBody E R C

-- What `Do` returns, and what it has sent.
pub record Done (P E R C : Type 0) : Type 0 where
  pub result : Result GoError (Reply E R C)
  pub sent : List (Sent P)

abbrev pub json_header : Header
json_header = ("Content-Type", "application/json" ∷ []) ∷ []

abbrev pub event_stream_header : Header
event_stream_header =
    ("Content-Type", "text/event-stream" ∷ [])
    ∷ ("Cache-Control", "no-cache" ∷ [])
    ∷ ("Connection", "keep-alive" ∷ [])
    ∷ []

module _ {E R C : Type 0} where
  abbrev pub refuse : Refusal E → Reply E R C
  refuse r = record { status_code = refusal_status r; header = json_header; body = refusal r }
