-- ===== src/Clients/OpenAi.antt =====
-- internal/providers/openai/client.go. The calls of net/http and net/url are parameters.
pub mod Kept
use Prim.Native.String
use costguard.Base.{
  ℕ, String, Bool, true, false, not, ◌&&◌, ◌==◌, List, [], ◌∷◌, Option, none, some, str_eq,
  if◌then◌else◌, Result, ok, err, and_then, Dict, is_blank, lookup, has,
}
use costguard.Anthropic.Types.{OpenAiUsage}
use costguard.Gateway.Errors.{GoError}
use costguard.Proxy.Types.{ResponseMeta}
use costguard.Proxy.Responses.{header_get}
use costguard.Clients.Http.{
  Header, set, add_all, join_url_path, Url, Sent, ConfigError, name_required, bad_url,
}

pub record ClientConfig : Type 0 where
  pub name : String
  pub base_url : String
  pub api_key : String
  pub org : String
  pub project : String
  pub timeout : ℕ

-- The timeout is in seconds.
pub record Client : Type 0 where
  pub name : String
  pub base : Url
  pub api_key : String
  pub org : String
  pub project : String
  pub timeout : ℕ

unfoldable pub new_client : (String → Result GoError Url) → ClientConfig → Result ConfigError Client
new_client parse_url cfg =
    if str_eq cfg.name ""
    then err name_required
    else elim (parse_url
        (if str_eq cfg.base_url "" then "https://api.openai.com" else cfg.base_url)) [
          | err e ↦ err (bad_url e)
          | ok u ↦ ok (record {
            name = cfg.name;
            base = u;
            api_key = cfg.api_key;
            org = cfg.org;
            project = cfg.project;
            timeout = if cfg.timeout == 0 then 60 else cfg.timeout;
          })
        ]

-- `http.Request`, whose headers have canonical keys, as net/http parses them.
pub record Incoming : Type 0 where
  pub method : String
  pub path : List ℕ
  pub query : Dict String
  pub header : Header
  pub body : Result GoError (List ℕ)

-- The loop over the headers.
unfoldable pub copy_headers : Header → Header → Header
copy_headers [] dst = dst
copy_headers ((k, vv) ∷ src) dst = copy_headers src (add_all k vv dst)

-- Sets a header that is configured, where the request has none.
unfoldable pub set_default : String → String → String → Header → Header
set_default k configured v h =
    if str_eq (header_get k h) "" && not (is_blank configured) then set k v h else h

unfoldable pub upstream_header : Client → Header → Header
unfolding copy_headers set_default
upstream_header c h = set_default "Openai-Project" c.project c.project (
    set_default "Openai-Organization" c.org c.org
      (set_default "Authorization" c.api_key (String.◌++◌ "Bearer " c.api_key) (copy_headers h [])))

-- The call, whose answer is passed on as it is, and what is sent; the body is sent as it is read, and
-- one that cannot be read ends the call.
unfoldable pub do_request :
    {A : Type 0}
    → (Sent (List ℕ) → Result GoError A)
    → Client
    → Incoming
    → Result GoError A × List (Sent (List ℕ))
unfolding upstream_header
do_request upstream c r = elim r.body [
  | err e ↦ (err e, [])
  | ok body ↦
      let s : Sent (List ℕ) = record {
        method = r.method;
        origin = c.base.origin;
        path = join_url_path c.base.path r.path;
        query = r.query;
        header = upstream_header c r.header;
        payload = body;
      } in
      (upstream s, s ∷ [])
]

-- `ParseResponseMeta`, of the model and the usage that are decoded.
unfoldable pub parse_response_meta :
    (List ℕ → Result GoError (String × OpenAiUsage)) → List ℕ → Result GoError ResponseMeta
parse_response_meta decode body = and_then (decode body) (λ (model, u). ok (record {
  model = model;
  prompt_tokens = u.prompt_tokens;
  completion_tokens = u.completion_tokens;
  total_tokens = u.total_tokens;
  cache_creation_input_tokens = 0;
  cache_read_input_tokens = 0;
}))
