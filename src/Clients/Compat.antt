-- ===== src/Clients/Compat.antt =====
-- internal/providers/openaicompat/client.go. The calls of encoding/json, net/http and net/url are
-- parameters.
pub mod Refused
use Prim.Native.String
use costguard.Base.{
  ℕ, String, Bool, true, false, not, ◌||◌, ◌&&◌, ◌==◌, List, [], ◌∷◌, Option, none, some, str_eq,
  if◌then◌else◌, Result, ok, err, and_then, Dict, is_empty, is_blank, any, same_runes, runes,
}
use costguard.Json.{Value, array, object, text, Items, nil, item, field_of}
use costguard.Anthropic.Types.{OpenAiUsage}
use costguard.Gateway.Errors.{GoError}
use costguard.Proxy.Types.{ResponseMeta}
use costguard.Clients.Http.{
  Header, set, join_url_path, Url, Sent, ConfigError, name_required, base_url_required, bad_url,
  json_header,
}

pub record ClientConfig : Type 0 where
  pub name : String
  pub base_url : String
  pub api_key : String
  pub timeout : ℕ
  pub allow_multimodal : Bool
  pub support_tools : Bool

-- The timeout is in seconds.
pub record Client : Type 0 where
  pub name : String
  pub base : Url
  pub api_key : String
  pub timeout : ℕ
  pub allow_multimodal : Bool
  pub support_tools : Bool

unfoldable pub new_client : (String → Result GoError Url) → ClientConfig → Result ConfigError Client
new_client parse_url cfg =
    if str_eq cfg.name ""
    then err name_required
    else if str_eq cfg.base_url ""
    then err base_url_required
    else elim (parse_url cfg.base_url) [
      | err e ↦ err (bad_url e)
      | ok u ↦ ok (record {
        name = cfg.name;
        base = u;
        api_key = cfg.api_key;
        timeout = if cfg.timeout == 0 then 60 else cfg.timeout;
        allow_multimodal = cfg.allow_multimodal;
        support_tools = cfg.support_tools;
      })
    ]

-- A block of a message's content that is an object of type `image_url`.
abbrev pub is_image_type : Option Value → Bool
is_image_type (some (text t)) = str_eq t "image_url"
is_image_type _ = false

abbrev pub is_image_block : Value → Bool
is_image_block (object m) = is_image_type (field_of "type" m)
is_image_block _ = false

abbrev pub has_image_block : Items → Bool
has_image_block nil = false
has_image_block (item v vs) = is_image_block v || has_image_block vs

abbrev pub has_image : Value → Bool
has_image (array vs) = has_image_block vs
has_image _ = false

-- Of the contents of the messages, if the body could be decoded.
unfoldable pub request_has_image_content : Option (List Value) → Bool
request_has_image_content none = false
request_has_image_content (some contents) = any has_image contents

-- A message as `requestHasToolCalls` decodes it: its role, and the number of its tool calls.
pub record ToolMessage : Type 0 where
  pub role : String
  pub tool_calls : ℕ

abbrev pub uses_tools : ToolMessage → Bool
uses_tools m = str_eq m.role "tool" || (str_eq m.role "assistant" && not (m.tool_calls == 0))

-- Of the number of tools and the messages, if the body could be decoded.
unfoldable pub request_has_tool_calls : Option (ℕ × List ToolMessage) → Bool
request_has_tool_calls none = false
request_has_tool_calls (some (tools, messages)) = not (tools == 0) || any uses_tools messages

-- `http.Request`, whose body is forwarded as it is: one that cannot be read ends the call, before it is
-- sent or while it is.
pub record Incoming : Type 0 where
  pub method : String
  pub path : List ℕ
  pub query : Dict String
  pub body : Result GoError (List ℕ)

-- The replies that the client makes itself, both with status 400 and type invalid_request_error, and
-- what the upstream answers, of a type `A`.
pub data CompatReply (A : Type 0) : Type 0 where
  multimodal_not_allowed : CompatReply A
  tools_not_allowed : CompatReply A
  passed_on : A → CompatReply A

pub record CompatDone (A : Type 0) : Type 0 where
  pub result : Result GoError (CompatReply A)
  pub sent : List (Sent (List ℕ))

-- The standard library: the decoding of bodies.
pub record Wire : Type 0 where
  pub message_contents : List ℕ → Option (List Value)
  pub tool_use : List ℕ → Option (ℕ × List ToolMessage)

module _ {A : Type 0} (wire : Wire) (upstream : Sent (List ℕ) → Result GoError A) where
  unfoldable pub upstream_request : Client → Incoming → List ℕ → Sent (List ℕ)
  upstream_request c r body =
      let base = set "Content-Type" "application/json" [] in
      record {
        method = r.method;
        origin = c.base.origin;
        path = join_url_path c.base.path r.path;
        query = r.query;
        header =
            if is_blank c.api_key
            then base
            else set "Authorization" (String.◌++◌ "Bearer " c.api_key) base;
        payload = body;
      }

  -- The request is passed on, its body as it is read.
  unfoldable pub pass_on : Client → Incoming → List ℕ → CompatDone A
  unfolding upstream_request
  pass_on c r body =
      let s = upstream_request c r body in
      record { result = and_then (upstream s) (λ a. ok (passed_on a)); sent = s ∷ [] }

  unfoldable pub do_request : Client → Incoming → CompatDone A
  unfolding pass_on request_has_image_content request_has_tool_calls
  do_request c r =
      let checked =
        (not c.allow_multimodal || not c.support_tools)
        && (str_eq r.method "POST" && same_runes r.path (runes "/v1/chat/completions")) in
      elim r.body [
        | err e ↦ record { result = err e; sent = [] }
        | ok body ↦
            if checked
              && (not c.allow_multimodal && request_has_image_content (wire.message_contents body))
            then record { result = ok multimodal_not_allowed; sent = [] }
            else if checked && (not c.support_tools && request_has_tool_calls (wire.tool_use body))
            then record { result = ok tools_not_allowed; sent = [] }
            else pass_on c r body
      ]

-- `ParseResponseMeta`, of the model and the usage that are decoded.
unfoldable pub parse_response_meta :
    (List ℕ → Result GoError (String × OpenAiUsage)) → List ℕ → Result GoError ResponseMeta
parse_response_meta decode body = and_then (decode body) (λ (model, u). ok (record {
  model = model;
  prompt_tokens = u.prompt_tokens;
  completion_tokens = u.completion_tokens;
  total_tokens = u.total_tokens;
  cache_creation_input_tokens = 0;
  cache_read_input_tokens = 0;
}))
