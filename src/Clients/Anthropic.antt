-- ===== src/Clients/Anthropic.antt =====
-- internal/providers/anthropic/client.go. The calls of encoding/json and net/http are parameters; a
-- request that was decoded is marshalled, and its URL is formed, without an error.
use costguard.Base.{
  ℕ, String, Bool, List, [], ◌∷◌, Option, none, some, str_eq, if◌then◌else◌, ◌==◌, runes, Result,
  ok, err, and_then,
}
use costguard.Json.{Codec}
use costguard.Anthropic.Types.{
  ChatRequest, MessagesRequest, MessagesResponse, ChatResponse, OpenAiUsage,
}
use costguard.Anthropic.Images.{TransformError}
use costguard.Anthropic.Request.{to_anthropic_request}
use costguard.Anthropic.Response.{to_openai_response}
use costguard.Anthropic.Stream.{Decoder, Chunk, translate_anthropic_stream}
use costguard.Gateway.Errors.{GoError}
use costguard.Proxy.Types.{ResponseMeta}
use costguard.Proxy.Responses.{header_get}
use costguard.Clients.Http.{
  Header, set, copy_allowed_headers, join_url_path, Url, Sent, Answer, is_success, ConfigError,
  name_required, bad_url, Incoming, unsupported_path, invalid_body, untranslatable, chat, raw,
  event_stream, Reply, Done, json_header, event_stream_header, refuse,
}

pub record ClientConfig : Type 0 where
  pub name : String
  pub base_url : String
  pub api_key : String
  pub anthropic_version : String
  pub timeout : ℕ

-- The timeout is in seconds; streams have none.
pub record Client : Type 0 where
  pub name : String
  pub base : Url
  pub api_key : String
  pub anthropic_version : String
  pub timeout : ℕ

unfoldable pub new_client : (String → Result GoError Url) → ClientConfig → Result ConfigError Client
new_client parse_url cfg =
    if str_eq cfg.name ""
    then err name_required
    else elim (parse_url
        (if str_eq cfg.base_url "" then "https://api.anthropic.com" else cfg.base_url)) [
          | err e ↦ err (bad_url e)
          | ok u ↦ ok (record {
            name = cfg.name;
            base = u;
            api_key = cfg.api_key;
            anthropic_version =
                if str_eq cfg.anthropic_version "" then "2023-06-01" else cfg.anthropic_version;
            timeout = if cfg.timeout == 0 then 60 else cfg.timeout;
          })
        ]

-- The standard library: `json.Unmarshal` of a request, and of a response, `CanonicalHeaderKey`, the
-- clock in seconds, and the calls of the translations.
pub record Wire (F : Type 0) : Type 0 where
  pub decode_request : List ℕ → Option (ChatRequest F)
  pub decode_response : List ℕ → Result GoError MessagesResponse
  pub canonical : String → String
  pub now : ℕ
  pub codec : Codec
  pub decoder : Decoder

abbrev pub Answered : Type 0 → Type 0
Answered F = Done (MessagesRequest F) TransformError ChatResponse Chunk

-- `header.Set(…)` of the upstream's organization, where it has one.
abbrev pub with_organization : Header → Header → Header
with_organization from h =
    let id = header_get "Anthropic-Organization-Id" from in
    if str_eq id "" then h else set "Anthropic-Organization-Id" id h

abbrev pub raw_json_response : Answer → Reply TransformError ChatResponse Chunk
raw_json_response a = record {
  status_code = a.status_code;
  header = with_organization a.header json_header;
  body = raw a.body;
}

abbrev pub set_unless_empty : String → String → Header → Header
set_unless_empty k v h = if str_eq v "" then h else set k v h

module _ {F : Type 0} (wire : Wire F)
    (upstream : Sent (MessagesRequest F) → Result GoError Answer) where
  -- The headers of the request to the upstream.
  unfoldable pub upstream_header : Client → Bool → Header → Header
  upstream_header c streaming h =
      let base = set "Content-Type" "application/json" (copy_allowed_headers wire.canonical h []) in
      set_unless_empty "Anthropic-Version" c.anthropic_version (
        set_unless_empty "X-Api-Key" c.api_key
          (if streaming then set "Accept" "text/event-stream" base else base))

  unfoldable pub upstream_request :
      Client → Bool → Incoming → MessagesRequest F → Sent (MessagesRequest F)
  unfolding upstream_header
  upstream_request c streaming r m = record {
    method = "POST";
    origin = c.base.origin;
    path = join_url_path c.base.path (runes "/v1/messages");
    query = [];
    header = upstream_header c streaming r.header;
    payload = m;
  }

  -- What is made of the answer to a request that is no stream.
  unfoldable pub whole_reply :
      ChatRequest F
      → Result GoError Answer
      → Result GoError (Reply TransformError ChatResponse Chunk)
  whole_reply oa answer = and_then answer (λ a. elim a.read_error [
    | some e ↦ err e
    | none ↦
        if is_success a.status_code
        then and_then (wire.decode_response a.body) (λ m. ok (record {
          status_code = 200;
          header = with_organization a.header json_header;
          body = chat (to_openai_response wire.codec oa.model wire.now m);
        }))
        else ok (raw_json_response a)
  ])

  unfoldable pub do_streaming_chat_completions :
      ChatRequest F
      → Result GoError Answer
      → Result GoError (Reply TransformError ChatResponse Chunk)
  do_streaming_chat_completions oa answer = and_then answer (λ a.
      if is_success a.status_code
      then ok (record {
        status_code = 200;
        header = with_organization a.header event_stream_header;
        body = event_stream (translate_anthropic_stream wire.decoder oa.model a.lines);
      })
      else ok (raw_json_response a))

  unfoldable pub do_chat_completions : Client → Incoming → Answered F
  unfolding upstream_request whole_reply do_streaming_chat_completions
  do_chat_completions c r = elim r.body [
    | err e ↦ record { result = err e; sent = [] }
    | ok body ↦ elim (wire.decode_request body) [
      | none ↦ record { result = ok (refuse invalid_body); sent = [] }
      | some oa ↦ elim (to_anthropic_request wire.codec oa) [
        | err e ↦ record { result = ok (refuse (untranslatable e)); sent = [] }
        | ok m ↦
            let s = upstream_request c oa.stream r m in
            record {
              result =
                  if oa.stream
                  then do_streaming_chat_completions oa (upstream s)
                  else whole_reply oa (upstream s);
              sent = s ∷ [];
            }
      ]
    ]
  ]

  unfoldable pub do_request : Client → Incoming → Answered F
  unfolding do_chat_completions
  do_request c r =
      if str_eq r.path "/v1/chat/completions"
      then do_chat_completions c r
      else record { result = ok (refuse (unsupported_path r.path)); sent = [] }

-- `ParseResponseMeta`, of the model and the usage that are decoded of a body of type `B`.
unfoldable pub parse_response_meta :
    {B : Type 0} → (B → Result GoError (String × OpenAiUsage)) → B → Result GoError ResponseMeta
parse_response_meta decode body = and_then (decode body) (λ (model, u). ok (record {
  model = model;
  prompt_tokens = u.prompt_tokens;
  completion_tokens = u.completion_tokens;
  total_tokens = u.total_tokens;
  cache_creation_input_tokens = u.cache_creation_input_tokens;
  cache_read_input_tokens = u.cache_read_input_tokens;
}))
