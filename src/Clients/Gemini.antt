-- ===== src/Clients/Gemini.antt =====
-- internal/providers/gemini/client.go. The calls of encoding/json and net/http are parameters; a request
-- that was decoded is marshalled, and its URL is formed, without an error.
use Prim.Native.String
use costguard.Base.{
  ℕ, String, Bool, false, ◌||◌, ◌==◌, List, [], ◌∷◌, ◌++◌, Option, none, some, str_eq,
  if◌then◌else◌, runes, Result, ok, err, and_then, Dict, trim_space,
}
use costguard.Json.{Codec}
use costguard.Anthropic.Types.{ChatRequest, ChatResponse, OpenAiUsage}
use costguard.Gemini.Types.{GenerateRequest, GenerateResponse}
use costguard.Gemini.Parts.{GeminiError, Fetcher}
use costguard.Gemini.Request.{to_gemini_request}
use costguard.Gemini.Response.{to_openai_response}
use costguard.Gemini.Stream.{StreamChunk, translate_gemini_stream}
use costguard.Gateway.Errors.{GoError}
use costguard.Proxy.Types.{ResponseMeta}
use costguard.Clients.Http.{
  Header, set, copy_allowed_headers, join_url_path, Url, Sent, Answer, is_success, ConfigError,
  name_required, bad_url, Incoming, unsupported_path, invalid_body, untranslatable, chat, raw,
  event_stream, Reply, Done, json_header, event_stream_header, refuse,
}

pub record ClientConfig : Type 0 where
  pub name : String
  pub base_url : String
  pub api_key : String
  pub timeout : ℕ

-- The timeout is in seconds; streams have none.
pub record Client : Type 0 where
  pub name : String
  pub base : Url
  pub api_key : String
  pub timeout : ℕ

unfoldable pub new_client : (String → Result GoError Url) → ClientConfig → Result ConfigError Client
new_client parse_url cfg =
    if str_eq cfg.name ""
    then err name_required
    else elim (parse_url (
        if str_eq cfg.base_url ""
        then "https://generativelanguage.googleapis.com"
        else cfg.base_url)) [
          | err e ↦ err (bad_url e)
          | ok u ↦ ok (record {
            name = cfg.name;
            base = u;
            api_key = cfg.api_key;
            timeout = if cfg.timeout == 0 then 60 else cfg.timeout;
          })
        ]

-- The standard library: `json.Unmarshal` of a request, and of a response, `CanonicalHeaderKey`, the
-- clock in seconds, an id made of the clock, a GET of an image, decimals, and the calls of the
-- translations.
pub record Wire (F : Type 0) : Type 0 where
  pub decode_request : List ℕ → Option (ChatRequest F)
  pub decode_response : List ℕ → Result GoError GenerateResponse
  pub canonical : String → String
  pub now : ℕ
  pub fresh_id : String
  pub get : String → Result GoError Answer
  pub content_type : Answer → List ℕ
  pub error_text : GoError → String
  pub itoa : ℕ → String
  pub text_of : List ℕ → String
  pub encode_base64 : List ℕ → String
  pub codec : Codec
  pub decode_line : String → Option GenerateResponse

-- A media type up to its first parameter: `ct[:idx]`, trimmed, where there is one.
abbrev pub before_semicolon : List ℕ → List ℕ
before_semicolon [] = []
before_semicolon (c ∷ s) = let rest = before_semicolon s in if c == b';' then [] else c ∷ rest

abbrev pub has_semicolon : List ℕ → Bool
has_semicolon [] = false
has_semicolon (c ∷ s) = c == b';' || has_semicolon s

abbrev pub media_type : List ℕ → List ℕ
media_type ct = if has_semicolon ct then trim_space (before_semicolon ct) else ct

abbrev pub Answered : Type 0 → Type 0
Answered F = Done (GenerateRequest F) GeminiError ChatResponse StreamChunk

abbrev pub raw_json_response : Answer → Reply GeminiError ChatResponse StreamChunk
raw_json_response a = record {
  status_code = a.status_code;
  header = json_header;
  body = raw a.body;
}

module _ {F : Type 0} (wire : Wire F)
    (upstream : Sent (GenerateRequest F) → Result GoError Answer) where
  -- The closure `fetch`.
  unfoldable pub fetch_image : String → Result String (List ℕ × String)
  fetch_image u = elim (wire.get u) [
    | err e ↦ err (wire.error_text e)
    | ok a ↦
        if is_success a.status_code
        then elim a.read_error [
          | some e ↦ err (wire.error_text e)
          | none ↦ ok (a.body, wire.text_of (media_type (wire.content_type a)))
        ]
        else err (String.◌++◌ "HTTP " (String.◌++◌ (wire.itoa a.status_code) " fetching image"))
  ]

  abbrev pub fetcher : Fetcher
  fetcher = record { fetch = some fetch_image; encode_base64 = wire.encode_base64 }

  abbrev pub upstream_query : Client → Bool → Dict String
  upstream_query c streaming =
      let key = if str_eq c.api_key "" then [] else ("key", c.api_key) ∷ [] in
      if streaming then ("alt", "sse") ∷ key else key

  abbrev pub upstream_path : Bool → String → List ℕ
  upstream_path streaming model =
      runes "/v1beta/models/"
      ++ (runes model ++ runes (if streaming then ":streamGenerateContent" else ":generateContent"))

  unfoldable pub upstream_header : Bool → Header → Header
  upstream_header streaming h =
      let base = set "Content-Type" "application/json" (copy_allowed_headers wire.canonical h []) in
      if streaming then set "Accept" "text/event-stream" base else base

  unfoldable pub upstream_request :
      Client → ChatRequest F → Incoming → GenerateRequest F → Sent (GenerateRequest F)
  unfolding upstream_header
  upstream_request c oa r m = record {
    method = "POST";
    origin = c.base.origin;
    path = join_url_path c.base.path (upstream_path oa.stream oa.model);
    query = upstream_query c oa.stream;
    header = upstream_header oa.stream r.header;
    payload = m;
  }

  -- What is made of the answer to a request that is no stream.
  unfoldable pub whole_reply :
      ChatRequest F
      → Result GoError Answer
      → Result GoError (Reply GeminiError ChatResponse StreamChunk)
  whole_reply oa answer = and_then answer (λ a. elim a.read_error [
    | some e ↦ err e
    | none ↦
        if is_success a.status_code
        then and_then (wire.decode_response a.body) (λ m. ok (record {
          status_code = 200;
          header = json_header;
          body = chat (to_openai_response wire.codec oa.model wire.now wire.fresh_id m);
        }))
        else ok (raw_json_response a)
  ])

  unfoldable pub do_streaming_chat_completions :
      ChatRequest F
      → Result GoError Answer
      → Result GoError (Reply GeminiError ChatResponse StreamChunk)
  do_streaming_chat_completions oa answer = and_then answer (λ a.
      if is_success a.status_code
      then ok (record {
        status_code = 200;
        header = event_stream_header;
        body = event_stream (translate_gemini_stream wire.codec wire.decode_line oa.model a.lines);
      })
      else ok (raw_json_response a))

  unfoldable pub do_chat_completions : Client → Incoming → Answered F
  unfolding upstream_request whole_reply do_streaming_chat_completions fetch_image
  do_chat_completions c r = elim r.body [
    | err e ↦ record { result = err e; sent = [] }
    | ok body ↦ elim (wire.decode_request body) [
      | none ↦ record { result = ok (refuse invalid_body); sent = [] }
      | some oa ↦ elim (to_gemini_request wire.codec fetcher oa) [
        | err e ↦ record { result = ok (refuse (untranslatable e)); sent = [] }
        | ok m ↦
            let s = upstream_request c oa r m in
            record {
              result =
                  if oa.stream
                  then do_streaming_chat_completions oa (upstream s)
                  else whole_reply oa (upstream s);
              sent = s ∷ [];
            }
      ]
    ]
  ]

  unfoldable pub do_request : Client → Incoming → Answered F
  unfolding do_chat_completions
  do_request c r =
      if str_eq r.path "/v1/chat/completions"
      then do_chat_completions c r
      else record { result = ok (refuse (unsupported_path r.path)); sent = [] }

-- `ParseResponseMeta`, of the model and the usage that are decoded.
unfoldable pub parse_response_meta :
    (List ℕ → Result GoError (String × OpenAiUsage)) → List ℕ → Result GoError ResponseMeta
parse_response_meta decode body = and_then (decode body) (λ (model, u). ok (record {
  model = model;
  prompt_tokens = u.prompt_tokens;
  completion_tokens = u.completion_tokens;
  total_tokens = u.total_tokens;
  cache_creation_input_tokens = 0;
  cache_read_input_tokens = 0;
}))
