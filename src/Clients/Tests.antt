-- ===== src/Clients/Tests.antt =====
-- internal/providers: the theorems on the clients at requests that meet their hypotheses.
use costguard.Base.{
  ℕ, ◌≡◌, refl, true, false, List, [], ◌∷◌, none, some, Result, ok, err, runes, lookup_or,
}
use costguard.Json.{Value, null, text, array, object, field, end, nil, item, Codec}
use costguard.Anthropic.Types.{ChatRequest, MessagesResponse, said}
use costguard.Content.{
  extract_request_images, message_images, parse_content_parts, parse_blocks, parse_block,
}
use costguard.Gateway.Errors.{GoError}
use costguard.Clients.Http.{Header, Sent, Answer, Incoming}
use costguard.Clients.Anthropic as Anthropic
use costguard.Clients.Gemini as Gemini
use costguard.Clients.Compat as Compat
use costguard.Clients.Compat.Refused.{do_request-images}
use costguard.Clients.Headers.{foreign_headers_dropped}

abbrev codec : Codec
codec = record { unmarshal = λ s. none; marshal = λ v. "" }

abbrev refused : GoError
refused = record {
  message = runes "connection refused";
  deadline_exceeded = false;
  net_error = none;
  dns_error = false;
  upstream_status = none;
}

abbrev request : ChatRequest ℕ
request = record {
  model = "claude-sonnet-4-6";
  messages =
      record { role = "user"; content = text "hello"; tool_calls = []; tool_call_id = "" } ∷ [];
  max_tokens = 0;
  temperature = none;
  top_p = none;
  stop = null;
  stream = false;
  tools = [];
  tool_choice = null;
}

abbrev answer : MessagesResponse
answer = record {
  id = "m";
  model = "";
  content = said "hi" ∷ [];
  stop_reason = "end_turn";
  usage = record {
    input_tokens = 3;
    output_tokens = 4;
    cache_creation_input_tokens = 5;
    cache_read_input_tokens = 6;
  };
}

abbrev wire : Anthropic.Wire ℕ
wire = record {
  decode_request = λ body. some request;
  decode_response = λ body. ok answer;
  canonical = λ k. k;
  now = 0;
  codec = codec;
  decoder = record {
    message_start = λ s. none;
    block_start = λ s. none;
    block_delta = λ s. none;
    message_delta = λ s. none;
  };
}

abbrev reached : Answer
reached = record { status_code = 200; header = []; body = []; lines = []; read_error = none }

abbrev upstream : {P : Type 0} → Sent P → Result GoError Answer
upstream s = ok reached

abbrev client : Anthropic.Client
client = record {
  name = "anthropic";
  base = record { origin = "https://api.anthropic.com"; path = [] };
  api_key = "key";
  anthropic_version = "2023-06-01";
  timeout = 60;
}

abbrev headers : Header
headers =
    ("Authorization", "Bearer mine" ∷ [])
    ∷ ("X-Api-Key", "mine" ∷ [])
    ∷ ("X-Request-Id", "7" ∷ [])
    ∷ []

abbrev incoming : Incoming
incoming = record {
  method = "POST";
  path = "/v1/chat/completions";
  query = [];
  header = headers;
  body = ok [];
}

abbrev gemini_wire : Gemini.Wire ℕ
gemini_wire = record {
  decode_request = λ body. some request;
  decode_response = λ body. err refused;
  canonical = λ k. k;
  now = 0;
  fresh_id = "";
  get = λ u. err refused;
  content_type = λ a. [];
  error_text = λ e. "";
  itoa = λ status. "";
  text_of = λ s. "";
  encode_base64 = λ s. "";
  codec = codec;
  decode_line = λ s. none;
}

-- A client's own key does not reach Anthropic or Gemini, and the gateway's does.
foreign_headers_dropped_example :
    (lookup_or "X-Api-Key" [] (Anthropic.upstream_header wire upstream client false headers)
      ≡ "key" ∷ [])
    × (lookup_or "X-Api-Key" [] (Gemini.upstream_header gemini_wire upstream false headers) ≡ [])
foreign_headers_dropped_example =
    foreign_headers_dropped wire upstream gemini_wire upstream client false headers "X-Api-Key" refl

abbrev compat_client : Compat.Client
compat_client = record {
  name = "local";
  base = record { origin = "http://localhost:11434"; path = [] };
  api_key = "";
  timeout = 60;
  allow_multimodal = false;
  support_tools = true;
}

abbrev pictures : List Value
pictures = array (item (object (field "type" (text "image_url") end)) nil) ∷ []

abbrev compat_wire : Compat.Wire
compat_wire = record { message_contents = λ body. some pictures; tool_use = λ body. none }

abbrev compat_incoming : Compat.Incoming
compat_incoming = record {
  method = "POST";
  path = runes "/v1/chat/completions";
  query = [];
  body = ok [];
}

do_request-images_example :
    (Compat.do_request compat_wire upstream compat_client compat_incoming).sent ≡ []
unfolding extract_request_images message_images parse_content_parts parse_blocks parse_block
do_request-images_example =
    do_request-images compat_wire upstream compat_client compat_incoming [] pictures refl refl refl
      refl refl refl
