-- ===== src/Gemini/Tests.antt =====
-- internal/providers/gemini/transform.go: the theorems at requests and streams that meet their
-- hypotheses.
use costguard.Base.{
  ℕ, ◌≡◌, ◌≢◌, refl, String, false, List, [], ◌∷◌, Option, none, some, str_eq, if◌then◌else◌, ok,
  is_empty, All,
}
use costguard.Json.{null, text, array, nil, item, Codec}
use costguard.Anthropic.Types.{ChatRequest}
use costguard.Content.{parse_content_parts}
use costguard.Gemini.Types.{
  called, spoken, GenerateResponse, GenerateRequest, words_part, UsageMetadata,
}
use costguard.Gemini.Parts.{Fetcher, user_content_to_gemini_parts, gemini_parts, gemini_part}
use costguard.Gemini.Request.{
  to_gemini_request, add_messages, add_message, add_user, request_of, stop_config, map_tool_choice,
  generation_config,
}
use costguard.Gemini.Stream.{translate_gemini_stream}
use costguard.Gemini.Stream.Calls.{
  calls_sent, number, all_calls, responses, translate_gemini_stream-calls,
}
use costguard.Gemini.Contents.{IsContent, to_gemini_request-IsContent, array_stop_refused}

abbrev codec : Codec
codec = record { unmarshal = λ s. none; marshal = λ v. "" }

abbrev usage : UsageMetadata
usage = record { prompt_token_count = 3; candidates_token_count = 4; total_token_count = 7 }

-- Two calls of tools around a text.
abbrev reply : GenerateResponse
reply = record {
  candidates =
      record {
        parts = called "search" null ∷ spoken "wait" ∷ called "read" null ∷ [];
        finish_reason = "STOP";
      }
      ∷ [];
  usage_metadata = usage;
  model_version = "gemini-2.5-pro";
  response_id = "r";
}

abbrev decode : String → Option GenerateResponse
decode s = if str_eq s "x" then some reply else none

abbrev lines : List String
lines = "data: x" ∷ "" ∷ "data: y" ∷ "data: x" ∷ []

translate_gemini_stream-calls_example :
    calls_sent (translate_gemini_stream codec decode "gemini-2.5-pro" lines)
    ≡ number 0 (all_calls codec decode (responses codec decode lines))
translate_gemini_stream-calls_example =
    translate_gemini_stream-calls codec decode "gemini-2.5-pro" lines

abbrev fetcher : Fetcher
fetcher = record { fetch = none; encode_base64 = λ bytes. "" }

abbrev request : ChatRequest ℕ
request = record {
  model = "gemini-2.5-pro";
  messages =
      record { role = "user"; content = text "hello"; tool_calls = []; tool_call_id = "" } ∷ [];
  max_tokens = 0;
  temperature = none;
  top_p = none;
  stop = null;
  stream = false;
  tools = [];
  tool_choice = null;
}

abbrev sent : GenerateRequest ℕ
sent = record {
  system_instruction = none;
  contents = record { role = "user"; parts = words_part "hello" ∷ [] } ∷ [];
  generation_config = none;
  tools = [];
  tool_config = none;
}

to_gemini_request-IsContent_example : (is_empty sent.contents ≡ false) × All IsContent sent.contents
unfolding to_gemini_request add_messages add_message add_user user_content_to_gemini_parts
    gemini_parts parse_content_parts gemini_part request_of stop_config map_tool_choice
    generation_config
to_gemini_request-IsContent_example = to_gemini_request-IsContent codec fetcher request sent refl

array_stop_refused_example :
    to_gemini_request codec fetcher (record request { stop = array (item (text "END") nil) })
    ≢ ok sent
array_stop_refused_example =
    array_stop_refused codec fetcher (record request { stop = array (item (text "END") nil) })
      (item (text "END") nil) sent refl
