-- ===== src/Gemini/Response.antt =====
-- internal/providers/gemini/transform.go: `toOpenAIResponse`. The time, and the id made of it, are
-- arguments.
use Prim.Native.String
use costguard.Base.{
  ℕ, String, Bool, List, [], ◌∷◌, none, some, if◌then◌else◌, map, is_empty, is_blank, runes, upper,
  same_runes, any,
}
use costguard.Json.{Value, Codec}
use costguard.Anthropic.Types.{ChatResponse, AssistantMsg, ToolCall}
use costguard.Anthropic.Images.{join_lines}
use costguard.Gemini.Types.{ReplyPart, called, spoken, Candidate, GenerateResponse}

-- Whether `strings.ToUpper(v)` is a text.
abbrev pub is_upper : String → String → Bool
is_upper v t = same_runes (map upper (runes v)) (runes t)

unfoldable pub normalize_finish_reason : String → String
normalize_finish_reason v =
    if is_upper v "STOP"
    then "stop"
    else if is_upper v "MAX_TOKENS"
    then "length"
    else if any (is_upper v)
        ("SAFETY" ∷ "RECITATION" ∷ "BLOCKLIST" ∷ "PROHIBITED_CONTENT" ∷ "SPII" ∷ [])
    then "content_filter"
    else "stop"

unfoldable pub fallback_string : String → String → String
fallback_string a b = if is_blank a then b else a

-- Gemini gives calls no id: one is made of the function's name.
abbrev pub call_of : Codec → String → Value → ToolCall
call_of codec name args = record {
  id = String.◌++◌ "call_" name;
  kind = "function";
  function = record { name = name; arguments = codec.marshal args };
}

abbrev pub reply_calls : Codec → List ReplyPart → List ToolCall
reply_calls codec [] = []
reply_calls codec (called name args ∷ ps) = call_of codec name args ∷ reply_calls codec ps
reply_calls codec (spoken t ∷ ps) = reply_calls codec ps

abbrev pub reply_texts : List ReplyPart → List String
reply_texts [] = []
reply_texts (called name args ∷ ps) = reply_texts ps
reply_texts (spoken t ∷ ps) = let rest = reply_texts ps in if is_blank t then rest else t ∷ rest

-- The message of the first candidate, with the reason of its end.
unfoldable pub reply_of : Codec → List Candidate → AssistantMsg × String
unfolding normalize_finish_reason
reply_of codec [] = (record { content = some ""; tool_calls = [] }, "stop")
reply_of codec (c ∷ cs) =
    let calls = reply_calls codec c.parts in
    if is_empty calls
    then (
      record { content = some (join_lines (reply_texts c.parts)); tool_calls = [] },
      normalize_finish_reason c.finish_reason,
    )
    else (record { content = none; tool_calls = calls }, "tool_calls")

unfoldable pub to_openai_response : Codec → String → ℕ → String → GenerateResponse → ChatResponse
unfolding reply_of fallback_string
to_openai_response codec request_model now fresh_id r =
    let (msg, finish_reason) = reply_of codec r.candidates in
    record {
      id = fallback_string r.response_id fresh_id;
      created = now;
      model = fallback_string r.model_version request_model;
      message = msg;
      finish_reason = finish_reason;
      usage = record {
        prompt_tokens = r.usage_metadata.prompt_token_count;
        completion_tokens = r.usage_metadata.candidates_token_count;
        total_tokens = r.usage_metadata.total_token_count;
        cache_creation_input_tokens = 0;
        cache_read_input_tokens = 0;
      };
    }
