-- ===== src/Anthropic/Response.antt =====
-- internal/providers/anthropic/transform.go: `toOpenAIResponse`.
use costguard.Base.{ℕ, ◌+◌, String, List, [], ◌∷◌, none, some, str_eq, is_empty, if◌then◌else◌}
use costguard.Json.{Codec}
use costguard.Anthropic.Types.{
  ResponseBlock, said, used, unknown, MessagesResponse, ChatResponse, AssistantMsg, ToolCall, Usage,
}
use costguard.Anthropic.Images.{join_lines}

unfoldable pub map_stop_reason : String → String
map_stop_reason v =
    if str_eq v "end_turn"
    then "stop"
    else if str_eq v "max_tokens"
    then "length"
    else if str_eq v "stop_sequence"
    then "stop"
    else if str_eq v "tool_use"
    then "tool_calls"
    else "stop"

abbrev pub texts_of : List ResponseBlock → List String
texts_of [] = []
texts_of (said t ∷ bs) = t ∷ texts_of bs
texts_of (used id name input ∷ bs) = texts_of bs
texts_of (unknown kind ∷ bs) = texts_of bs

abbrev pub calls_of : Codec → List ResponseBlock → List ToolCall
calls_of codec [] = []
calls_of codec (said t ∷ bs) = calls_of codec bs
calls_of codec (used id name input ∷ bs) =
    record {
      id = id;
      kind = "function";
      function = record { name = name; arguments = codec.marshal input };
    }
    ∷ calls_of codec bs
calls_of codec (unknown kind ∷ bs) = calls_of codec bs

-- OpenAI's content is null where there are tool calls.
unfoldable pub assistant_msg : List String → List ToolCall → AssistantMsg
assistant_msg texts calls =
    if is_empty calls
    then record { content = some (join_lines texts); tool_calls = [] }
    else record { content = none; tool_calls = calls }

unfoldable pub total_of : Usage → ℕ
total_of u =
    u.input_tokens + u.cache_creation_input_tokens + u.cache_read_input_tokens + u.output_tokens

unfoldable pub to_openai_response : Codec → String → ℕ → MessagesResponse → ChatResponse
unfolding assistant_msg map_stop_reason total_of
to_openai_response codec request_model now r = record {
  id = r.id;
  created = now;
  model = if str_eq r.model "" then request_model else r.model;
  message = assistant_msg (texts_of r.content) (calls_of codec r.content);
  finish_reason = map_stop_reason r.stop_reason;
  usage = record {
    prompt_tokens = r.usage.input_tokens;
    completion_tokens = r.usage.output_tokens;
    total_tokens = total_of r.usage;
    cache_creation_input_tokens = r.usage.cache_creation_input_tokens;
    cache_read_input_tokens = r.usage.cache_read_input_tokens;
  };
}
