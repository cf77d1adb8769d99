-- ===== src/Anthropic/Tests.antt =====
-- internal/providers/anthropic/transform.go: the theorems at requests and streams that meet their
-- hypotheses.
use costguard.Base.{ℕ, ◌≡◌, refl, String, false, [], ◌∷◌, none}
use costguard.Json.{null, text, array, object, field, end, nil, item, Codec}
use costguard.Anthropic.Types.{Message, ChatRequest, MessagesRequest, tool_result}
use costguard.Anthropic.Tools.{map_tool_choice}
use costguard.Anthropic.Request.{
  add_messages, add_message, to_anthropic_request, all_tool_results, stop_sequences,
}
use costguard.Anthropic.Request.Results.{results_in, tool_messages}
use costguard.Anthropic.Request.Rounds.{ResultsTogether}
use costguard.Anthropic.Request.Kept.{tool_results_kept}

abbrev codec : Codec
codec = record { unmarshal = λ s. none; marshal = λ v. "" }

abbrev result : String → Message
result id = record { role = "tool"; content = text "done"; tool_calls = []; tool_call_id = id }

-- A result as an array of one text part, which is lost.
abbrev in_parts : Message
in_parts = record (result "b") {
  content = array (item (object (field "type" (text "text") (field "text" (text "done") end))) nil);
}

-- Two results of tools in a row.
abbrev request : ChatRequest ℕ
request = record {
  model = "claude-sonnet-4-6";
  messages = result "a" ∷ in_parts ∷ [];
  max_tokens = 0;
  temperature = none;
  top_p = none;
  stop = null;
  stream = false;
  tools = [];
  tool_choice = null;
}

abbrev sent : MessagesRequest ℕ
sent = record {
  model = "claude-sonnet-4-6";
  system = "";
  messages =
      record { role = "user"; content = tool_result "a" "done" ∷ tool_result "b" "" ∷ [] } ∷ [];
  max_tokens = 1024;
  temperature = none;
  top_p = none;
  stop_seqs = [];
  stream = false;
  tools = [];
  tool_choice = none;
}

tool_results_kept_example :
    (results_in sent.messages ≡ tool_messages request.messages) × ResultsTogether sent.messages
unfolding to_anthropic_request add_messages add_message map_tool_choice all_tool_results
    stop_sequences
tool_results_kept_example = tool_results_kept codec request sent refl
