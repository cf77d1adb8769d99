-- ===== src/Gemini/Request.antt =====
-- internal/providers/gemini/transform.go: `toGeminiRequest`. A `Codec` decodes the arguments of tool
-- calls.
use Prim.Native.String
use costguard.Base.{
  String, Bool, true, false, not, ◌&&◌, ◌||◌, List, [], ◌∷◌, ◌++◌, Option, none, some, str_eq,
  if◌then◌else◌, map, is_empty, is_blank, ltb, Dict, insert, lookup_or, Result, ok, err, and_then,
}
use costguard.Json.{
  Value, null, text, object, field, end, Codec, text_or_empty, get_field, field_of,
}
use costguard.Anthropic.Types.{Message, ChatRequest, ToolCall, ToolFunction}
use costguard.Gemini.Types.{
  Part, words_part, function_call, function_response, GeminiContent, FunctionDeclaration,
  CallingConfig, GenerationConfig, GenerateRequest,
}
use costguard.Gemini.Parts.{
  GeminiError, model_required, messages_required, no_content, bad_role, bad_choice, bad_stop,
  missing_name, bad_choice_format, Fetcher, user_content_to_gemini_parts, content_to_text,
}

-- The names of the functions by the ids of their calls.
abbrev pub call_names : List ToolCall → Dict String → Dict String
call_names [] names = names
call_names (tc ∷ tcs) names = call_names tcs (insert tc.id tc.function.name names)

abbrev pub tool_call_names : List Message → Dict String → Dict String
tool_call_names [] names = names
tool_call_names (msg ∷ msgs) names = tool_call_names msgs (call_names msg.tool_calls names)

abbrev pub is_function_response : Part → Bool
is_function_response (function_response name response) = true
is_function_response _ = false

abbrev pub every_response : List Part → Bool
every_response [] = true
every_response (p ∷ ps) = is_function_response p && every_response ps

unfoldable pub all_function_responses : List Part → Bool
all_function_responses ps = if is_empty ps then false else every_response ps

abbrev pub content_of : String → List Part → GeminiContent
content_of role parts = record { role = role; parts = parts }

-- A tool's result behind the contents: in the last one, or in a new one.
unfoldable pub add_response : List GeminiContent → Part → List GeminiContent
unfolding all_function_responses
add_response [] p = content_of "user" (p ∷ []) ∷ []
add_response (c ∷ []) p =
    if str_eq c.role "user" && all_function_responses c.parts
    then record c { parts = c.parts ++ (p ∷ []) } ∷ []
    else c ∷ content_of "user" (p ∷ []) ∷ []
add_response (c ∷ d ∷ cs) p = c ∷ add_response (d ∷ cs) p

-- `strings.Join(systemTexts, "\n\n")`
abbrev pub join_paragraphs : List String → String
join_paragraphs [] = ""
join_paragraphs (s ∷ []) = s
join_paragraphs (s ∷ t ∷ ts) = String.◌++◌ s (String.◌++◌ "\n\n" (join_paragraphs (t ∷ ts)))

-- What the loop over the messages has made.
pub record Progress : Type 0 where
  pub system_texts : List String
  pub contents : List GeminiContent

abbrev pub add_content : GeminiContent → Progress → Progress
add_content c p = record p { contents = p.contents ++ (c ∷ []) }

-- The choice, and whether the tools are left out.
unfoldable pub map_tool_choice : Value → Result GeminiError (Option CallingConfig × Bool)
map_tool_choice null = ok (none, false)
map_tool_choice (text v) =
    if str_eq v "none"
    then ok (none, true)
    else if str_eq v "auto"
    then ok (some (record { mode = "AUTO"; allowed_function_names = [] }), false)
    else if str_eq v "required"
    then ok (some (record { mode = "ANY"; allowed_function_names = [] }), false)
    else err (bad_choice v)
map_tool_choice (object m) =
    let name = text_or_empty (get_field "name" (field_of "function" m)) in
    if str_eq name ""
    then err missing_name
    else ok (some (record { mode = "ANY"; allowed_function_names = name ∷ [] }), false)
map_tool_choice _ = err bad_choice_format

-- The stop sequences. A decoded JSON array is a `[]any`, not the `[]string` that one case expects.
unfoldable pub stop_config : Value → Result GeminiError (List String)
stop_config (text v) = if is_blank v then ok [] else ok (v ∷ [])
stop_config null = ok []
stop_config _ = err bad_stop

module _ (codec : Codec) (fetcher : Fetcher) where
  abbrev pub call_part : ToolCall → Part
  call_part tc =
      function_call tc.function.name
        (elim (codec.unmarshal tc.function.arguments) [ none ↦ null | some v ↦ v ])

  -- The text in front of the calls, where there is one.
  abbrev pub text_before : Value → List Part
  text_before v = elim (content_to_text v) [
    | err e ↦ []
    | ok t ↦ if is_blank t then [] else words_part t ∷ []
  ]

  unfoldable pub add_assistant : Message → Progress → Result GeminiError Progress
  add_assistant msg p =
      if not (is_empty msg.tool_calls)
      then ok (
          add_content (content_of "model" (text_before msg.content ++ map call_part msg.tool_calls))
            p)
      else and_then (content_to_text msg.content) (λ t.
        if is_blank t then ok p else ok (add_content (content_of "model" (words_part t ∷ [])) p))

  unfoldable pub add_user : Message → Progress → Result GeminiError Progress
  add_user msg p =
      and_then (user_content_to_gemini_parts fetcher msg.content)
        (λ parts. if is_empty parts then ok p else ok (add_content (content_of "user" parts) p))

  abbrev pub response_part : Dict String → Message → Part
  response_part names msg =
      function_response (lookup_or msg.tool_call_id "" names)
        (object (field "content" (text (text_or_empty (some msg.content))) end))

  -- One round of the loop over the messages.
  unfoldable pub add_message : Dict String → Message → Progress → Result GeminiError Progress
  unfolding add_assistant add_user add_response
  add_message names msg p =
      if str_eq msg.role "system"
      then and_then (content_to_text msg.content) (λ t.
        if is_blank t then ok p else ok (record p { system_texts = p.system_texts ++ (t ∷ []) }))
      else if str_eq msg.role "user"
      then add_user msg p
      else if str_eq msg.role "assistant"
      then add_assistant msg p
      else if str_eq msg.role "tool"
      then ok (record p { contents = add_response p.contents (response_part names msg) })
      else err (bad_role msg.role)

  unfoldable pub add_messages : Dict String → List Message → Progress → Result GeminiError Progress
  add_messages names [] p = ok p
  add_messages names (msg ∷ msgs) p = and_then (add_message names msg p) (add_messages names msgs)

  abbrev pub declaration_of : ToolFunction → FunctionDeclaration
  declaration_of t = record {
    name = t.name;
    description = t.description;
    parameters = t.parameters;
  }

  module _ {F : Type 0} where
    abbrev pub is_set : Option F → Bool
    is_set none = false
    is_set (some x) = true

    -- The configuration, nil where nothing is set.
    unfoldable pub generation_config : ChatRequest F → List String → Option (GenerationConfig F)
    generation_config r stops =
        if is_set r.temperature || (is_set r.top_p || (ltb 0 r.max_tokens || not (is_empty stops)))
        then some (record {
          temperature = r.temperature;
          top_p = r.top_p;
          max_output_tokens = r.max_tokens;
          stop_sequences = stops;
        })
        else none

    unfoldable pub request_of :
        ChatRequest F → Progress → List String → Option CallingConfig × Bool → GenerateRequest F
    unfolding generation_config
    request_of r p stops (config, omit_tools) =
        let with_tools = not omit_tools && not (is_empty r.tools) in
        record {
          system_instruction =
              if is_empty p.system_texts then none else some (join_paragraphs p.system_texts);
          contents = p.contents;
          generation_config = generation_config r stops;
          tools = if with_tools then map declaration_of r.tools else [];
          tool_config = if with_tools then config else none;
        }

    unfoldable pub to_gemini_request : ChatRequest F → Result GeminiError (GenerateRequest F)
    unfolding add_messages request_of
    to_gemini_request r =
        if str_eq r.model ""
        then err model_required
        else if is_empty r.messages
        then err messages_required
        else and_then
            (add_messages (tool_call_names r.messages []) r.messages
              (record { system_texts = []; contents = [] }))
            (λ p.
              if is_empty p.contents
              then err no_content
              else and_then (stop_config r.stop) (λ stops.
                and_then (map_tool_choice r.tool_choice)
                  (λ choice. ok (request_of r p stops choice))))
