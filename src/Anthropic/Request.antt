-- ===== src/Anthropic/Request.antt =====
-- internal/providers/anthropic/transform.go: `toAnthropicRequest`. A `Codec` decodes the arguments of
-- tool calls.
pub mod Results
pub mod Rounds
pub mod Kept
use Prim.Native.String
use costguard.Base.{
  ℕ, String, Bool, true, false, not, ◌&&◌, ◌==◌, List, [], ◌∷◌, ◌++◌, Option, none, some, str_eq,
  if◌then◌else◌, map, is_empty, is_blank, Result, ok, err, and_then,
}
use costguard.Json.{Value, null, text, array, Items, nil, item, Codec, text_or_empty}
use costguard.Anthropic.Types.{
  Message, ChatRequest, ToolCall, ToolChoice, AnthropicMessage, ContentBlock, text_block,
  image_block, tool_use, tool_result, MessagesRequest,
}
use costguard.Anthropic.Images.{
  TransformError, model_required, messages_required, no_message, unsupported_role, content_to_text,
  user_content_to_blocks,
}
use costguard.Anthropic.Tools.{map_tool_choice, anthropic_tool}

abbrev pub stop_texts : Items → List String
stop_texts nil = []
stop_texts (item (text s) vs) = let rest = stop_texts vs in if is_blank s then rest else s ∷ rest
stop_texts (item _ vs) = stop_texts vs

unfoldable pub stop_sequences : Value → List String
stop_sequences (text s) = if is_blank s then [] else s ∷ []
stop_sequences (array vs) = stop_texts vs
stop_sequences _ = []

abbrev pub is_tool_result : ContentBlock → Bool
is_tool_result (tool_result id content) = true
is_tool_result _ = false

abbrev pub every_result : List ContentBlock → Bool
every_result [] = true
every_result (b ∷ bs) = is_tool_result b && every_result bs

unfoldable pub all_tool_results : List ContentBlock → Bool
all_tool_results bs = if is_empty bs then false else every_result bs

-- A message that a tool's result may join.
abbrev pub takes_results : AnthropicMessage → Bool
takes_results m = str_eq m.role "user" && all_tool_results m.content

abbrev pub user_message : List ContentBlock → AnthropicMessage
user_message content = record { role = "user"; content = content }

abbrev pub assistant_message : List ContentBlock → AnthropicMessage
assistant_message content = record { role = "assistant"; content = content }

-- A tool's result behind the messages: in the last one, or in a new one.
unfoldable pub add_result : List AnthropicMessage → ContentBlock → List AnthropicMessage
add_result [] b = user_message (b ∷ []) ∷ []
add_result (m ∷ []) b =
    if takes_results m
    then record m { content = m.content ++ (b ∷ []) } ∷ []
    else m ∷ user_message (b ∷ []) ∷ []
add_result (m ∷ n ∷ ms) b = m ∷ add_result (n ∷ ms) b

-- What the loop over the messages has made.
pub record Draft : Type 0 where
  pub system : String
  pub messages : List AnthropicMessage

-- The system texts, with an empty line between two of them.
unfoldable pub add_system : String → String → String
add_system system t =
    if str_eq system ""
    then t
    else if not (str_eq t "")
    then Prim.Native.String.◌++◌ system (Prim.Native.String.◌++◌ "\n\n" t)
    else system

module _ (codec : Codec) where
  abbrev pub call_block : ToolCall → ContentBlock
  call_block tc =
      tool_use tc.id tc.function.name
        (elim (codec.unmarshal tc.function.arguments) [ none ↦ null | some v ↦ v ])

  -- The text in front of an assistant's calls, if it has one.
  abbrev pub text_before : Result TransformError String → List ContentBlock
  text_before (err e) = []
  text_before (ok t) = if str_eq t "" then [] else text_block t ∷ []

  unfoldable pub add_assistant : Message → Draft → Result TransformError Draft
  add_assistant msg d =
      if not (is_empty msg.tool_calls)
      then ok (record d {
        messages =
            d.messages
            ++ (assistant_message
                  (text_before (content_to_text msg.content) ++ map call_block msg.tool_calls)
                ∷ []);
      })
      else and_then (content_to_text msg.content) (λ t.
        if is_blank t
        then ok d
        else ok
            (record d { messages = d.messages ++ (assistant_message (text_block t ∷ []) ∷ []) }))

  -- One round of the loop over the messages.
  unfoldable pub add_message : Message → Draft → Result TransformError Draft
  unfolding add_assistant add_system add_result
  add_message msg d =
      if str_eq msg.role "system"
      then and_then (content_to_text msg.content)
          (λ t. ok (record d { system = add_system d.system t }))
      else if str_eq msg.role "assistant"
      then add_assistant msg d
      else if str_eq msg.role "user"
      then and_then (user_content_to_blocks msg.content)
          (λ bs. ok (record d { messages = d.messages ++ (user_message bs ∷ []) }))
      else if str_eq msg.role "tool"
      then ok (record d {
        messages =
            add_result d.messages (tool_result msg.tool_call_id (text_or_empty (some msg.content)));
      })
      else err (unsupported_role msg.role)

  unfoldable pub add_messages : List Message → Draft → Result TransformError Draft
  add_messages [] d = ok d
  add_messages (msg ∷ msgs) d = and_then (add_message msg d) (add_messages msgs)

  module _ {F : Type 0} where
    abbrev pub finish : ChatRequest F → Draft → Option ToolChoice × Bool → MessagesRequest F
    finish r d (choice, omit_tools) =
        let with_tools = not omit_tools && not (is_empty r.tools) in
        record {
          model = r.model;
          system = d.system;
          messages = d.messages;
          max_tokens = if r.max_tokens == 0 then 1024 else r.max_tokens;
          temperature = r.temperature;
          top_p = r.top_p;
          stop_seqs = stop_sequences r.stop;
          stream = r.stream;
          tools = if with_tools then map anthropic_tool r.tools else [];
          tool_choice = if with_tools then choice else none;
        }

    unfoldable pub to_anthropic_request : ChatRequest F → Result TransformError (MessagesRequest F)
    unfolding add_messages
    to_anthropic_request r =
        if str_eq r.model ""
        then err model_required
        else if is_empty r.messages
        then err messages_required
        else and_then (add_messages r.messages (record { system = ""; messages = [] })) (λ d.
          if is_empty d.messages
          then err no_message
          else and_then (map_tool_choice r.tool_choice) (λ c. ok (finish r d c)))
