-- ===== src/Anthropic/Types.antt =====
-- internal/providers/anthropic/types.go: the structs of both formats. A pointer or an `any` that may
-- be nil is an option; fields with `omitempty` keep their zero value.
use costguard.Base.{ℕ, String, Bool, List, Option}
use costguard.Json.{Value}

pub record ToolFunction : Type 0 where
  pub name : String
  pub description : String
  pub parameters : Value

pub record ToolCallFunction : Type 0 where
  pub name : String
  pub arguments : String

pub record ToolCall : Type 0 where
  pub id : String
  pub kind : String
  pub function : ToolCallFunction

pub record Message : Type 0 where
  pub role : String
  pub content : Value
  pub tool_calls : List ToolCall
  pub tool_call_id : String

-- `openAIChatCompletionRequest`; floats are of any type. `max_tokens` of 0 or less is 0.
pub record ChatRequest (F : Type 0) : Type 0 where
  pub model : String
  pub messages : List Message
  pub max_tokens : ℕ
  pub temperature : Option F
  pub top_p : Option F
  pub stop : Value
  pub stream : Bool
  pub tools : List ToolFunction
  pub tool_choice : Value

pub record ImageSource : Type 0 where
  pub kind : String
  pub media_type : String
  pub payload : String
  pub url : String

-- `anthropicContentBlock`, by its type: the fields of the others are empty.
pub data ContentBlock : Type 0 where
  text_block : String → ContentBlock
  image_block : ImageSource → ContentBlock
  tool_use : String → String → Value → ContentBlock
  tool_result : String → String → ContentBlock

pub record AnthropicMessage : Type 0 where
  pub role : String
  pub content : List ContentBlock

pub record ToolInputSchema : Type 0 where
  pub kind : String
  pub properties : Value
  pub required : List String

pub record AnthropicTool : Type 0 where
  pub name : String
  pub description : String
  pub input_schema : ToolInputSchema

pub record ToolChoice : Type 0 where
  pub kind : String
  pub name : String

pub record MessagesRequest (F : Type 0) : Type 0 where
  pub model : String
  pub system : String
  pub messages : List AnthropicMessage
  pub max_tokens : ℕ
  pub temperature : Option F
  pub top_p : Option F
  pub stop_seqs : List String
  pub stream : Bool
  pub tools : List AnthropicTool
  pub tool_choice : Option ToolChoice

pub record Usage : Type 0 where
  pub input_tokens : ℕ
  pub output_tokens : ℕ
  pub cache_creation_input_tokens : ℕ
  pub cache_read_input_tokens : ℕ

-- A block of a response: of a type that is neither `text` nor `tool_use` only the type is read.
pub data ResponseBlock : Type 0 where
  said : String → ResponseBlock
  used : String → String → Value → ResponseBlock
  unknown : String → ResponseBlock

pub record MessagesResponse : Type 0 where
  pub id : String
  pub model : String
  pub content : List ResponseBlock
  pub stop_reason : String
  pub usage : Usage

pub record AssistantMsg : Type 0 where
  pub content : Option String
  pub tool_calls : List ToolCall

pub record OpenAiUsage : Type 0 where
  pub prompt_tokens : ℕ
  pub completion_tokens : ℕ
  pub total_tokens : ℕ
  pub cache_creation_input_tokens : ℕ
  pub cache_read_input_tokens : ℕ

-- `openAIChatCompletionResponse`, whose one choice is `message` and `finish_reason`.
pub record ChatResponse : Type 0 where
  pub id : String
  pub created : ℕ
  pub model : String
  pub message : AssistantMsg
  pub finish_reason : String
  pub usage : OpenAiUsage
