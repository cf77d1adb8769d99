-- ===== src/Gemini/Types.antt =====
-- internal/providers/gemini/types.go: the structs of Gemini's format. Those of OpenAI's requests and
-- responses have the fields that the Anthropic adapter's have. A pointer that may be nil is an option.
use costguard.Base.{ℕ, String, List, Option}
use costguard.Json.{Value}

pub record InlineData : Type 0 where
  pub mime_type : String
  pub payload : String

-- `geminiPart` of a request, of which one field is set.
pub data Part : Type 0 where
  words_part : String → Part
  inline_data : InlineData → Part
  function_call : String → Value → Part
  function_response : String → Value → Part

pub record GeminiContent : Type 0 where
  pub role : String
  pub parts : List Part

pub record FunctionDeclaration : Type 0 where
  pub name : String
  pub description : String
  pub parameters : Value

pub record CallingConfig : Type 0 where
  pub mode : String
  pub allowed_function_names : List String

pub record GenerationConfig (F : Type 0) : Type 0 where
  pub temperature : Option F
  pub top_p : Option F
  pub max_output_tokens : ℕ
  pub stop_sequences : List String

-- The texts of the system instruction are joined; no tool is an empty list of declarations.
pub record GenerateRequest (F : Type 0) : Type 0 where
  pub system_instruction : Option String
  pub contents : List GeminiContent
  pub generation_config : Option (GenerationConfig F)
  pub tools : List FunctionDeclaration
  pub tool_config : Option CallingConfig

-- `geminiPart` of a response, which is a call of a function, or else is read by its text, which is
-- empty where there is none.
pub data ReplyPart : Type 0 where
  called : String → Value → ReplyPart
  spoken : String → ReplyPart

pub record Candidate : Type 0 where
  pub parts : List ReplyPart
  pub finish_reason : String

pub record UsageMetadata : Type 0 where
  pub prompt_token_count : ℕ
  pub candidates_token_count : ℕ
  pub total_token_count : ℕ

pub record GenerateResponse : Type 0 where
  pub candidates : List Candidate
  pub usage_metadata : UsageMetadata
  pub model_version : String
  pub response_id : String
