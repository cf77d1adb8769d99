-- ===== src/Anthropic/Stream.antt =====
-- internal/providers/anthropic/transform.go: `translateAnthropicStream`, from the lines that the
-- scanner gives. Decoding an event's data is the standard library's; what is written is a list of
-- chunks. The map of block types is only written, never read, and left out.
pub mod Calls
use costguard.Base.{
  ℕ, suc, ◌+◌, ◌==◌, String, Bool, List, [], ◌∷◌, ◌++◌, Option, none, some, str_eq, has_prefix,
  if◌then◌else◌,
}
use costguard.Anthropic.Types.{OpenAiUsage, Usage}
use costguard.Anthropic.Images.{drop_prefix}
use costguard.Anthropic.Response.{map_stop_reason, total_of}

pub record MessageStart : Type 0 where
  pub id : String
  pub model : String
  pub input_tokens : ℕ
  pub cache_creation_input_tokens : ℕ
  pub cache_read_input_tokens : ℕ

pub record BlockStart : Type 0 where
  pub index : ℕ
  pub kind : String
  pub id : String
  pub name : String

pub record BlockDelta : Type 0 where
  pub index : ℕ
  pub kind : String
  pub words : String
  pub partial_json : String

pub record MessageDelta : Type 0 where
  pub stop_reason : String
  pub output_tokens : ℕ

-- `json.Unmarshal` into the struct of each event; nothing where it fails.
pub record Decoder : Type 0 where
  pub message_start : String → Option MessageStart
  pub block_start : String → Option BlockStart
  pub block_delta : String → Option BlockDelta
  pub message_delta : String → Option MessageDelta

-- The delta of a chunk's one choice, and the end of the stream.
pub data Delta : Type 0 where
  role : String → Delta
  words : String → Delta
  call_start : ℕ → String → String → Delta
  call_arguments : ℕ → String → Delta
  finish : String → OpenAiUsage → Delta

pub data Chunk : Type 0 where
  chunk : String → String → Delta → Chunk
  done : Chunk

pub record Translation : Type 0 where
  pub message_id : String
  pub model : String
  pub tool_call_idx : List (ℕ × ℕ)
  pub next_tool_idx : ℕ
  pub event_type : String
  pub usage : Usage

unfoldable pub start : String → Translation
start request_model = record {
  message_id = "";
  model = request_model;
  tool_call_idx = [];
  next_tool_idx = 0;
  event_type = "";
  usage = record {
    input_tokens = 0;
    output_tokens = 0;
    cache_creation_input_tokens = 0;
    cache_read_input_tokens = 0;
  };
}

-- `toolCallIdx[i]`: a missing block has 0.
abbrev pub call_index : ℕ → List (ℕ × ℕ) → ℕ
call_index i [] = 0
call_index i ((j, n) ∷ m) = if j == i then n else call_index i m

abbrev pub chunk_of : Translation → Delta → Chunk
chunk_of t d = chunk t.message_id t.model d

unfoldable pub on_message_start : MessageStart → Translation → Translation × List Chunk
on_message_start e t =
    let t' = record t {
      message_id = e.id;
      model = if str_eq e.model "" then t.model else e.model;
      usage = record {
        input_tokens = e.input_tokens;
        output_tokens = t.usage.output_tokens;
        cache_creation_input_tokens = e.cache_creation_input_tokens;
        cache_read_input_tokens = e.cache_read_input_tokens;
      };
    } in
    (t', chunk_of t' (role "assistant") ∷ [])

unfoldable pub on_block_start : BlockStart → Translation → Translation × List Chunk
on_block_start e t =
    if str_eq e.kind "tool_use"
    then (
      record t {
        tool_call_idx = (e.index, t.next_tool_idx) ∷ t.tool_call_idx;
        next_tool_idx = suc t.next_tool_idx;
      },
      chunk_of t (call_start t.next_tool_idx e.id e.name) ∷ [],
    )
    else (t, [])

unfoldable pub on_block_delta : BlockDelta → Translation → Translation × List Chunk
on_block_delta e t =
    if str_eq e.kind "text_delta"
    then (t, chunk_of t (words e.words) ∷ [])
    else if str_eq e.kind "input_json_delta"
    then (t, chunk_of t (call_arguments (call_index e.index t.tool_call_idx) e.partial_json) ∷ [])
    else (t, [])

unfoldable pub on_message_delta : MessageDelta → Translation → Translation × List Chunk
unfolding total_of map_stop_reason
on_message_delta e t =
    let u = record t.usage { output_tokens = e.output_tokens } in
    let t' = record t { usage = u } in
    (
      t',
      chunk_of t' (
            finish (map_stop_reason e.stop_reason) (record {
              prompt_tokens = u.input_tokens;
              completion_tokens = u.output_tokens;
              total_tokens = total_of u;
              cache_creation_input_tokens = u.cache_creation_input_tokens;
              cache_read_input_tokens = u.cache_read_input_tokens;
            }))
          ∷ [],
    )

-- `if json.Unmarshal(…) != nil { continue }`
abbrev pub decoded :
    {E : Type 0}
    → Option E
    → (E → Translation → Translation × List Chunk)
    → Translation
    → Translation × List Chunk
decoded none k t = (t, [])
decoded (some e) k t = k e t

module _ (d : Decoder) where
  -- The data line of an event, by its type.
  unfoldable pub on_data : String → Translation → Translation × List Chunk
  unfolding on_message_start on_block_start on_block_delta on_message_delta
  on_data payload t =
      if str_eq t.event_type "message_start"
      then decoded (d.message_start payload) on_message_start t
      else if str_eq t.event_type "content_block_start"
      then decoded (d.block_start payload) on_block_start t
      else if str_eq t.event_type "content_block_delta"
      then decoded (d.block_delta payload) on_block_delta t
      else if str_eq t.event_type "message_delta"
      then decoded (d.message_delta payload) on_message_delta t
      else if str_eq t.event_type "message_stop"
      then (t, done ∷ [])
      else (t, [])

  unfoldable pub on_line : String → Translation → Translation × List Chunk
  unfolding on_data
  on_line line t =
      if has_prefix "event: " line
      then (record t { event_type = drop_prefix "event: " line }, [])
      else if has_prefix "data: " line
      then on_data (drop_prefix "data: " line) t
      else (t, [])

  unfoldable pub on_lines : List String → Translation → List Chunk
  unfolding on_line
  on_lines [] t = []
  on_lines (line ∷ lines) t = let (t', chunks) = on_line line t in chunks ++ on_lines lines t'

  unfoldable pub translate_anthropic_stream : String → List String → List Chunk
  unfolding on_lines start
  translate_anthropic_stream request_model lines = on_lines lines (start request_model)
