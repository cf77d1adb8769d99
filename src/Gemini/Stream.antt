-- ===== src/Gemini/Stream.antt =====
-- internal/providers/gemini/transform.go: `translateGeminiStream`, from the lines that the scanner
-- gives. Decoding a line's JSON is the standard library's; what is written is a list of chunks.
pub mod Calls
pub mod Blank
use costguard.Base.{
  ℕ, zero, suc, ◌==◌, String, Bool, true, false, List, [], ◌∷◌, ◌++◌, Option, none, some, str_eq,
  if◌then◌else◌, has_prefix, is_blank, ltb,
}
use costguard.Json.{Codec}
use costguard.Anthropic.Types.{ToolCall}
use costguard.Anthropic.Images.{drop_prefix}
use costguard.Gemini.Types.{ReplyPart, called, spoken, Candidate, UsageMetadata, GenerateResponse}
use costguard.Gemini.Response.{normalize_finish_reason, call_of}

-- The delta of a chunk's one choice.
pub data StreamDelta : Type 0 where
  opening : String → StreamDelta
  speech : String → StreamDelta
  tool_call : ℕ → ToolCall → StreamDelta
  closing : String → Option UsageMetadata → StreamDelta

-- A chunk, by its model, and the line that ends the stream.
pub data StreamChunk : Type 0 where
  piece : String → StreamDelta → StreamChunk
  end_line : StreamChunk

pub record StreamState : Type 0 where
  pub model : String
  pub sent_role : Bool
  pub tool_call_idx : ℕ

module _ (codec : Codec) (decode : String → Option GenerateResponse) where
  -- The loop over the parts of a candidate: the chunks, and the index of the next call.
  unfoldable pub on_parts : String → List ReplyPart → ℕ → List StreamChunk × ℕ
  on_parts model [] n = ([], n)
  on_parts model (called name args ∷ ps) n =
      let (chunks, m) = on_parts model ps (suc n) in
      (piece model (tool_call n (call_of codec name args)) ∷ chunks, m)
  on_parts model (spoken t ∷ ps) n =
      let (chunks, m) = on_parts model ps n in
      (if is_blank t then chunks else piece model (speech t) ∷ chunks, m)

  -- The chunk of a candidate that says why it ended.
  unfoldable pub on_finish : String → Candidate → UsageMetadata → ℕ → List StreamChunk
  on_finish model c u n =
      if str_eq c.finish_reason ""
      then []
      else piece model (
          closing (if ltb 0 n then "tool_calls" else normalize_finish_reason c.finish_reason)
            (if ltb 0 u.total_token_count then some u else none))
        ∷ []

  unfoldable pub on_role : StreamState → List StreamChunk
  on_role s = if s.sent_role then [] else piece s.model (opening "assistant") ∷ []

  unfoldable pub on_candidates :
      List Candidate → UsageMetadata → StreamState → List StreamChunk × StreamState
  unfolding on_role on_parts on_finish
  on_candidates [] u s = ([], s)
  on_candidates (c ∷ cs) u s =
      let (chunks, n) = on_parts s.model c.parts s.tool_call_idx in
      (
        on_role s ++ (chunks ++ on_finish s.model c u n),
        record s { sent_role = true; tool_call_idx = n },
      )

  unfoldable pub on_partial : GenerateResponse → StreamState → List StreamChunk × StreamState
  unfolding on_candidates
  on_partial r s =
      on_candidates r.candidates r.usage_metadata
        (if str_eq r.model_version "" then s else record s { model = r.model_version })

  -- One round of the loop over the lines.
  unfoldable pub on_line : String → StreamState → List StreamChunk × StreamState
  unfolding on_partial
  on_line line s =
      if has_prefix "data: " line
      then elim (decode (drop_prefix "data: " line)) [ none ↦ ([], s) | some r ↦ on_partial r s ]
      else ([], s)

  unfoldable pub on_lines : List String → StreamState → List StreamChunk
  unfolding on_line
  on_lines [] s = end_line ∷ []
  on_lines (line ∷ lines) s = let (chunks, s') = on_line line s in chunks ++ on_lines lines s'

  unfoldable pub translate_gemini_stream : String → List String → List StreamChunk
  unfolding on_lines
  translate_gemini_stream request_model lines =
      on_lines lines (record { model = request_model; sent_role = false; tool_call_idx = 0 })
