-- ===== src/Gemini/Stream/Calls.antt =====
-- internal/providers/gemini/transform.go: the tool calls of a stream are those of its responses.
use mathlib.Core.List.{append-nil}
use costguard.Base.{
  ℕ, suc, ◌+◌, ◌≡◌, refl, ap, String, false, List, [], ◌∷◌, ◌++◌, Option, none, some, str_eq,
  if◌then◌else◌, has_prefix, arith, length, Bool-cases, Option-cases, inl, inr,
}
use costguard.Json.{Codec}
use costguard.Anthropic.Types.{ToolCall}
use costguard.Anthropic.Images.{drop_prefix}
use costguard.Gemini.Types.{ReplyPart, called, spoken, Candidate, UsageMetadata, GenerateResponse}
use costguard.Gemini.Response.{reply_calls, reply_of, to_openai_response}
use costguard.Gemini.Stream.{
  opening, speech, tool_call, closing, StreamChunk, piece, end_line, StreamState, on_parts,
  on_finish, on_role, on_candidates, on_partial, on_line, on_lines, translate_gemini_stream,
}

-- The tool calls among the chunks, with their indices.
abbrev pub calls_sent : List StreamChunk → List (ℕ × ToolCall)
calls_sent [] = []
calls_sent (piece m (tool_call n c) ∷ cs) = (n, c) ∷ calls_sent cs
calls_sent (piece m (opening r) ∷ cs) = calls_sent cs
calls_sent (piece m (speech t) ∷ cs) = calls_sent cs
calls_sent (piece m (closing r u) ∷ cs) = calls_sent cs
calls_sent (end_line ∷ cs) = calls_sent cs

-- Calls numbered from `n`.
abbrev pub number : ℕ → List ToolCall → List (ℕ × ToolCall)
number n [] = []
number n (c ∷ cs) = (n, c) ∷ number (suc n) cs

calls_sent-append :
    (cs ds : List StreamChunk) → calls_sent (cs ++ ds) ≡ calls_sent cs ++ calls_sent ds
calls_sent-append [] ds = refl
calls_sent-append (piece m (tool_call n c) ∷ cs) ds =
    ap (λ xs. (n, c) ∷ xs) (calls_sent-append cs ds)
calls_sent-append (piece m (opening r) ∷ cs) ds = calls_sent-append cs ds
calls_sent-append (piece m (speech t) ∷ cs) ds = calls_sent-append cs ds
calls_sent-append (piece m (closing r u) ∷ cs) ds = calls_sent-append cs ds
calls_sent-append (end_line ∷ cs) ds = calls_sent-append cs ds

number-append :
    (n : ℕ) (cs ds : List ToolCall) → number n (cs ++ ds) ≡ number n cs ++ number (n + length cs) ds
number-append n [] ds = ground arith
number-append n (c ∷ cs) ds = ground (arith, number-append (suc n) cs ds)

module _ (codec : Codec) (decode : String → Option GenerateResponse) where
  -- The responses that the data lines hold.
  abbrev pub responses : List String → List GenerateResponse
  responses [] = []
  responses (line ∷ lines) =
      let rest = responses lines in
      if has_prefix "data: " line
      then elim (decode (drop_prefix "data: " line)) [ none ↦ rest | some r ↦ r ∷ rest ]
      else rest

  -- The tool calls of a response when it is translated as a whole.
  abbrev pub calls_in : GenerateResponse → List ToolCall
  calls_in r = (to_openai_response codec "" 0 "" r).message.tool_calls

  abbrev pub all_calls : List GenerateResponse → List ToolCall
  all_calls [] = []
  all_calls (r ∷ rs) = calls_in r ++ all_calls rs

  calls_in-first :
      (r : GenerateResponse)
      → calls_in r ≡ elim r.candidates [ [] ↦ [] | c ∷ cs ↦ reply_calls codec c.parts ]
  unfolding to_openai_response reply_of
  calls_in-first r = ground arith

  on_parts-calls :
      (m : String) (ps : List ReplyPart) (n : ℕ)
      → (calls_sent (on_parts codec decode m ps n).0 ≡ number n (reply_calls codec ps))
        × ((on_parts codec decode m ps n).1 ≡ n + length (reply_calls codec ps))
  unfolding on_parts
  on_parts-calls m [] n = (refl, omega arith)
  on_parts-calls m (called name args ∷ ps) n = ground (arith, on_parts-calls m ps (suc n))
  on_parts-calls m (spoken t ∷ ps) n = ground (arith, on_parts-calls m ps n)

  on_role-calls : (s : StreamState) → calls_sent (on_role codec decode s) ≡ []
  unfolding on_role
  on_role-calls s = ground arith

  on_finish-calls :
      (m : String) (c : Candidate) (u : UsageMetadata) (n : ℕ)
      → calls_sent (on_finish codec decode m c u n) ≡ []
  unfolding on_finish
  on_finish-calls m c u n = ground arith

  -- What a round sends: the calls, numbered on from the index, which moves on by as many.
  abbrev Sends : List ToolCall → StreamState → List StreamChunk × StreamState → Type 0
  Sends calls s (chunks, s') =
      (calls_sent chunks ≡ number s.tool_call_idx calls)
      × (s'.tool_call_idx ≡ s.tool_call_idx + length calls)

  on_candidates-Sends :
      (c : Candidate) (cs : List Candidate) (u : UsageMetadata) (s : StreamState)
      → Sends (reply_calls codec c.parts) s (on_candidates codec decode (c ∷ cs) u s)
  unfolding on_candidates
  on_candidates-Sends c cs u s =
      let parts = (on_parts codec decode s.model c.parts s.tool_call_idx).0 in
      let n = (on_parts codec decode s.model c.parts s.tool_call_idx).1 in
      let last = on_finish codec decode s.model c u n in
      ground (
        arith,
        on_parts-calls s.model c.parts s.tool_call_idx,
        calls_sent-append (on_role codec decode s) (parts ++ last),
        calls_sent-append parts last,
        on_role-calls s,
        on_finish-calls s.model c u n,
        append-nil (calls_sent parts),
      )

  on_list-Sends :
      (cs : List Candidate) (u : UsageMetadata) (s : StreamState)
      → Sends
          (elim cs [ [] ↦ [] | c ∷ ds ↦ reply_calls codec c.parts ])
          s
          (on_candidates codec decode cs u s)
  unfolding on_candidates
  on_list-Sends [] u s = (refl, omega arith)
  on_list-Sends (c ∷ cs) u s = on_candidates-Sends c cs u s

  on_partial-Sends :
      (r : GenerateResponse) (s : StreamState) → Sends (calls_in r) s (on_partial codec decode r s)
  unfolding on_partial
  on_partial-Sends r s =
      let s' = if str_eq r.model_version "" then s else record s { model = r.model_version } in
      ground (arith, calls_in-first r, on_list-Sends r.candidates r.usage_metadata s')

  on_lines-calls :
      (lines : List String) (s : StreamState)
      → calls_sent (on_lines codec decode lines s)
        ≡ number s.tool_call_idx (all_calls (responses lines))
  unfolding on_lines on_line
  on_lines-calls [] s = refl
  on_lines-calls (line ∷ lines) s = elim (Bool-cases (has_prefix "data: " line)) [
    | inr e ↦ ground (arith, on_lines-calls lines s)
    | inl e ↦ elim (Option-cases (decode (drop_prefix "data: " line))) [
      | inl q ↦ ground (arith, on_lines-calls lines s)
      | inr (r, q) ↦
          let chunks = (on_partial codec decode r s).0 in
          let s' = (on_partial codec decode r s).1 in
          ground (
            arith,
            on_partial-Sends r s,
            on_lines-calls lines s',
            calls_sent-append chunks (on_lines codec decode lines s'),
            number-append s.tool_call_idx (calls_in r) (all_calls (responses lines)),
          )
    ]
  ]

  -- Whatever lines Gemini sends, the tool calls of the translated stream are those that the responses
  -- in its data lines have when each is translated as a whole, numbered 0, 1, 2 and so on.
  pub translate_gemini_stream-calls :
      (request_model : String) (lines : List String)
      → calls_sent (translate_gemini_stream codec decode request_model lines)
        ≡ number 0 (all_calls (responses lines))
  unfolding translate_gemini_stream
  translate_gemini_stream-calls request_model lines =
      on_lines-calls lines (record { model = request_model; sent_role = false; tool_call_idx = 0 })
