-- ===== src/Gemini/Stream/Blank.antt =====
-- internal/providers/gemini/transform.go: texts of white space in a stream.
use costguard.Base.{ℕ, suc, ◌≡◌, refl, String, true, List, [], ◌∷◌, ◌++◌, Option, is_blank, arith}
use costguard.Json.{Codec}
use costguard.Gemini.Types.{ReplyPart, called, spoken, GenerateResponse, Candidate, UsageMetadata}
use costguard.Gemini.Stream.{StreamState, on_parts, on_candidates, on_finish}

module _ (codec : Codec) (decode : String → Option GenerateResponse) where
  on_parts-blank :
      (model t : String) (ps qs : List ReplyPart) (n : ℕ)
      → is_blank t ≡ true
      → on_parts codec decode model (ps ++ (spoken t ∷ qs)) n
        ≡ on_parts codec decode model (ps ++ qs) n
  unfolding on_parts
  on_parts-blank model t [] qs n h = ground arith
  on_parts-blank model t (called name args ∷ ps) qs n h =
      ground (arith, on_parts-blank model t ps qs (suc n) h)
  on_parts-blank model t (spoken u ∷ ps) qs n h = ground (arith, on_parts-blank model t ps qs n h)

  -- A text of white space alone, such as the line break between two paragraphs, leaves no trace: the
  -- chunks of a candidate, and the state behind it, are those of the candidate without that part.
  pub on_candidates-blank :
      (t : String) (ps qs : List ReplyPart) (reason : String) (cs : List Candidate)
      (u : UsageMetadata) (s : StreamState)
      → is_blank t ≡ true
      → on_candidates codec decode
          (record { parts = ps ++ (spoken t ∷ qs); finish_reason = reason } ∷ cs)
          u
          s
        ≡ on_candidates codec decode (record { parts = ps ++ qs; finish_reason = reason } ∷ cs) u s
  unfolding on_candidates on_finish
  on_candidates-blank t ps qs reason cs u s h =
      rw (on_parts-blank s.model t ps qs s.tool_call_idx h) refl
