-- ===== src/Anthropic/Stream/Calls.antt =====
-- internal/providers/anthropic/transform.go: the tool calls of a translated stream.
use costguard.Base.{
  ℕ, suc, ◌≡◌, refl, ap, String, Bool, true, false, List, [], ◌∷◌, ◌++◌, Option, none, some, str_eq,
  has_prefix, if◌then◌else◌, arith, inl, ◌⊎◌,
}
use costguard.Anthropic.Images.{drop_prefix}
use costguard.Anthropic.Stream.{
  Decoder, Chunk, chunk, done, role, words, call_start, call_arguments, finish, Translation, start,
  decoded, on_message_start, on_block_start, on_block_delta, on_message_delta, on_data, on_line,
  on_lines, translate_anthropic_stream, MessageStart, BlockStart, BlockDelta, MessageDelta,
}

-- The indices of the tool calls that a stream of chunks starts.
abbrev pub started : List Chunk → List ℕ
started [] = []
started (chunk id model (call_start n i name) ∷ cs) = n ∷ started cs
started (chunk id model (role r) ∷ cs) = started cs
started (chunk id model (words w) ∷ cs) = started cs
started (chunk id model (call_arguments n a) ∷ cs) = started cs
started (chunk id model (finish r u) ∷ cs) = started cs
started (done ∷ cs) = started cs

-- `n`, `n + 1`, …: as many numbers in a row as the list is long.
abbrev pub IsRow : ℕ → List ℕ → Type 0
IsRow n [] = Unit
IsRow n (m ∷ ms) = (m ≡ n) × IsRow (suc n) ms

started-append : (cs ds : List Chunk) → started (cs ++ ds) ≡ started cs ++ started ds
started-append [] ds = refl
started-append (chunk id model (call_start n i name) ∷ cs) ds =
    ap (λ ns. n ∷ ns) (started-append cs ds)
started-append (chunk id model (role r) ∷ cs) ds = started-append cs ds
started-append (chunk id model (words w) ∷ cs) ds = started-append cs ds
started-append (chunk id model (call_arguments n a) ∷ cs) ds = started-append cs ds
started-append (chunk id model (finish r u) ∷ cs) ds = started-append cs ds
started-append (done ∷ cs) ds = started-append cs ds

-- A line starts no call, or the next one.
abbrev OneMore : Translation → Translation × List Chunk → Type 0
OneMore t (t', cs) =
    (started cs ≡ []) × (t'.next_tool_idx ≡ t.next_tool_idx)
    ⊎ (started cs ≡ t.next_tool_idx ∷ []) × (t'.next_tool_idx ≡ suc t.next_tool_idx)

block_start_OneMore : (e : BlockStart) (t : Translation) → OneMore t (on_block_start e t)
unfolding on_block_start
block_start_OneMore e t = ground arith

block_delta_OneMore : (e : BlockDelta) (t : Translation) → OneMore t (on_block_delta e t)
unfolding on_block_delta
block_delta_OneMore e t = ground arith

message_start_OneMore : (e : MessageStart) (t : Translation) → OneMore t (on_message_start e t)
unfolding on_message_start
message_start_OneMore e t = inl (refl, refl)

message_delta_OneMore : (e : MessageDelta) (t : Translation) → OneMore t (on_message_delta e t)
unfolding on_message_delta
message_delta_OneMore e t = inl (refl, refl)

decoded-OneMore :
    {E : Type 0} (o : Option E) (k : E → Translation → Translation × List Chunk) (t : Translation)
    → ((e : E) → OneMore t (k e t))
    → OneMore t (decoded o k t)
decoded-OneMore none k t h = inl (refl, refl)
decoded-OneMore (some e) k t h = h e

if_OneMore :
    (b : Bool) (t : Translation) (x y : Translation × List Chunk)
    → OneMore t x
    → OneMore t y
    → OneMore t (if b then x else y)
if_OneMore true t x y h k = h
if_OneMore false t x y h k = k

module _ (d : Decoder) where
  on_data-OneMore : (payload : String) (t : Translation) → OneMore t (on_data d payload t)
  unfolding on_data
  on_data-OneMore payload t =
      if_OneMore (str_eq t.event_type "message_start") t _ _
        (decoded-OneMore (d.message_start payload) on_message_start t
          (λ e. message_start_OneMore e t))
        (if_OneMore (str_eq t.event_type "content_block_start") t _ _
          (decoded-OneMore (d.block_start payload) on_block_start t (λ e. block_start_OneMore e t))
          (if_OneMore (str_eq t.event_type "content_block_delta") t _ _
            (decoded-OneMore (d.block_delta payload) on_block_delta t
              (λ e. block_delta_OneMore e t))
            (if_OneMore (str_eq t.event_type "message_delta") t _ _
              (decoded-OneMore (d.message_delta payload) on_message_delta t
                (λ e. message_delta_OneMore e t))
              (if_OneMore (str_eq t.event_type "message_stop") t (t, done ∷ []) (t, [])
                (inl (refl, refl)) (inl (refl, refl))))))

  on_line-OneMore : (line : String) (t : Translation) → OneMore t (on_line d line t)
  unfolding on_line
  on_line-OneMore line t =
      if_OneMore (has_prefix "event: " line) t
        (record t { event_type = drop_prefix "event: " line }, []) _ (inl (refl, refl))
        (if_OneMore (has_prefix "data: " line) t _ (t, [])
          (on_data-OneMore (drop_prefix "data: " line) t) (inl (refl, refl)))

  IsRow-next :
      (t : Translation) (x : Translation × List Chunk) (ms : List ℕ)
      → OneMore t x
      → IsRow x.0.next_tool_idx ms
      → IsRow t.next_tool_idx (started x.1 ++ ms)
  IsRow-next t (t', cs) ms h r = ground arith

  on_lines-IsRow :
      (lines : List String) (t : Translation) → IsRow t.next_tool_idx (started (on_lines d lines t))
  unfolding on_lines
  on_lines-IsRow [] t = tt
  on_lines-IsRow (line ∷ lines) t =
      rw (started-append (on_line d line t).1 (on_lines d lines (on_line d line t).0)) (
        IsRow-next t (on_line d line t) (started (on_lines d lines (on_line d line t).0))
          (on_line-OneMore line t) (on_lines-IsRow lines (on_line d line t).0))

  -- Whatever lines Anthropic sends, the tool calls that the translated stream starts are numbered
  -- 0, 1, 2 and so on, in the order of their start.
  pub translate_anthropic_stream-IsRow :
      (request_model : String) (lines : List String)
      → IsRow 0 (started (translate_anthropic_stream d request_model lines))
  unfolding translate_anthropic_stream start
  translate_anthropic_stream-IsRow request_model lines = on_lines-IsRow lines (start request_model)
