-- ===== src/Gateway/Meter.antt =====
-- internal/gateway/stream_meter.go: metering a stream of server-sent events while it passes through.
-- Bytes are numbers. Decoding a chunk's JSON is the standard library's, an argument here; what the
-- callback is given is listed in the order of its calls.
pub mod Lines
pub mod Once
mod Tests
use costguard.Base.{
  ℕ, zero, suc, ◌+◌, ◌/◌, ◌^◌, ◌==◌, String, Bool, true, false, not, ◌&&◌, List, [], ◌∷◌, ◌++◌,
  Option, none, some, str_eq, is_empty, length, ltb, if◌then◌else◌, runes, starts, drop,
}

unfoldable pub max_line_buf_size : ℕ
max_line_buf_size = 2 ^ 20

-- The usage of a chunk: the struct of `processLine`.
pub record ChunkUsage : Type 0 where
  pub prompt_tokens : ℕ
  pub completion_tokens : ℕ
  pub total_tokens : ℕ
  pub cache_creation_input_tokens : ℕ
  pub cache_read_input_tokens : ℕ

-- A decoded chunk, with the lengths of its choices' contents in bytes.
pub record SseChunk : Type 0 where
  pub model : String
  pub usage : Option ChunkUsage
  pub contents : List ℕ

-- What `onDone` is called with.
pub record DoneReport : Type 0 where
  pub model : String
  pub prompt : ℕ
  pub completion : ℕ
  pub total : ℕ
  pub cache_creation : ℕ
  pub cache_read : ℕ
  pub estimated : Bool

-- The fields of `StreamMeter` that the lines change, and its calls of `onDone`.
pub record Account : Type 0 where
  pub prompt_estimate : ℕ
  pub vision_estimate : ℕ
  pub model : String
  pub prompt_tokens : ℕ
  pub completion_tokens : ℕ
  pub total_tokens : ℕ
  pub cache_creation_input_tokens : ℕ
  pub cache_read_input_tokens : ℕ
  pub accumulated_text_len : ℕ
  pub done : Bool
  pub reports : List DoneReport

pub record StreamMeter : Type 0 where
  pub line_buf : List ℕ
  pub line_overflowed : Bool
  pub account : Account

unfoldable pub new_stream_meter : String → ℕ → ℕ → StreamMeter
new_stream_meter initial_model prompt_estimate vision_estimate = record {
  line_buf = [];
  line_overflowed = false;
  account = record {
    prompt_estimate = prompt_estimate;
    vision_estimate = vision_estimate;
    model = initial_model;
    prompt_tokens = 0;
    completion_tokens = 0;
    total_tokens = 0;
    cache_creation_input_tokens = 0;
    cache_read_input_tokens = 0;
    accumulated_text_len = 0;
    done = false;
    reports = [];
  };
}

-- The counts that are reported, by what the stream said.
unfoldable pub report_of : Account → DoneReport
report_of a =
    let report : ℕ → ℕ → ℕ → Bool → DoneReport = λ prompt completion total estimated. record {
      model = a.model;
      prompt = prompt;
      completion = completion;
      total = total;
      cache_creation = a.cache_creation_input_tokens;
      cache_read = a.cache_read_input_tokens;
      estimated = estimated;
    } in
    let completion = a.accumulated_text_len / 4 in
    let prompt = a.prompt_estimate + a.vision_estimate in
    if a.total_tokens == 0
    then report prompt completion (prompt + completion) true
    else if (a.prompt_tokens == 0) && ltb 0 a.vision_estimate
    then report a.vision_estimate a.completion_tokens (a.vision_estimate + a.completion_tokens)
        false
    else report a.prompt_tokens a.completion_tokens a.total_tokens false

-- `finish`, once.
unfoldable pub finish : Account → Account
unfolding report_of
finish a = if a.done then a else record a { done = true; reports = a.reports ++ (report_of a ∷ []) }

abbrev pub sum : List ℕ → ℕ
sum [] = 0
sum (n ∷ ns) = n + sum ns

abbrev pub take_usage : Option ChunkUsage → Account → Account
take_usage none a = a
take_usage (some u) a =
    if ltb 0 u.total_tokens
    then record a {
      prompt_tokens = u.prompt_tokens;
      completion_tokens = u.completion_tokens;
      total_tokens = u.total_tokens;
      cache_creation_input_tokens = u.cache_creation_input_tokens;
      cache_read_input_tokens = u.cache_read_input_tokens;
    }
    else a

unfoldable pub take_chunk : SseChunk → Account → Account
take_chunk c a =
    let b = take_usage c.usage (if str_eq c.model "" then a else record a { model = c.model }) in
    record b { accumulated_text_len = b.accumulated_text_len + sum c.contents }

-- `strings.TrimRight(line, "\r")`
abbrev pub trim_cr : List ℕ → List ℕ
trim_cr [] = []
trim_cr (c ∷ s) = let t = trim_cr s in if (c == 13) && is_empty t then [] else c ∷ t

abbrev pub same_bytes : List ℕ → List ℕ → Bool
same_bytes [] [] = true
same_bytes [] (d ∷ t) = false
same_bytes (c ∷ s) [] = false
same_bytes (c ∷ s) (d ∷ t) = (c == d) && same_bytes s t

-- The bytes in front of the first newline, and those behind it.
abbrev pub cut_line : List ℕ → Option (List ℕ × List ℕ)
cut_line [] = none
cut_line (c ∷ s) =
    let rest = cut_line s in
    if c == 10 then some ([], s) else elim rest [ none ↦ none | some (a, b) ↦ some (c ∷ a, b) ]

module _ (unmarshal : List ℕ → Option SseChunk) where
  unfoldable pub process_line : List ℕ → Account → Account
  unfolding finish take_chunk
  process_line line a =
      if not (starts (runes "data: ") line)
      then a
      else if same_bytes (drop 6 line) (runes "[DONE]")
      then finish a
      else elim (unmarshal (drop 6 line)) [ none ↦ a | some c ↦ take_chunk c a ]

  -- What a complete line does, `rest` being what is behind it.
  unfoldable pub complete_line : List ℕ → List ℕ → StreamMeter → StreamMeter
  unfolding process_line
  complete_line line rest m =
      if m.line_overflowed
      then record m { line_buf = rest; line_overflowed = false }
      else record m { line_buf = rest; account = process_line (trim_cr line) m.account }

  -- The end of the loop: a line that is too long is dropped.
  unfoldable pub keep_partial : StreamMeter → StreamMeter
  unfolding max_line_buf_size
  keep_partial m =
      if ltb max_line_buf_size (length m.line_buf)
      then record m { line_buf = []; line_overflowed = true }
      else m

  -- The loop of `inspect`, with as many rounds as there can be newlines.
  unfoldable pub drain : ℕ → StreamMeter → StreamMeter
  unfolding complete_line keep_partial
  drain zero m = m
  drain (suc n) m = elim (cut_line m.line_buf) [
    | none ↦ keep_partial m
    | some (line, rest) ↦ drain n (complete_line line rest m)
  ]

  unfoldable pub inspect : List ℕ → StreamMeter → StreamMeter
  unfolding drain
  inspect bytes m =
      let buf = m.line_buf ++ bytes in drain (suc (length buf)) (record m { line_buf = buf })

  -- `Read`, of what the source gives: bytes, and whether an error, such as the end, came with them.
  unfoldable pub read : List ℕ → Bool → StreamMeter → StreamMeter
  unfolding inspect finish
  read bytes failed m =
      let m' = if is_empty bytes then m else inspect bytes m in
      if failed then record m' { account = finish m'.account } else m'

  unfoldable pub close : StreamMeter → StreamMeter
  unfolding finish
  close m = record m { account = finish m.account }
