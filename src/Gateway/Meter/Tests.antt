-- ===== src/Gateway/Meter/Tests.antt =====
-- internal/gateway/stream_meter.go: the theorems at a stream of two reads.
use costguard.Base.{ℕ, ◌≡◌, ◌≤◌, refl, true, false, List, [], ◌∷◌, Option, none, some, length}
use costguard.Gateway.Meter.{SseChunk, max_line_buf_size, cut_line, inspect, new_stream_meter}
use costguard.Gateway.Meter.Lines.{
  reads, concat, rest_from, lines_from, process_lines, reads-new_stream_meter, inspect_bounded,
}
use costguard.Gateway.Meter.Once.{Call, reading, closing, calls, ends, calls-new_stream_meter}

abbrev unmarshal : List ℕ → Option SseChunk
unmarshal s = some (record { model = "gpt-4o"; usage = none; contents = 8 ∷ [] })

-- "data: {}", cut in the middle of the prefix.
abbrev pieces : List (List ℕ)
pieces = (100 ∷ 97 ∷ 116 ∷ []) ∷ (97 ∷ 58 ∷ 32 ∷ 123 ∷ 125 ∷ 10 ∷ []) ∷ []

reads-new_stream_meter_example : reads unmarshal pieces (new_stream_meter "gpt-4o" 3 0) ≡ record {
  line_buf = rest_from [] (concat pieces);
  line_overflowed = false;
  account =
      process_lines unmarshal
        (lines_from [] (concat pieces))
        (new_stream_meter "gpt-4o" 3 0).account;
}
unfolding max_line_buf_size
reads-new_stream_meter_example = reads-new_stream_meter unmarshal "gpt-4o" 3 0 pieces refl

inspect_bounded_example :
    let m = inspect unmarshal (100 ∷ 10 ∷ 97 ∷ []) (new_stream_meter "gpt-4o" 3 0) in
    (cut_line m.line_buf ≡ none) × (length m.line_buf ≤ max_line_buf_size)
inspect_bounded_example =
    inspect_bounded unmarshal (100 ∷ 10 ∷ 97 ∷ []) (new_stream_meter "gpt-4o" 3 0)

abbrev session : List Call
session = reading (100 ∷ 97 ∷ []) false ∷ reading [] true ∷ closing ∷ []

calls-new_stream_meter_example :
    let m = calls unmarshal session (new_stream_meter "gpt-4o" 3 0) in
    (length m.account.reports ≤ 1) × (ends session ≡ true → length m.account.reports ≡ 1)
calls-new_stream_meter_example = calls-new_stream_meter unmarshal "gpt-4o" 3 0 session
