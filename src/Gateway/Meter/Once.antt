-- ===== src/Gateway/Meter/Once.antt =====
-- internal/gateway/stream_meter.go: how often `onDone` is called.
use costguard.Base.{
  ℕ, zero, suc, ◌≡◌, ◌≤◌, refl, Bool, true, false, String, ◌||◌, List, [], ◌∷◌, ◌++◌, Option, none,
  some, if◌then◌else◌, arith, length, length-append, is_empty, Option-cases, Bool-cases, inl, inr,
  drop, str_eq,
}
use costguard.Gateway.Meter.{
  report_of, ChunkUsage, SseChunk, Account, StreamMeter, trim_cr, cut_line, take_usage, take_chunk,
  finish, process_line, complete_line, keep_partial, drain, inspect, read, close, new_stream_meter,
}

-- What the caller of the stream does: a read, with the bytes and whether an error came, or `Close`.
pub data Call : Type 0 where
  reading : List ℕ → Bool → Call
  closing : Call

-- The stream has ended for its caller.
abbrev pub ends : List Call → Bool
ends [] = false
ends (reading bytes failed ∷ cs) = failed || ends cs
ends (closing ∷ cs) = true

-- The meter has reported once if it is done, and not at all if it is not.
abbrev Counted : Account → Type 0
Counted a = length a.reports ≡ (if a.done then 1 else 0)

-- A step that keeps the count, and never takes the end back.
abbrev Steady : Account → Account → Type 0
Steady a b = (Counted a → Counted b) × (a.done ≡ true → b.done ≡ true)

Steady-refl : (a : Account) → Steady a a
Steady-refl a = (λ h. h, λ h. h)

Steady-trans : (a b c : Account) → Steady a b → Steady b c → Steady a c
Steady-trans a b c s t = (λ h. t.0 (s.0 h), λ h. t.1 (s.1 h))

finish-Steady : (a : Account) → Steady a (finish a)
unfolding finish
finish-Steady a = elim (Bool-cases a.done) [
  | inl e ↦ ground arith
  | inr e ↦ (λ h. ground (arith, length-append a.reports (report_of a ∷ [])), λ h. cc)
]

finish-done : (a : Account) → (finish a).done ≡ true
unfolding finish
finish-done a = ground arith

take_usage-Steady : (o : Option ChunkUsage) (a : Account) → Steady a (take_usage o a)
take_usage-Steady none a = (λ h. h, λ h. h)
take_usage-Steady (some u) a = ground arith

take_chunk-Steady : (c : SseChunk) (a : Account) → Steady a (take_chunk c a)
unfolding take_chunk
take_chunk-Steady c a =
    let b = if str_eq c.model "" then a else record a { model = c.model } in
    Steady-trans a b (take_chunk c a) (ground arith) (take_usage-Steady c.usage b)

module _ (unmarshal : List ℕ → Option SseChunk) where
  abbrev pub call : Call → StreamMeter → StreamMeter
  call (reading bytes failed) m = read unmarshal bytes failed m
  call closing m = close unmarshal m

  abbrev pub calls : List Call → StreamMeter → StreamMeter
  calls [] m = m
  calls (c ∷ cs) m = calls cs (call c m)

  process_line-Steady : (line : List ℕ) (a : Account) → Steady a (process_line unmarshal line a)
  unfolding process_line
  process_line-Steady line a = elim (Option-cases (unmarshal (drop 6 line))) [
    | inl e ↦ ground (arith, finish-Steady a)
    | inr (c, e) ↦ ground (arith, finish-Steady a, take_chunk-Steady c a)
  ]

  drain-Steady : (n : ℕ) (m : StreamMeter) → Steady m.account (drain unmarshal n m).account
  unfolding drain complete_line keep_partial
  drain-Steady zero m = Steady-refl m.account
  drain-Steady (suc n) m = elim (Option-cases (cut_line m.line_buf)) [
    | inl e ↦ ground arith
    | inr ((line, rest), e) ↦ ground (
      arith,
      process_line-Steady (trim_cr line) m.account,
      drain-Steady n (complete_line unmarshal line rest m),
    )
  ]

  inspect-Steady :
      (bytes : List ℕ) (m : StreamMeter) → Steady m.account (inspect unmarshal bytes m).account
  unfolding inspect
  inspect-Steady bytes m =
      drain-Steady (suc (length (m.line_buf ++ bytes)))
        (record m { line_buf = m.line_buf ++ bytes })

  call-Steady : (c : Call) (m : StreamMeter) → Steady m.account (call c m).account
  unfolding read close
  call-Steady closing m = finish-Steady m.account
  call-Steady (reading bytes failed) m =
      let m' = if is_empty bytes then m else inspect unmarshal bytes m in
      Steady-trans m.account m'.account (call (reading bytes failed) m).account
        (ground (arith, inspect-Steady bytes m)) (ground (arith, finish-Steady m'.account))

  calls-Steady : (cs : List Call) (m : StreamMeter) → Steady m.account (calls cs m).account
  calls-Steady [] m = Steady-refl m.account
  calls-Steady (c ∷ cs) m =
      Steady-trans m.account (call c m).account (calls cs (call c m)).account (call-Steady c m)
        (calls-Steady cs (call c m))

  calls-done :
      (cs : List Call) (m : StreamMeter) → ends cs ≡ true → (calls cs m).account.done ≡ true
  unfolding read close
  calls-done [] m h = cc
  calls-done (closing ∷ cs) m h = (calls-Steady cs (close unmarshal m)).1 (finish-done m.account)
  calls-done (reading bytes true ∷ cs) m h =
      (calls-Steady cs (read unmarshal bytes true m)).1
        (finish-done (if is_empty bytes then m else inspect unmarshal bytes m).account)
  calls-done (reading bytes false ∷ cs) m h = calls-done cs (read unmarshal bytes false m) h

  -- Whatever the stream holds and however it is read and closed, `onDone` is called at most once, and
  -- once the stream was closed or a read of it failed it has been called exactly once.
  pub calls-new_stream_meter :
      (model : String) (prompt vision : ℕ) (cs : List Call)
      → (length (calls cs (new_stream_meter model prompt vision)).account.reports ≤ 1)
        × (ends cs ≡ true
            → length (calls cs (new_stream_meter model prompt vision)).account.reports ≡ 1)
  calls-new_stream_meter model prompt vision cs =
      let m = new_stream_meter model prompt vision in
      let h = (calls-Steady cs m).0 (unfold new_stream_meter in refl) in
      (ground arith, λ e. ground (arith, calls-done cs m e))
