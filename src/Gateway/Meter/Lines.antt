-- ===== src/Gateway/Meter/Lines.antt =====
-- internal/gateway/stream_meter.go: how the bytes that `Read` is given come to be lines.
use mathlib.Core.List.{append_assoc, append-nil}
use costguard.Base.{
  ℕ, String, zero, suc, ◌==◌, ◌≡◌, ◌<◌, ◌≤◌, refl, Bool, true, false, ◌&&◌, List, [], ◌∷◌, ◌++◌,
  Option, none, some, if◌then◌else◌, arith, length, length-append, leb, le→leb, Option-cases,
  Bool-cases, inl, inr,
}
use costguard.Gateway.Meter.{
  max_line_buf_size, SseChunk, Account, StreamMeter, trim_cr, cut_line, process_line, complete_line,
  keep_partial, drain, inspect, read, new_stream_meter,
}

-- The complete lines of a text of which `pre` has been seen, and what is left open at its end.
abbrev pub lines_from : List ℕ → List ℕ → List (List ℕ)
lines_from pre [] = []
lines_from pre (c ∷ s) =
    let ls = lines_from (if c == 10 then [] else pre ++ (c ∷ [])) s in
    if c == 10 then pre ∷ ls else ls

abbrev pub rest_from : List ℕ → List ℕ → List ℕ
rest_from pre [] = pre
rest_from pre (c ∷ s) = rest_from (if c == 10 then [] else pre ++ (c ∷ [])) s

-- No line is longer than the cap, the last one included.
abbrev pub fits : List ℕ → List ℕ → Bool
fits pre [] = leb (length pre) max_line_buf_size
fits pre (c ∷ s) =
    let later = fits (if c == 10 then [] else pre ++ (c ∷ [])) s in
    leb (length pre) max_line_buf_size && later

abbrev pub concat : List (List ℕ) → List ℕ
concat [] = []
concat (s ∷ ss) = s ++ concat ss

lines_from-append :
    (pre s t : List ℕ)
    → lines_from pre (s ++ t) ≡ lines_from pre s ++ lines_from (rest_from pre s) t
lines_from-append pre [] t = refl
lines_from-append pre (c ∷ s) t =
    ground (arith, lines_from-append (if c == 10 then [] else pre ++ (c ∷ [])) s t)

fits-head : (pre s : List ℕ) → fits pre s ≡ true → length pre ≤ max_line_buf_size
fits-head pre [] h = ground arith
fits-head pre (c ∷ s) h = ground arith

fits-rest : (pre s t : List ℕ) → fits pre (s ++ t) ≡ true → fits (rest_from pre s) t ≡ true
fits-rest pre [] t h = h
fits-rest pre (c ∷ s) t h = fits-rest (if c == 10 then [] else pre ++ (c ∷ [])) s t (ground arith)

fits-front : (pre s t : List ℕ) → fits pre (s ++ t) ≡ true → fits pre s ≡ true
fits-front pre [] t h = le→leb (length pre) max_line_buf_size (fits-head pre t h)
fits-front pre (c ∷ s) t h =
    ground (arith, fits-front (if c == 10 then [] else pre ++ (c ∷ [])) s t)

rest_from-append : (pre s t : List ℕ) → rest_from pre (s ++ t) ≡ rest_from (rest_from pre s) t
rest_from-append pre [] t = refl
rest_from-append pre (c ∷ s) t = rest_from-append (if c == 10 then [] else pre ++ (c ∷ [])) s t

-- A text without a newline is cut where the text behind it is.
cut_line-append :
    (pre s : List ℕ)
    → cut_line pre ≡ none
    → cut_line (pre ++ s) ≡ elim (cut_line s) [ none ↦ none | some (a, b) ↦ some (pre ++ a, b) ]
cut_line-append [] s h = elim (Option-cases (cut_line s)) [
  | inl e ↦ ground arith
  | inr ((a, b), e) ↦ ground arith
]
cut_line-append (c ∷ pre) s h = elim (Option-cases (cut_line pre)) [
  | inl e ↦ elim (Option-cases (cut_line s)) [
    | inl g ↦ ground (arith, cut_line-append pre s e)
    | inr ((a, b), g) ↦ ground (arith, cut_line-append pre s e)
  ]
  | inr ((a, b), e) ↦ ground arith
]

length-cut : (s : List ℕ) {a b : List ℕ} → cut_line s ≡ some (a, b) → length b < length s
length-cut [] h = cc
length-cut (c ∷ s) {a} {b} h = elim (Option-cases (cut_line s)) [
  | inl e ↦ ground arith
  | inr ((x, y), e) ↦ ground (arith, length-cut s e)
]

cut_line-push :
    (pre : List ℕ) (c : ℕ)
    → cut_line pre ≡ none
    → (c == 10) ≡ false
    → cut_line (pre ++ (c ∷ [])) ≡ none
cut_line-push pre c h e = rw (cut_line-append pre (c ∷ []) h) (ground arith)

cut_line-newline :
    (pre : List ℕ) (c : ℕ) (s : List ℕ)
    → cut_line pre ≡ none
    → (c == 10) ≡ true
    → cut_line (pre ++ (c ∷ s)) ≡ some (pre, s)
cut_line-newline pre c s h e = rw (cut_line-append pre (c ∷ s) h) (ground (arith, append-nil pre))

module _ (unmarshal : List ℕ → Option SseChunk) where
  abbrev pub process_lines : List (List ℕ) → Account → Account
  process_lines [] a = a
  process_lines (l ∷ ls) a = process_lines ls (process_line unmarshal (trim_cr l) a)

  process_lines-append :
      (ks ls : List (List ℕ)) (a : Account)
      → process_lines (ks ++ ls) a ≡ process_lines ls (process_lines ks a)
  process_lines-append [] ls a = refl
  process_lines-append (k ∷ ks) ls a =
      process_lines-append ks ls (process_line unmarshal (trim_cr k) a)

  -- A meter in the middle of a line.
  abbrev pub amid : List ℕ → Account → StreamMeter
  amid pre a = record { line_buf = pre; line_overflowed = false; account = a }

  keep_partial-amid :
      (pre : List ℕ) (a : Account)
      → length pre ≤ max_line_buf_size
      → keep_partial unmarshal (amid pre a) ≡ amid pre a
  unfolding keep_partial
  keep_partial-amid pre a h = ground arith

  drain-none :
      (n : ℕ) (pre : List ℕ) (a : Account)
      → cut_line pre ≡ none
      → length pre ≤ max_line_buf_size
      → drain unmarshal (suc n) (amid pre a) ≡ amid pre a
  unfolding drain
  drain-none n pre a h l = rw h (keep_partial-amid pre a l)

  drain-some :
      (n : ℕ) (buf line rest : List ℕ) (a : Account)
      → cut_line buf ≡ some (line, rest)
      → drain unmarshal (suc n) (amid buf a)
        ≡ drain unmarshal n (amid rest (process_line unmarshal (trim_cr line) a))
  unfolding drain complete_line
  drain-some n buf line rest a h = rw h refl

  drain-amid :
      (n : ℕ) (pre s : List ℕ) (a : Account)
      → cut_line pre ≡ none
      → fits pre s ≡ true
      → length s < n
      → drain unmarshal n (amid (pre ++ s) a)
        ≡ amid (rest_from pre s) (process_lines (lines_from pre s) a)
  drain-amid zero pre s a h f l = absurd (omega arith)
  drain-amid (suc n) pre [] a h f l =
      rw (append-nil pre) (drain-none n pre a h (fits-head pre [] f))
  drain-amid (suc n) pre (c ∷ s) a h f l = elim (Bool-cases (c == 10)) [
    | inl e ↦ ground (
      arith,
      drain-some n (pre ++ (c ∷ s)) pre s a (cut_line-newline pre c s h e),
      drain-amid n [] s (process_line unmarshal (trim_cr pre) a),
    )
    | inr e ↦ ground (
      arith,
      append_assoc pre (c ∷ []) s,
      cut_line-push pre c h e,
      drain-amid (suc n) (pre ++ (c ∷ [])) s a,
    )
  ]

  -- What one `Read` without an error does between two newlines.
  read-amid :
      (pre s : List ℕ) (a : Account)
      → cut_line pre ≡ none
      → fits pre s ≡ true
      → read unmarshal s false (amid pre a)
        ≡ amid (rest_from pre s) (process_lines (lines_from pre s) a)
  unfolding read inspect
  read-amid pre [] a h f = refl
  read-amid pre (c ∷ s) a h f =
      drain-amid (suc (length (pre ++ (c ∷ s)))) pre (c ∷ s) a h f
        (omega (arith, length-append pre (c ∷ s)))

  cut_line-rest : (pre s : List ℕ) → cut_line pre ≡ none → cut_line (rest_from pre s) ≡ none
  cut_line-rest pre [] h = h
  cut_line-rest pre (c ∷ s) h = elim (Bool-cases (c == 10)) [
    | inl e ↦ ground (arith, cut_line-rest [] s)
    | inr e ↦ ground (arith, cut_line-push pre c h e, cut_line-rest (pre ++ (c ∷ [])) s)
  ]

  -- Reads that succeed, one after the other.
  abbrev pub reads : List (List ℕ) → StreamMeter → StreamMeter
  reads [] m = m
  reads (s ∷ ss) m = reads ss (read unmarshal s false m)

  reads-amid :
      (chunks : List (List ℕ)) (pre : List ℕ) (a : Account)
      → cut_line pre ≡ none
      → fits pre (concat chunks) ≡ true
      → reads chunks (amid pre a)
        ≡ amid (rest_from pre (concat chunks)) (process_lines (lines_from pre (concat chunks)) a)
  reads-amid [] pre a h f = refl
  reads-amid (s ∷ ss) pre a h f =
      rw
        (
          read-amid pre s a h (fits-front pre s (concat ss) f),
          lines_from-append pre s (concat ss),
          rest_from-append pre s (concat ss),
          process_lines-append (lines_from pre s) (lines_from (rest_from pre s) (concat ss)) a,
        )
        (reads-amid ss (rest_from pre s) (process_lines (lines_from pre s) a)
          (cut_line-rest pre s h) (fits-rest pre s (concat ss) f))

  -- However a stream whose lines are no longer than the cap is cut into reads, a new meter has handled
  -- exactly the complete lines of the whole stream, in their order, and holds the open line.
  pub reads-new_stream_meter :
      (model : String) (prompt vision : ℕ) (chunks : List (List ℕ))
      → fits [] (concat chunks) ≡ true
      → reads chunks (new_stream_meter model prompt vision) ≡ record {
        line_buf = rest_from [] (concat chunks);
        line_overflowed = false;
        account =
            process_lines
              (lines_from [] (concat chunks))
              (new_stream_meter model prompt vision).account;
      }
  unfolding new_stream_meter
  reads-new_stream_meter model prompt vision chunks f =
      reads-amid chunks [] (new_stream_meter model prompt vision).account refl f

  -- The rounds of the loop suffice, and what is left is short.
  drain_bounded :
      (n : ℕ) (m : StreamMeter)
      → length m.line_buf < n
      → (cut_line (drain unmarshal n m).line_buf ≡ none)
        × (length (drain unmarshal n m).line_buf ≤ max_line_buf_size)
  unfolding drain complete_line keep_partial
  drain_bounded zero m h = absurd (omega arith)
  drain_bounded (suc n) m h = elim (Option-cases (cut_line m.line_buf)) [
    | inl e ↦ ground arith
    | inr ((line, rest), e) ↦
        ground
          (arith, length-cut m.line_buf e, drain_bounded n (complete_line unmarshal line rest m))
  ]

  -- Whatever a meter held and is given, after `inspect` its buffer holds no newline, so every complete
  -- line has been handled, and at most `maxLineBufSize` bytes.
  pub inspect_bounded :
      (bytes : List ℕ) (m : StreamMeter)
      → (cut_line (inspect unmarshal bytes m).line_buf ≡ none)
        × (length (inspect unmarshal bytes m).line_buf ≤ max_line_buf_size)
  unfolding inspect
  inspect_bounded bytes m =
      drain_bounded (suc (length (m.line_buf ++ bytes)))
        (record m { line_buf = m.line_buf ++ bytes }) (omega arith)
