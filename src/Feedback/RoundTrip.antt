-- ===== src/Feedback/RoundTrip.antt =====
-- internal/feedback/store.go and reader.go: what was appended is what is read.
use mathlib.Core.List.{append-nil, append_assoc}
use costguard.Base.{
  ℕ, ◌-◌, ◌<◌, ◌≡◌, refl, sym, true, false, ◌&&◌, ◌⊎◌, inl, inr, String, List, [], ◌∷◌, ◌++◌, none,
  some, if◌then◌else◌, ok, err, is_empty, length, arith, leb, ltb, ◌==◌, take, length-drop,
  take-append-drop, str_eq, eq_iff, Bool-cases,
}
use costguard.Feedback.{
  FeedbackRecord, Filter, agrees, matches, Coder, too_long, lines, max_line, scan, last_of, read,
  append,
}

-- What a filter asks of a record: every field that it names is that of the record.
abbrev pub Passes : Filter → FeedbackRecord → Type 0
Passes f r =
    ((f.consumer ≡ "") ⊎ (r.consumer ≡ f.consumer))
    × ((f.role ≡ "") ⊎ (r.role ≡ f.role))
    × ((f.model ≡ "") ⊎ (r.model ≡ f.model))

-- What is left of a list of records without those that do not pass, in their order.
pub data Picks (f : Filter) : List FeedbackRecord → List FeedbackRecord → Type 0 where
  none_left : Picks f [] []
  keep :
      {r : FeedbackRecord} {rs kept : List FeedbackRecord}
      → Passes f r
      → Picks f rs kept
      → Picks f (r ∷ rs) (r ∷ kept)
  skip :
      {r : FeedbackRecord} {rs kept : List FeedbackRecord}
      → ¬ Passes f r
      → Picks f rs kept
      → Picks f (r ∷ rs) kept

-- How many records a filter asks for of those that pass.
abbrev pub wanted : ℕ → ℕ → ℕ
wanted last_n passing =
    if last_n == 0 then passing else if ltb last_n passing then last_n else passing

-- The records that a filter lets through, as the reader tests them.
abbrev pub selected : Filter → List FeedbackRecord → List FeedbackRecord
selected f [] = []
selected f (r ∷ rs) = let rest = selected f rs in if matches f r then r ∷ rest else rest

agrees_cases :
    (wanted given : String) → agrees wanted given ≡ true → (wanted ≡ "") ⊎ (given ≡ wanted)
agrees_cases wanted given h = elim (Bool-cases (str_eq wanted "")) [
  | inl e ↦ inl ((eq_iff wanted "").0 e)
  | inr e ↦ inr ((eq_iff given wanted).0 (ground arith))
]

cases_agree :
    (wanted given : String) → (wanted ≡ "") ⊎ (given ≡ wanted) → agrees wanted given ≡ true
cases_agree wanted given (inl e) = ground (arith, eq_iff wanted "")
cases_agree wanted given (inr e) = ground (arith, eq_iff given wanted)

Passes-of_matches : (f : Filter) (r : FeedbackRecord) → matches f r ≡ true → Passes f r
unfolding matches
Passes-of_matches f r h = (
  agrees_cases f.consumer r.consumer (ground arith),
  agrees_cases f.role r.role (ground arith),
  agrees_cases f.model r.model (ground arith),
)

matches-of_Passes : (f : Filter) (r : FeedbackRecord) → Passes f r → matches f r ≡ true
unfolding matches
matches-of_Passes f r (c, o, m) = ground (
  arith,
  cases_agree f.consumer r.consumer c,
  cases_agree f.role r.role o,
  cases_agree f.model r.model m,
)

selected-Picks : (f : Filter) (rs : List FeedbackRecord) → Picks f rs (selected f rs)
selected-Picks f [] = none_left
selected-Picks f (r ∷ rs) = elim (Bool-cases (matches f r)) [
  | inl e ↦ rw e (keep (Passes-of_matches f r e) (selected-Picks f rs))
  | inr e ↦ rw e (skip (λ p. cc (matches-of_Passes f r p, e)) (selected-Picks f rs))
]

module _ (coder : Coder) where
  -- The file after appending records to it, none of the writes failing.
  abbrev pub append_all : List (List ℕ) → List FeedbackRecord → List (List ℕ)
  append_all file [] = file
  append_all file (r ∷ rs) = append_all (append coder none file r).1 rs

  -- A record whose line is decoded to it, and fits the reader's buffer.
  abbrev pub IsLine : FeedbackRecord → List ℕ → Type 0
  IsLine r line =
      (coder.encode r ≡ ok line)
      × (coder.decode line ≡ some r)
      × (is_empty line ≡ false)
      × (length line < max_line)

  -- Records with their lines.
  abbrev pub AreLines : List FeedbackRecord → List (List ℕ) → Type 0
  AreLines [] [] = Unit
  AreLines (r ∷ rs) (line ∷ ls) = IsLine r line × AreLines rs ls
  AreLines _ _ = ⊥

  append_all-AreLines :
      (file ls : List (List ℕ)) (rs : List FeedbackRecord)
      → AreLines rs ls
      → append_all file rs ≡ file ++ ls
  unfolding append
  append_all-AreLines file [] [] h = sym (append-nil file)
  append_all-AreLines file (line ∷ ls) (r ∷ rs) h =
      ground (
        arith,
        append_all-AreLines (file ++ (line ∷ [])) ls rs h.1,
        append_assoc file (line ∷ []) ls,
      )
  append_all-AreLines file [] (r ∷ rs) h = elim h [ ]
  append_all-AreLines file (line ∷ ls) [] h = elim h [ ]

  scan-AreLines :
      (f : Filter) (ls : List (List ℕ)) (rs : List FeedbackRecord)
      → AreLines rs ls
      → scan coder max_line f ls ≡ ok (selected f rs)
  unfolding scan
  scan-AreLines f [] [] h = refl
  scan-AreLines f (line ∷ ls) (r ∷ rs) h = ground (arith, scan-AreLines f ls rs)
  scan-AreLines f [] (r ∷ rs) h = elim h [ ]
  scan-AreLines f (line ∷ ls) [] h = elim h [ ]

  read-selected :
      (f : Filter) (rs : List FeedbackRecord) (ls : List (List ℕ))
      → AreLines rs ls
      → read coder f (lines (append_all [] rs)) ≡ ok (last_of coder f.last_n (selected f rs))
  unfolding read
  read-selected f rs ls h = ground (arith, append_all-AreLines [] ls rs h, scan-AreLines f ls rs h)

  last_of-ends :
      (n : ℕ) (rs : List FeedbackRecord)
      → (before : List FeedbackRecord) × (rs ≡ before ++ last_of coder n rs)
        × (length (last_of coder n rs) ≡ wanted n (length rs))
  unfolding last_of
  last_of-ends n rs = elim (Bool-cases (ltb 0 n && ltb n (length rs))) [
    | inl cut ↦
        let k = length rs - n in
        (take k rs, rw cut (sym (take-append-drop k rs)), rw cut (ground (arith, length-drop k rs)))
    | inr whole ↦ ([], rw whole refl, rw whole (ground arith))
  ]

  -- Records that are appended to an empty log, and whose lines are decoded to them and fit the reader's
  -- buffer, are read back: of those whose consumer, role and model are what the filter names, in their
  -- order, the last ones, as many as the filter asks for, or all where it asks for none or more.
  pub read-append_all :
      (f : Filter) (rs : List FeedbackRecord) (ls : List (List ℕ))
      → AreLines rs ls
      → (kept : List FeedbackRecord) × (before : List FeedbackRecord) × (out : List FeedbackRecord)
        × Picks f rs kept
        × (kept ≡ before ++ out)
        × (length out ≡ wanted f.last_n (length kept))
        × (read coder f (lines (append_all [] rs)) ≡ ok out)
  read-append_all f rs ls h =
      let kept = selected f rs in
      let (before, ends, long) = last_of-ends f.last_n kept in
      (
        kept,
        before,
        last_of coder f.last_n kept,
        selected-Picks f rs,
        ends,
        long,
        read-selected f rs ls h,
      )

  scan-too_long :
      (limit : ℕ) (f : Filter) (before after : List (List ℕ)) (line : List ℕ)
      → leb limit (length line) ≡ true
      → scan coder limit f (before ++ (line ∷ after)) ≡ err too_long
  unfolding scan
  scan-too_long limit f [] after line h = ground arith
  scan-too_long limit f (x ∷ before) after line h =
      ground (arith, scan-too_long limit f before after line h)

  -- Once a line of a mebibyte or more is in the log, every read of it fails, with any filter and whatever
  -- was appended before or after.
  pub read-too_long :
      (f : Filter) (before after : List (List ℕ)) (line : List ℕ)
      → leb max_line (length line) ≡ true
      → read coder f (lines (before ++ (line ∷ after))) ≡ err too_long
  unfolding read
  read-too_long f before after line h = rw (scan-too_long max_line f before after line h) refl
