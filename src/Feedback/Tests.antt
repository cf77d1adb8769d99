-- ===== src/Feedback/Tests.antt =====
-- internal/feedback: the theorems at records that meet their hypotheses.
use mathlib.Core.List.Perm
use costguard.Base.{
  ℕ, ◌≡◌, refl, true, List, [], ◌∷◌, ◌++◌, some, ok, err, pos, negsuc, leb, length, replicate,
  length-replicate, arith,
}
use costguard.Feedback.{FeedbackRecord, Filter, Coder, read, lines, too_long, max_line}
use costguard.Feedback.RoundTrip.{append_all, Picks, wanted, read-append_all, read-too_long}

abbrev success : FeedbackRecord
success = record {
  consumer = "agent";
  role = "coder";
  model = "m";
  task_fingerprint = "";
  outcome = "success";
  reviewer_passed = true;
  reviewer_retries = pos 2;
  user_accepted = true;
  input_tokens = pos 10;
  output_tokens = pos 20;
  duration_ms = pos 5;
  timestamp = 1;
  received_at = 1;
}

abbrev failure : FeedbackRecord
failure = record success { outcome = "failure"; reviewer_retries = negsuc 0 }

abbrev coder : Coder
coder = record {
  decode = λ line. some success;
  decode_first = λ line. some success;
  encode = λ r. ok (b'{' ∷ b'}' ∷ []);
}

abbrev anything : Filter
anything = record { consumer = ""; role = ""; model = ""; last_n = 1 }

read-append_all_example :
    let rs = success ∷ success ∷ [] in
    (kept : List FeedbackRecord) × (before : List FeedbackRecord) × (out : List FeedbackRecord)
    × Picks anything rs kept
    × (kept ≡ before ++ out)
    × (length out ≡ wanted 1 (length kept))
    × (read coder anything (lines (append_all coder [] rs)) ≡ ok out)
unfolding max_line
read-append_all_example =
    read-append_all coder anything (success ∷ success ∷ [])
      ((b'{' ∷ b'}' ∷ []) ∷ (b'{' ∷ b'}' ∷ []) ∷ [])
      ((refl, refl, refl, omega arith), ((refl, refl, refl, omega arith), tt))

leb_of_equal : (m n : ℕ) → m ≡ n → leb n m ≡ true
leb_of_equal m n e = ground arith

-- A line that fills the buffer.
read-too_long_example :
    read coder anything (lines ([] ++ (replicate max_line b'x' ∷ ((b'{' ∷ b'}' ∷ []) ∷ []))))
    ≡ err too_long
read-too_long_example =
    read-too_long coder anything [] ((b'{' ∷ b'}' ∷ []) ∷ []) (replicate max_line b'x')
      (leb_of_equal (length (replicate max_line b'x')) max_line (length-replicate max_line b'x'))
