-- ===== src/Feedback.antt =====
-- internal/feedback: the log of feedback records, its reader, and the two handlers. The file is the list
-- of its lines, without their newlines, which JSON that was marshalled does not hold. Decoding and
-- encoding are parameters; an int is unbounded.
pub mod RoundTrip
pub mod Stats
mod Tests
use costguard.Base.{
  ℕ, zero, suc, ◌-◌, String, Bool, true, false, not, ◌||◌, ◌&&◌, ◌==◌, List, [], ◌∷◌, ◌++◌, Option,
  none, some, str_eq, if◌then◌else◌, Result, ok, err, and_then, is_empty, length, drop, ltb, leb, ℤ,
  pos, any,
}
use costguard.Gateway.Errors.{GoError}

-- A zero time is 0.
pub record FeedbackRecord : Type 0 where
  pub consumer : String
  pub role : String
  pub model : String
  pub task_fingerprint : String
  pub outcome : String
  pub reviewer_passed : Bool
  pub reviewer_retries : ℤ
  pub user_accepted : Bool
  pub input_tokens : ℤ
  pub output_tokens : ℤ
  pub duration_ms : ℤ
  pub timestamp : ℕ
  pub received_at : ℕ

pub record Filter : Type 0 where
  pub consumer : String
  pub role : String
  pub model : String
  pub last_n : ℕ

abbrev pub agrees : String → String → Bool
agrees wanted given = str_eq wanted "" || str_eq given wanted

unfoldable pub matches : Filter → FeedbackRecord → Bool
matches f r = agrees f.consumer r.consumer && (agrees f.role r.role && agrees f.model r.model)

-- `json.Unmarshal`, the `Decode` of a decoder, which reads the first value of a text, nothing where they
-- fail, and `json.Marshal`.
pub record Coder : Type 0 where
  pub decode : List ℕ → Option FeedbackRecord
  pub decode_first : List ℕ → Option FeedbackRecord
  pub encode : FeedbackRecord → Result GoError (List ℕ)

-- The errors of a read: the file cannot be opened, and a line too long for the scanner's buffer.
pub data ReadError : Type 0 where
  cannot_open : GoError → ReadError
  too_long : ReadError

-- What opening the file gives: no file, an error, or the lines.
pub data Opened : Type 0 where
  missing : Opened
  refused : GoError → Opened
  lines : List (List ℕ) → Opened

-- The buffer of the scanner, which holds a line with its newline.
unfoldable pub max_line : ℕ
max_line = 1048576

module _ (coder : Coder) where
  -- The loop over the lines.
  unfoldable pub scan : ℕ → Filter → List (List ℕ) → Result ReadError (List FeedbackRecord)
  scan limit f [] = ok []
  scan limit f (line ∷ rest) =
      if leb limit (length line)
      then err too_long
      else and_then (scan limit f rest) (λ records.
        if is_empty line then ok records else elim (coder.decode line) [
          | none ↦ ok records
          | some r ↦ if matches f r then ok (r ∷ records) else ok records
        ])

  -- The last `n` of the records; all of them where `n` is 0.
  unfoldable pub last_of : ℕ → List FeedbackRecord → List FeedbackRecord
  last_of n records =
      if ltb 0 n && ltb n (length records) then drop (length records - n) records else records

  unfoldable pub read : Filter → Opened → Result ReadError (List FeedbackRecord)
  unfolding scan last_of max_line
  read f missing = ok []
  read f (refused e) = err (cannot_open e)
  read f (lines ls) = and_then (scan max_line f ls) (λ records. ok (last_of f.last_n records))

  -- `Append`, with the error of the write, if any.
  unfoldable pub append :
      Option GoError → List (List ℕ) → FeedbackRecord → Result GoError Unit × List (List ℕ)
  append write_error file r = elim (coder.encode r) [
    | err e ↦ (err e, file)
    | ok line ↦ elim write_error [ some e ↦ (err e, file) | none ↦ (ok tt, file ++ (line ∷ [])) ]
  ]

  -- `Handler.ServeHTTP`, at `now`: the status, and the file behind the write that it starts, whose error
  -- is logged.
  unfoldable pub ingest : ℕ → String → List ℕ → Option GoError → List (List ℕ) → ℕ × List (List ℕ)
  unfolding append
  ingest now method body write_error file =
      if not (str_eq method "POST") then (405, file) else elim (coder.decode_first body) [
        | none ↦ (400, file)
        | some r ↦
            if str_eq r.consumer ""
            then (422, file)
            else if not (str_eq r.outcome "success") && not (str_eq r.outcome "failure")
            then (422, file)
            else (let stamped = record r {
              timestamp = if r.timestamp == 0 then now else r.timestamp;
              received_at = now;
            } in
                (202, (append write_error file stamped).1))
      ]

-- The errors of `NewJSONLStore`.
pub data StoreError : Type 0 where
  empty_path : StoreError
  no_directory : GoError → StoreError
  no_file : GoError → StoreError

-- Of the path, with what making its directory and opening it give.
unfoldable pub new_jsonl_store :
    String
    → Result GoError Unit
    → Result GoError (List (List ℕ))
    → Result StoreError (List (List ℕ))
new_jsonl_store path made opened = if str_eq path "" then err empty_path else elim made [
  | err e ↦ err (no_directory e)
  | ok u ↦ elim opened [ err e ↦ err (no_file e) | ok file ↦ ok file ]
]
