-- ===== src/Anthropic/Request/Rounds.antt =====
-- internal/providers/anthropic/transform.go: what a round of the loop over the messages keeps.
use mathlib.Core.Path.{subst, ap₂}
use mathlib.Core.List.{append-nil}
use costguard.Base.{
  ◌≤◌, ◌==◌, length, str_eq, ◌≡◌, refl, sym, ap, ◌∙◌, String, Bool, true, false, not, ◌&&◌, List,
  [], ◌∷◌, ◌++◌, if◌then◌else◌, map, is_empty, arith, Result, ok, and_then, Ensures, Ensures-if,
  Ensures-and_then, Ensures-any,
}
use costguard.Json.{Codec}
use costguard.Anthropic.Types.{
  Message, AnthropicMessage, ContentBlock, text_block, image_block, tool_use, tool_result,
}
use costguard.Anthropic.Images.{TransformError, content_to_text}
use costguard.Anthropic.Request.{
  every_result, all_tool_results, takes_results, user_message, assistant_message, add_result, Draft,
  text_before, call_block, add_assistant, is_blank,
}
use costguard.Anthropic.Request.Results.{
  results_of, results_in, results_in-append, results_in-add_result, all_tool_results-none,
  assistant_no_results, NoResults,
}

-- Next to each other stand no two messages that a tool's result may join.
abbrev pub apart : AnthropicMessage → List AnthropicMessage → Bool
apart m [] = true
apart m (n ∷ ns) = not (takes_results m && takes_results n)

abbrev pub Separate : List AnthropicMessage → Type 0
Separate [] = Unit
Separate (m ∷ ms) = (apart m ms ≡ true) × Separate ms

-- A message of the user that holds tools' results and nothing else: as many as it has blocks.
abbrev pub holds_results_alone : AnthropicMessage → Bool
holds_results_alone m =
    str_eq m.role "user"
    && (not (is_empty m.content) && (length (results_of m.content) == length m.content))

abbrev alone_apart : AnthropicMessage → List AnthropicMessage → Bool
alone_apart m [] = true
alone_apart m (n ∷ ns) = not (holds_results_alone m && holds_results_alone n)

-- No two messages next to each other hold results alone.
abbrev pub ResultsTogether : List AnthropicMessage → Type 0
ResultsTogether [] = Unit
ResultsTogether (m ∷ ms) = (alone_apart m ms ≡ true) × ResultsTogether ms

length-results_of-le : (bs : List ContentBlock) → length (results_of bs) ≤ length bs
length-results_of-le [] = omega arith
length-results_of-le (tool_result id content ∷ bs) = omega (arith, length-results_of-le bs)
length-results_of-le (text_block s ∷ bs) = omega (arith, length-results_of-le bs)
length-results_of-le (image_block i ∷ bs) = omega (arith, length-results_of-le bs)
length-results_of-le (tool_use i n v ∷ bs) = omega (arith, length-results_of-le bs)

every_result-length :
    (bs : List ContentBlock) → every_result bs ≡ (length (results_of bs) == length bs)
every_result-length [] = refl
every_result-length (tool_result id content ∷ bs) = ground (arith, every_result-length bs)
every_result-length (text_block s ∷ bs) = ground (arith, length-results_of-le bs)
every_result-length (image_block i ∷ bs) = ground (arith, length-results_of-le bs)
every_result-length (tool_use i n v ∷ bs) = ground (arith, length-results_of-le bs)

takes_results-holds_results_alone : (m : AnthropicMessage) → takes_results m ≡ holds_results_alone m
unfolding all_tool_results
takes_results-holds_results_alone m = ground (arith, every_result-length m.content)

apart-alone_apart :
    (m : AnthropicMessage) (ms : List AnthropicMessage) → apart m ms ≡ alone_apart m ms
apart-alone_apart m [] = refl
apart-alone_apart m (n ∷ ns) =
    ap₂ (λ a b. not (a && b)) (takes_results-holds_results_alone m)
      (takes_results-holds_results_alone n)

pub Separate-ResultsTogether : (ms : List AnthropicMessage) → Separate ms → ResultsTogether ms
Separate-ResultsTogether [] s = tt
Separate-ResultsTogether (m ∷ ms) (a, s) =
    (sym (apart-alone_apart m ms) ∙ a, Separate-ResultsTogether ms s)

apart-append :
    (m n : AnthropicMessage) (ms : List AnthropicMessage)
    → takes_results n ≡ false
    → apart m ms ≡ true
    → apart m (ms ++ (n ∷ [])) ≡ true
apart-append m n [] h k = ground arith
apart-append m n (o ∷ ms) h k = k

Separate-append :
    (ms : List AnthropicMessage) (n : AnthropicMessage)
    → takes_results n ≡ false
    → Separate ms
    → Separate (ms ++ (n ∷ []))
Separate-append [] n h s = (refl, tt)
Separate-append (m ∷ ms) n h (a, s) = (apart-append m n ms h a, Separate-append ms n h s)

apart-add_result :
    (m n : AnthropicMessage) (ms : List AnthropicMessage) (b : ContentBlock)
    → apart m (n ∷ ms) ≡ true
    → apart m (add_result (n ∷ ms) b) ≡ true
unfolding add_result
apart-add_result m n [] b h = ground arith
apart-add_result m n (o ∷ ms) b h = h

Separate-add_result :
    (ms : List AnthropicMessage) (b : ContentBlock) → Separate ms → Separate (add_result ms b)
unfolding add_result
Separate-add_result [] b s = (refl, tt)
Separate-add_result (m ∷ []) b s = ground arith
Separate-add_result (m ∷ n ∷ ms) b (a, s) =
    (apart-add_result m n ms b a, Separate-add_result (n ∷ ms) b s)

-- What a round of the loop does to the results.
abbrev pub After : Draft → List (String × String) → Draft → Type 0
After d said d' =
    (results_in d'.messages ≡ results_in d.messages ++ said)
    × (Separate d.messages → Separate d'.messages)

pub unchanged : (d d' : Draft) → d'.messages ≡ d.messages → After d [] d'
unchanged d d' e = (ap results_in e ∙ sym (append-nil _), subst Separate (sym e))

pub appended :
    (d : Draft) (m : AnthropicMessage)
    → results_of m.content ≡ []
    → takes_results m ≡ false
    → After d [] (record d { messages = d.messages ++ (m ∷ []) })
appended d m none_in alone = (
  results_in-append d.messages (m ∷ [])
      ∙ ap (λ rs. results_in d.messages ++ rs) (append-nil _ ∙ none_in),
  Separate-append d.messages m alone,
)

pub takes_results-user :
    (bs : List ContentBlock) → NoResults bs → takes_results (user_message bs) ≡ false
takes_results-user bs n = rw (all_tool_results-none bs n) refl

pub added :
    (d : Draft) (id content : String)
    → After d
        ((id, content) ∷ [])
        (record d { messages = add_result d.messages (tool_result id content) })
added d id content = (
  results_in-add_result d.messages id content,
  Separate-add_result d.messages (tool_result id content),
)

pub assistant_After :
    (codec : Codec) (msg : Message) (d : Draft) → Ensures (After d []) (add_assistant codec msg d)
unfolding add_assistant
assistant_After codec msg d =
    Ensures-if (After d []) (not (is_empty msg.tool_calls)) (ok called) quiet
      (appended d calls (assistant_no_results codec (content_to_text msg.content) msg.tool_calls)
        refl)
      (Ensures-and_then (λ t. Unit {0}) (After d []) (content_to_text msg.content) speak
        (Ensures-any (content_to_text msg.content))
        (λ t u.
          Ensures-if (After d []) (is_blank t) (ok d) (ok (spoken t)) (unchanged d d refl)
            (appended d (assistant_message (text_block t ∷ [])) refl refl)))
  where
    calls : AnthropicMessage
    calls =
        assistant_message
          (text_before codec (content_to_text msg.content) ++ map (call_block codec) msg.tool_calls)

    called : Draft
    called = record d { messages = d.messages ++ (calls ∷ []) }

    spoken : String → Draft
    spoken t = record d { messages = d.messages ++ (assistant_message (text_block t ∷ []) ∷ []) }

    speak : String → Result TransformError Draft
    speak t = if is_blank t then ok d else ok (spoken t)

    quiet : Result TransformError Draft
    quiet = and_then (content_to_text msg.content) speak
