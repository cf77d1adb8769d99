-- ===== src/Anthropic/Request/Kept.antt =====
-- internal/providers/anthropic/transform.go: tools' results through the loop over the messages.
use mathlib.Core.List.{append_assoc}
use costguard.Base.{
  ◌≡◌, inl, inr, refl, ap, ◌∙◌, String, true, false, List, [], ◌∷◌, ◌++◌, str_eq, if◌then◌else◌,
  is_empty, eq_iff, Bool-cases, Result, ok, err, and_then, Ensures, ensured, Ensures-if,
  Ensures-and_then, Ensures-any,
}
use costguard.Json.{Codec}
use costguard.Anthropic.Types.{Message, ChatRequest, MessagesRequest, ContentBlock}
use costguard.Anthropic.Images.{TransformError, content_to_text, user_content_to_blocks, no_message}
use costguard.Anthropic.Tools.{map_tool_choice}
use costguard.Anthropic.Request.{
  Draft, add_system, user_message, add_message, add_messages, to_anthropic_request, finish,
}
use costguard.Anthropic.Request.Results.{
  results_in, kept_text, text_or_empty-kept_text, result_of, tool_messages, NoResults,
  user-NoResults,
}
use costguard.Anthropic.Request.Rounds.{
  Separate, ResultsTogether, Separate-ResultsTogether, After, unchanged, appended, added,
  takes_results-user, assistant_After,
}

-- A text is no other than the one it equals.
str_eq-other : (s a b : String) → str_eq s a ≡ true → str_eq a b ≡ false → str_eq s b ≡ false
str_eq-other s a b h n = rw ((eq_iff s a).0 h) n

abbrev said : Message → List (String × String)
said msg = if str_eq msg.role "tool" then result_of msg ∷ [] else []

no_tool : (msg : Message) → str_eq msg.role "tool" ≡ false → said msg ≡ []
no_tool msg n = rw n refl

add_message-After :
    (codec : Codec) (msg : Message) (d : Draft)
    → Ensures (After d (said msg)) (add_message codec msg d)
unfolding add_message
add_message-After codec msg d = elim (Bool-cases (str_eq msg.role "tool")) [
  | inl tool ↦
      rw
        (
          tool,
          str_eq-other msg.role "tool" "system" tool refl,
          str_eq-other msg.role "tool" "assistant" tool refl,
          str_eq-other msg.role "tool" "user" tool refl,
          text_or_empty-kept_text msg.content,
        )
        (added d msg.tool_call_id (kept_text msg.content))
  | inr other ↦ rw other (
      Ensures-if (After d []) (str_eq msg.role "system") system _
        (Ensures-and_then (λ t. Unit {0}) (After d []) (content_to_text msg.content) with_text
          (Ensures-any (content_to_text msg.content))
          (λ t u. unchanged d (record d { system = add_system d.system t }) refl))
        (Ensures-if (After d []) (str_eq msg.role "assistant") _ _ (assistant_After codec msg d) (
          Ensures-if (After d []) (str_eq msg.role "user") user _
            (Ensures-and_then NoResults (After d []) (user_content_to_blocks msg.content)
              with_blocks (user-NoResults msg.content)
              (λ bs n. appended d (user_message bs) n (takes_results-user bs n)))
            tt)))
]
  where
    with_text : String → Result TransformError Draft
    with_text t = ok (record d { system = add_system d.system t })

    system : Result TransformError Draft
    system = and_then (content_to_text msg.content) with_text

    with_blocks : List ContentBlock → Result TransformError Draft
    with_blocks bs = ok (record d { messages = d.messages ++ (user_message bs ∷ []) })

    user : Result TransformError Draft
    user = and_then (user_content_to_blocks msg.content) with_blocks

After-trans :
    (d e g : Draft) (rs ss : List (String × String))
    → After d rs e
    → After e ss g
    → After d (rs ++ ss) g
After-trans d e g rs ss (kept, sep) (kept', sep') = (
  kept' ∙ ap (λ ts. ts ++ ss) kept ∙ append_assoc (results_in d.messages) rs ss,
  λ s. sep' (sep s),
)

add_messages-After :
    (codec : Codec) (msgs : List Message) (d : Draft)
    → Ensures (After d (tool_messages msgs)) (add_messages codec msgs d)
unfolding add_messages
add_messages-After codec [] d = unchanged d d refl
add_messages-After codec (msg ∷ msgs) d =
    Ensures-and_then (After d (said msg)) (After d (tool_messages (msg ∷ msgs)))
      (add_message codec msg d) (add_messages codec msgs) (add_message-After codec msg d)
      (λ e h. continue e h (add_messages codec msgs e) (add_messages-After codec msgs e))
  where
    continue :
        (e : Draft)
        → After d (said msg) e
        → (r : Result TransformError Draft) → Ensures (After e (tool_messages msgs)) r
        → Ensures (After d (tool_messages (msg ∷ msgs))) r
    continue e h (ok g) k = After-trans d e g (said msg) (tool_messages msgs) h k
    continue e h (err x) k = tt

abbrev empty_draft : Draft
empty_draft = record { system = ""; messages = [] }

module _ {F : Type 0} (codec : Codec) (r : ChatRequest F) where
  abbrev pub Kept : MessagesRequest F → Type 0
  Kept out = (results_in out.messages ≡ tool_messages r.messages) × Separate out.messages

  from_draft :
      (d : Draft)
      → After empty_draft (tool_messages r.messages) d
      → Ensures Kept (
          if is_empty d.messages
          then err no_message
          else and_then (map_tool_choice r.tool_choice) (λ c. ok (finish codec r d c)))
  from_draft d (kept, sep) = Ensures-if Kept (is_empty d.messages) (err no_message) _ tt (
      Ensures-and_then (λ c. Unit {0}) Kept (map_tool_choice r.tool_choice)
        (λ c. ok (finish codec r d c)) (Ensures-any (map_tool_choice r.tool_choice))
        (λ c u. (kept, sep tt)))

  request_Kept : Ensures Kept (to_anthropic_request codec r)
  unfolding to_anthropic_request
  request_Kept = Ensures-if Kept (str_eq r.model "") _ _ tt (
      Ensures-if Kept (is_empty r.messages) _ _ tt (
        Ensures-and_then (After empty_draft (tool_messages r.messages)) Kept
          (add_messages codec r.messages empty_draft) _
          (add_messages-After codec r.messages empty_draft) from_draft))

-- A request that is accepted has a result for every tool message of the client, in their order and no
-- other, with its call, and with its text where its content is a string: where it is anything else, an
-- array of text parts among them, the result's text is empty. No two messages next to each other hold
-- results alone, as Anthropic demands of the answers to parallel calls.
pub tool_results_kept :
    {F : Type 0} (codec : Codec) (r : ChatRequest F) (out : MessagesRequest F)
    → to_anthropic_request codec r ≡ ok out
    → (results_in out.messages ≡ tool_messages r.messages) × ResultsTogether out.messages
tool_results_kept codec r out h =
    let (kept, apart) =
      ensured (Kept codec r) (to_anthropic_request codec r) (request_Kept codec r) h in
    (kept, Separate-ResultsTogether out.messages apart)
