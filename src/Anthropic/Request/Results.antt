-- ===== src/Anthropic/Request/Results.antt =====
-- internal/providers/anthropic/transform.go: the results of tools in a request.
use mathlib.Core.Path.{ap₂}
use mathlib.Core.List.{append_assoc, append-nil}
use costguard.Base.{
  ◌≡◌, inl, inr, refl, sym, ap, ◌∙◌, String, false, List, [], ◌∷◌, ◌++◌, some, str_eq,
  if◌then◌else◌, map, arith, Bool-cases, Option-cases, Result, ok, err, and_then, Ensures,
  Ensures-and_then,
}
use costguard.Json.{Value, null, boolean, number, text, array, object, Codec, text_or_empty}
use costguard.Content.{ContentPart, ContentError, parse_content_parts}
use costguard.Anthropic.Types.{
  Message, ToolCall, AnthropicMessage, ContentBlock, text_block, image_block, tool_use, tool_result,
}
use costguard.Anthropic.Images.{
  TransformError, cut, drop_prefix, data_uri_block, image_url_to_anthropic_block, part_block,
  part_blocks, user_content_to_blocks,
}
use costguard.Anthropic.Request.{
  all_tool_results, takes_results, add_result, text_before, call_block,
}

-- The results among blocks and messages, by the call that each answers.
abbrev pub results_of : List ContentBlock → List (String × String)
results_of [] = []
results_of (tool_result id content ∷ bs) = (id, content) ∷ results_of bs
results_of (text_block s ∷ bs) = results_of bs
results_of (image_block i ∷ bs) = results_of bs
results_of (tool_use i n v ∷ bs) = results_of bs

abbrev pub results_in : List AnthropicMessage → List (String × String)
results_in [] = []
results_in (m ∷ ms) = results_of m.content ++ results_in ms

-- What is kept of a tool message's content: a string, and of anything else nothing, so that the text of
-- an array of text parts is lost.
abbrev pub kept_text : Value → String
kept_text (text s) = s
kept_text null = ""
kept_text (boolean b) = ""
kept_text (number n) = ""
kept_text (array vs) = ""
kept_text (object fs) = ""

pub text_or_empty-kept_text : (v : Value) → text_or_empty (some v) ≡ kept_text v
text_or_empty-kept_text (text s) = refl
text_or_empty-kept_text null = refl
text_or_empty-kept_text (boolean b) = refl
text_or_empty-kept_text (number n) = refl
text_or_empty-kept_text (array vs) = refl
text_or_empty-kept_text (object fs) = refl

-- The result that a tool message of the client becomes: its call, and what is kept of its content.
abbrev pub result_of : Message → String × String
result_of msg = (msg.tool_call_id, kept_text msg.content)

abbrev pub tool_messages : List Message → List (String × String)
tool_messages [] = []
tool_messages (msg ∷ msgs) =
    (if str_eq msg.role "tool" then result_of msg ∷ [] else []) ++ tool_messages msgs

results_of-append :
    (bs cs : List ContentBlock) → results_of (bs ++ cs) ≡ results_of bs ++ results_of cs
results_of-append [] cs = refl
results_of-append (tool_result id content ∷ bs) cs =
    ap (λ rs. (id, content) ∷ rs) (results_of-append bs cs)
results_of-append (text_block s ∷ bs) cs = results_of-append bs cs
results_of-append (image_block i ∷ bs) cs = results_of-append bs cs
results_of-append (tool_use i n v ∷ bs) cs = results_of-append bs cs

pub results_in-append :
    (ms ns : List AnthropicMessage) → results_in (ms ++ ns) ≡ results_in ms ++ results_in ns
results_in-append [] ns = refl
results_in-append (m ∷ ms) ns =
    rw (results_in-append ms ns)
      (sym (append_assoc (results_of m.content) (results_in ms) (results_in ns)))

pub results_in-add_result :
    (ms : List AnthropicMessage) (id content : String)
    → results_in (add_result ms (tool_result id content)) ≡ results_in ms ++ ((id, content) ∷ [])
unfolding add_result
results_in-add_result [] id content = refl
results_in-add_result (m ∷ []) id content = elim (Bool-cases (takes_results m)) [
  | inl joins ↦ rw joins (simp (results_of-append, append-nil))
  | inr alone ↦ rw alone (simp (append-nil))
]
results_in-add_result (m ∷ n ∷ ms) id content =
    rw (results_in-add_result (n ∷ ms) id content)
      (sym (append_assoc (results_of m.content) (results_in (n ∷ ms)) ((id, content) ∷ [])))

-- What holds no result takes none.
pub all_tool_results-none :
    (bs : List ContentBlock) → results_of bs ≡ [] → all_tool_results bs ≡ false
unfolding all_tool_results
all_tool_results-none [] h = refl
all_tool_results-none (tool_result id content ∷ bs) h = cc
all_tool_results-none (text_block s ∷ bs) h = refl
all_tool_results-none (image_block i ∷ bs) h = refl
all_tool_results-none (tool_use i n v ∷ bs) h = refl

calls_no_results :
    (codec : Codec) (tcs : List ToolCall) → results_of (map (call_block codec) tcs) ≡ []
calls_no_results codec [] = refl
calls_no_results codec (tc ∷ tcs) = calls_no_results codec tcs

pub assistant_no_results :
    (codec : Codec) (r : Result TransformError String) (tcs : List ToolCall)
    → results_of (text_before codec r ++ map (call_block codec) tcs) ≡ []
assistant_no_results codec (err e) tcs = calls_no_results codec tcs
assistant_no_results codec (ok t) tcs = elim (Bool-cases (str_eq t "")) [
  | inl e ↦ rw e (calls_no_results codec tcs)
  | inr e ↦ rw e (calls_no_results codec tcs)
]

abbrev pub NoResults : List ContentBlock → Type 0
NoResults bs = results_of bs ≡ []

-- An image is never a result.
abbrev IsNoResult : ContentBlock → Type 0
IsNoResult b = NoResults (b ∷ [])

data_uri-IsNoResult :
    (media_type rest : String) → Ensures IsNoResult (data_uri_block media_type rest)
unfolding data_uri_block
data_uri-IsNoResult media_type rest = elim (Option-cases (cut b',' rest)) [
  | inl e ↦ ground arith
  | inr (parts, e) ↦ ground arith
]

image-IsNoResult : (url : String) → Ensures IsNoResult (image_url_to_anthropic_block url)
unfolding image_url_to_anthropic_block
image-IsNoResult url = elim (Option-cases (cut b';' (drop_prefix "data:" url))) [
  | inl e ↦ ground arith
  | inr (parts, e) ↦ ground (arith, data_uri-IsNoResult parts.0 parts.1)
]

part-NoResults : (p : ContentPart) → Ensures NoResults (part_block p)
unfolding part_block
part-NoResults p = elim (Option-cases p.image_url) [
  | inl e ↦ ground arith
  | inr (image, e) ↦ ground (
    arith,
    Ensures-and_then IsNoResult NoResults (image_url_to_anthropic_block image.url)
        (λ (b : ContentBlock). ok (b ∷ [])) (image-IsNoResult image.url)
        (λ (b : ContentBlock) (n : IsNoResult b). n),
  )
]

parts-NoResults : (ps : List ContentPart) → Ensures NoResults (part_blocks ps)
unfolding part_blocks
parts-NoResults [] = refl
parts-NoResults (p ∷ ps) =
    Ensures-and_then NoResults NoResults (part_block p)
      (λ bs. and_then (part_blocks ps) (λ cs. ok (bs ++ cs))) (part-NoResults p)
      (λ bs n.
        Ensures-and_then NoResults NoResults (part_blocks ps) (λ cs. ok (bs ++ cs))
          (parts-NoResults ps) (λ cs m. results_of-append bs cs ∙ ap₂ (λ a b. a ++ b) n m))

pub user-NoResults : (v : Value) → Ensures NoResults (user_content_to_blocks v)
unfolding user_content_to_blocks
user-NoResults v = by_parts (parse_content_parts v) refl
  where
    by_parts :
        (r : Result ContentError (List ContentPart))
        → parse_content_parts v ≡ r
        → Ensures NoResults (user_content_to_blocks v)
    by_parts (err e) h = rw (h, user_content_to_blocks) tt
    by_parts (ok []) h = rw (h, user_content_to_blocks) refl
    by_parts (ok (p ∷ ps)) h = rw (h, user_content_to_blocks) (parts-NoResults (p ∷ ps))
