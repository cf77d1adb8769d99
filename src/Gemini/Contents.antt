-- ===== src/Gemini/Contents.antt =====
-- internal/providers/gemini/transform.go: what the contents of an accepted request are.
use mathlib.Core.Path.{subst}
use costguard.Base.{
  ◌≡◌, ◌≢◌, ◌⊎◌, inl, inr, refl, sym, String, true, false, ◌&&◌, List, [], ◌∷◌, ◌++◌, str_eq,
  if◌then◌else◌, is_empty, is_blank, arith, Bool-cases, Option-cases, ok, Ensures, ensured,
  Ensures-if, Result-cases, Ensures-and_then, Ensures-any, All, All-append, map, Dict, has_prefix,
}
use costguard.Json.{Value, array, Items, Codec}
use costguard.Content.{ContentPart, parse_content_parts}
use costguard.Anthropic.Types.{Message, ChatRequest, ToolCall}
use costguard.Anthropic.Images.{cut, drop_prefix}
use costguard.Gemini.Types.{
  Part, words_part, inline_data, function_call, function_response, GeminiContent, GenerateRequest,
}
use costguard.Gemini.Parts.{
  is_supported, Fetcher, fetched_part, image_url_to_gemini_part, gemini_part, gemini_parts,
  user_content_to_gemini_parts, content_to_text,
}
use costguard.Gemini.Request.{
  Progress, add_content, content_of, add_response, all_function_responses, add_assistant, add_user,
  add_message, add_messages, call_part, text_before, tool_call_names, stop_config, map_tool_choice,
  request_of, to_gemini_request,
}

-- A text is not blank, an image is of a supported type.
abbrev pub IsGood : Part → Type 0
IsGood (words_part t) = is_blank t ≡ false
IsGood (inline_data d) = is_supported d.mime_type ≡ true
IsGood (function_call name args) = Unit
IsGood (function_response name response) = Unit

-- A content is the user's or the model's, and has parts, all of them good.
abbrev pub IsContent : GeminiContent → Type 0
IsContent c =
    ((c.role ≡ "user") ⊎ (c.role ≡ "model")) × (is_empty c.parts ≡ false) × All IsGood c.parts

fetched_part-IsGood : (f : Fetcher) (u : String) → Ensures IsGood (fetched_part f u)
unfolding fetched_part
fetched_part-IsGood f u = elim (Option-cases f.fetch) [
  | inl e ↦ ground arith
  | inr (fetch, e) ↦ elim (Result-cases (fetch u)) [
    | inl (x, q) ↦ ground arith
    | inr ((bytes, mime_type), q) ↦ ground arith
  ]
]

image-IsGood : (f : Fetcher) (u : String) → Ensures IsGood (image_url_to_gemini_part f u)
unfolding image_url_to_gemini_part
image-IsGood f u = elim (Bool-cases (has_prefix "data:" u)) [
  | inl e ↦ elim (Option-cases (cut b';' (drop_prefix "data:" u))) [
    | inl q ↦ ground arith
    | inr ((mime_type, rest), q) ↦ elim (Option-cases (cut b',' rest)) [
      | inl c ↦ ground arith
      | inr ((encoding, payload), c) ↦ ground arith
    ]
  ]
  | inr e ↦ ground (arith, fetched_part-IsGood f u)
]

gemini_part-IsGood : (f : Fetcher) (p : ContentPart) → Ensures (All IsGood) (gemini_part f p)
unfolding gemini_part
gemini_part-IsGood f p = elim (Option-cases p.image_url) [
  | inl e ↦ ground arith
  | inr (image, e) ↦ elim (Result-cases (image_url_to_gemini_part f image.url)) [
    | inl (x, q) ↦ ground arith
    | inr (gp, q) ↦
        let good =
          ensured IsGood (image_url_to_gemini_part f image.url) (image-IsGood f image.url) q in
        ground arith
  ]
]

gemini_parts-IsGood :
    (f : Fetcher) (ps : List ContentPart) → Ensures (All IsGood) (gemini_parts f ps)
unfolding gemini_parts
gemini_parts-IsGood f [] = tt
gemini_parts-IsGood f (p ∷ ps) =
    Ensures-and_then (All IsGood) (All IsGood) (gemini_part f p) _ (gemini_part-IsGood f p) (λ gs h.
      Ensures-and_then (All IsGood) (All IsGood) (gemini_parts f ps) (λ hs. ok (gs ++ hs))
        (gemini_parts-IsGood f ps) (λ hs k. All-append IsGood gs hs h k))

user_content-IsGood :
    (f : Fetcher) (v : Value) → Ensures (All IsGood) (user_content_to_gemini_parts f v)
unfolding user_content_to_gemini_parts
user_content-IsGood f v = elim (Result-cases (parse_content_parts v)) [
  | inl (e, q) ↦ rw (q, user_content_to_gemini_parts) tt
  | inr (ps, q) ↦ rw (q, user_content_to_gemini_parts) (gemini_parts-IsGood f ps)
]

add_content-IsContent :
    (c : GeminiContent) (p : Progress)
    → IsContent c
    → All IsContent p.contents
    → All IsContent (add_content c p).contents
add_content-IsContent c p h w = All-append IsContent p.contents (c ∷ []) w (h, tt)

is_empty-append_one : (ps : List Part) (p : Part) → is_empty (ps ++ (p ∷ [])) ≡ false
is_empty-append_one [] p = refl
is_empty-append_one (q ∷ ps) p = refl

add_response-IsContent :
    (cs : List GeminiContent) (name : String) (response : Value)
    → All IsContent cs
    → All IsContent (add_response cs (function_response name response))
unfolding add_response
add_response-IsContent [] name response w = ((inl refl, refl, (tt, tt)), tt)
add_response-IsContent (c ∷ []) name response w =
    let more = All-append IsGood c.parts (function_response name response ∷ []) w.0.2 (tt, tt) in
    elim (Bool-cases (str_eq c.role "user" && all_function_responses c.parts)) [
      | inl e ↦
          rw e ((w.0.0, is_empty-append_one c.parts (function_response name response), more), tt)
      | inr e ↦ rw e (w.0, ((inl refl, refl, (tt, tt)), tt))
    ]
add_response-IsContent (c ∷ d ∷ cs) name response w =
    (w.0, add_response-IsContent (d ∷ cs) name response w.1)

module _ (codec : Codec) (fetcher : Fetcher) where
  call_parts-IsGood : (tcs : List ToolCall) → All IsGood (map (call_part codec fetcher) tcs)
  call_parts-IsGood [] = tt
  call_parts-IsGood (tc ∷ tcs) = (tt, call_parts-IsGood tcs)

  text_before-IsGood : (v : Value) → All IsGood (text_before codec fetcher v)
  text_before-IsGood v = elim (Result-cases (content_to_text v)) [
    | inl (e, q) ↦ ground arith
    | inr (t, q) ↦ ground arith
  ]

  is_empty-calls :
      (ps : List Part) (tcs : List ToolCall)
      → is_empty tcs ≡ false
      → is_empty (ps ++ map (call_part codec fetcher) tcs) ≡ false
  is_empty-calls [] [] h = h
  is_empty-calls [] (tc ∷ tcs) h = refl
  is_empty-calls (p ∷ ps) tcs h = refl

  abbrev Good : Progress → Type 0
  Good p = All IsContent p.contents

  add_assistant-Good :
      (msg : Message) (p : Progress) → Good p → Ensures Good (add_assistant codec fetcher msg p)
  unfolding add_assistant
  add_assistant-Good msg p w =
      let parts =
        text_before codec fetcher msg.content ++ map (call_part codec fetcher) msg.tool_calls in
      elim (Bool-cases (is_empty msg.tool_calls)) [
        | inr e ↦
            rw (e, add_assistant)
              (add_content-IsContent (content_of "model" parts) p
                (
                  inr refl,
                  is_empty-calls (text_before codec fetcher msg.content) msg.tool_calls e,
                  All-append IsGood (text_before codec fetcher msg.content)
                      (map (call_part codec fetcher) msg.tool_calls)
                      (text_before-IsGood msg.content) (call_parts-IsGood msg.tool_calls),
                )
                w)
        | inl e ↦ elim (Result-cases (content_to_text msg.content)) [
          | inl (x, q) ↦ rw (e, add_assistant, q) tt
          | inr (t, q) ↦ elim (Bool-cases (is_blank t)) [
            | inl b ↦ rw (e, add_assistant, q, b) w
            | inr b ↦
                rw (e, add_assistant, q, b)
                  (add_content-IsContent (content_of "model" (words_part t ∷ [])) p
                    (inr refl, refl, (b, tt)) w)
          ]
        ]
      ]

  add_user-Good :
      (msg : Message) (p : Progress) → Good p → Ensures Good (add_user codec fetcher msg p)
  unfolding add_user
  add_user-Good msg p w =
      Ensures-and_then (All IsGood) Good (user_content_to_gemini_parts fetcher msg.content)
        (λ parts. if is_empty parts then ok p else ok (add_content (content_of "user" parts) p))
        (user_content-IsGood fetcher msg.content)
        (λ parts h. elim (Bool-cases (is_empty parts)) [
          | inl e ↦ rw e w
          | inr e ↦ rw e (add_content-IsContent (content_of "user" parts) p (inl refl, e, h) w)
        ])

  add_message-Good :
      (names : Dict String) (msg : Message) (p : Progress)
      → Good p
      → Ensures Good (add_message codec fetcher names msg p)
  unfolding add_message
  add_message-Good names msg p w =
      Ensures-if Good (str_eq msg.role "system") _ _
        (Ensures-and_then (λ t. Unit {0}) Good (content_to_text msg.content)
          (λ t.
            if is_blank t
            then ok p
            else ok (record p { system_texts = p.system_texts ++ (t ∷ []) }))
          (Ensures-any (content_to_text msg.content))
          (λ t u.
            Ensures-if Good (is_blank t) (ok p)
              (ok (record p { system_texts = p.system_texts ++ (t ∷ []) })) w w))
        (Ensures-if Good (str_eq msg.role "user") _ _ (add_user-Good msg p w) (
          Ensures-if Good (str_eq msg.role "assistant") _ _ (add_assistant-Good msg p w) (
            Ensures-if Good (str_eq msg.role "tool") _ _ (add_response-IsContent p.contents _ _ w)
              tt)))

  add_messages-Good :
      (names : Dict String) (msgs : List Message) (p : Progress)
      → Good p
      → Ensures Good (add_messages codec fetcher names msgs p)
  unfolding add_messages
  add_messages-Good names [] p w = w
  add_messages-Good names (msg ∷ msgs) p w =
      Ensures-and_then Good Good (add_message codec fetcher names msg p)
        (add_messages codec fetcher names msgs) (add_message-Good names msg p w)
        (λ q h. add_messages-Good names msgs q h)

  module _ {F : Type 0} (r : ChatRequest F) where
    abbrev Fine : GenerateRequest F → Type 0
    Fine out = (is_empty out.contents ≡ false) × All IsContent out.contents

    request_Fine : Ensures Fine (to_gemini_request codec fetcher r)
    unfolding to_gemini_request request_of
    request_Fine = Ensures-if Fine (str_eq r.model "") _ _ tt (
        Ensures-if Fine (is_empty r.messages) _ _ tt (
          Ensures-and_then Good Fine
            (add_messages codec fetcher (tool_call_names r.messages []) r.messages
              (record { system_texts = []; contents = [] }))
            _
            (add_messages-Good (tool_call_names r.messages []) r.messages
              (record { system_texts = []; contents = [] }) tt)
            (λ p h. elim (Bool-cases (is_empty p.contents)) [
              | inl e ↦ rw e tt
              | inr e ↦ rw e (
                  Ensures-and_then (λ t. Unit {0}) Fine (stop_config r.stop) _
                    (Ensures-any (stop_config r.stop))
                    (λ stops u.
                      Ensures-and_then (λ t. Unit {0}) Fine (map_tool_choice r.tool_choice)
                        (λ choice. ok (request_of codec fetcher r p stops choice))
                        (Ensures-any (map_tool_choice r.tool_choice)) (λ choice v. (e, h))))
            ])))

    -- An accepted request has contents, each the user's or the model's, and each has parts, of which
    -- no text is blank and every image is of a media type that Gemini takes.
    pub to_gemini_request-IsContent :
        (out : GenerateRequest F)
        → to_gemini_request codec fetcher r ≡ ok out
        → (is_empty out.contents ≡ false) × All IsContent out.contents
    to_gemini_request-IsContent out h =
        ensured Fine (to_gemini_request codec fetcher r) request_Fine h

    array_stop_Refused :
        (vs : Items)
        → r.stop ≡ array vs
        → Ensures (λ (out : GenerateRequest F). ⊥) (to_gemini_request codec fetcher r)
    unfolding to_gemini_request stop_config
    array_stop_Refused vs e =
        let Never = λ (out : GenerateRequest F). ⊥ in
        Ensures-if Never (str_eq r.model "") _ _ tt (
          Ensures-if Never (is_empty r.messages) _ _ tt (
            Ensures-and_then (λ p. Unit {0}) Never
              (add_messages codec fetcher (tool_call_names r.messages []) r.messages
                (record { system_texts = []; contents = [] }))
              _
              (Ensures-any (
                add_messages codec fetcher (tool_call_names r.messages []) r.messages
                  (record { system_texts = []; contents = [] })))
              (λ p u. Ensures-if Never (is_empty p.contents) _ _ tt (
                Ensures-and_then (λ t. ⊥) Never (stop_config r.stop) _
                  (subst (λ v. Ensures (λ t. ⊥) (stop_config v)) (sym e) tt) (λ t b. elim b [ ])))))

    -- A request whose stop sequences are an array, as OpenAI's format allows, is never accepted.
    pub array_stop_refused :
        (vs : Items) (out : GenerateRequest F)
        → r.stop ≡ array vs
        → to_gemini_request codec fetcher r ≢ ok out
    array_stop_refused vs out e h =
        ensured (λ o. ⊥) (to_gemini_request codec fetcher r) (array_stop_Refused vs e) h
