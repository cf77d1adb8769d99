-- ===== src/Gemini/Parts.antt =====
-- internal/providers/gemini/transform.go: the parts of user messages, and the texts of the others.
use costguard.Base.{
  ℕ, String, Bool, not, ◌&&◌, List, [], ◌∷◌, ◌++◌, Option, none, some, str_eq, if◌then◌else◌, any,
  has_prefix, is_blank, Result, ok, err, and_then,
}
use costguard.Json.{Value, null, text, array, object, Items, nil, item, text_at, field_of}
use costguard.Content.{ContentPart, ContentError, parse_content_parts}
use costguard.Anthropic.Images.{drop_prefix, cut, join_lines}
use costguard.Gemini.Types.{Part, words_part, inline_data}

-- What the adapter refuses a request with.
pub data GeminiError : Type 0 where
  model_required messages_required no_content : GeminiError
  missing_semicolon missing_comma not_a_url no_fetcher : GeminiError
  bad_encoding bad_media_type bad_role bad_choice : String → GeminiError
  fetch_failed : String → String → GeminiError
  bad_stop bad_content_format missing_name bad_choice_format : GeminiError
  bad_parts : ContentError → GeminiError

abbrev pub supported_mime_types : List String
supported_mime_types =
    "image/jpeg" ∷ "image/png" ∷ "image/gif" ∷ "image/webp" ∷ "image/heic" ∷ "image/heif" ∷ []

abbrev pub is_supported : String → Bool
is_supported t = any (λ m. str_eq t m) supported_mime_types

-- `imageFetcher`, which may be nil: the error's text, or the bytes and their type; and
-- `base64.StdEncoding.EncodeToString`.
pub record Fetcher : Type 0 where
  pub fetch : Option (String → Result String (List ℕ × String))
  pub encode_base64 : List ℕ → String

abbrev pub inline_part : String → String → Part
inline_part mime_type payload = inline_data (record { mime_type = mime_type; payload = payload })

-- The part of a data URI behind its media type.
unfoldable pub data_uri_part : String → String → Result GeminiError Part
data_uri_part mime_type rest = elim (cut b',' rest) [
  | none ↦ err missing_comma
  | some (encoding, payload) ↦
      if not (str_eq encoding "base64")
      then err (bad_encoding encoding)
      else if not (is_supported mime_type)
      then err (bad_media_type mime_type)
      else ok (inline_part mime_type payload)
]

unfoldable pub fetched_part : Fetcher → String → Result GeminiError Part
fetched_part f raw_url = elim f.fetch [
  | none ↦ err no_fetcher
  | some fetch ↦ elim (fetch raw_url) [
    | err e ↦ err (fetch_failed raw_url e)
    | ok (bytes, mime_type) ↦
        if not (is_supported mime_type)
        then err (bad_media_type mime_type)
        else ok (inline_part mime_type (f.encode_base64 bytes))
  ]
]

unfoldable pub image_url_to_gemini_part : Fetcher → String → Result GeminiError Part
unfolding data_uri_part fetched_part
image_url_to_gemini_part f raw_url =
    if has_prefix "data:" raw_url
    then elim (cut b';' (drop_prefix "data:" raw_url)) [
      | none ↦ err missing_semicolon
      | some (mime_type, rest) ↦ data_uri_part mime_type rest
    ]
    else if not (has_prefix "http://" raw_url) && not (has_prefix "https://" raw_url)
    then err not_a_url
    else fetched_part f raw_url

-- One round of the loop of `userContentToGeminiParts`; the image of an `image_url` part is there.
unfoldable pub gemini_part : Fetcher → ContentPart → Result GeminiError (List Part)
unfolding image_url_to_gemini_part
gemini_part f p =
    if str_eq p.kind "text"
    then (if is_blank p.content then ok [] else ok (words_part p.content ∷ []))
    else if str_eq p.kind "image_url"
    then elim p.image_url [
      | none ↦ ok []
      | some image ↦ and_then (image_url_to_gemini_part f image.url) (λ gp. ok (gp ∷ []))
    ]
    else ok []

unfoldable pub gemini_parts : Fetcher → List ContentPart → Result GeminiError (List Part)
unfolding gemini_part
gemini_parts f [] = ok []
gemini_parts f (p ∷ ps) =
    and_then (gemini_part f p) (λ gs. and_then (gemini_parts f ps) (λ hs. ok (gs ++ hs)))

unfoldable pub user_content_to_gemini_parts : Fetcher → Value → Result GeminiError (List Part)
unfolding gemini_parts
user_content_to_gemini_parts f v = elim (parse_content_parts v) [
  | err e ↦ err (bad_parts e)
  | ok ps ↦ gemini_parts f ps
]

-- The texts among the blocks; what is no text block is skipped.
abbrev pub text_blocks : Items → List String
text_blocks nil = []
text_blocks (item (object m) vs) =
    let rest = text_blocks vs in
    if str_eq (text_at "type" m) "text"
    then elim (field_of "text" m) [ some (text s) ↦ s ∷ rest | _ ↦ rest ]
    else rest
text_blocks (item _ vs) = text_blocks vs

unfoldable pub content_to_text : Value → Result GeminiError String
content_to_text (text s) = ok s
content_to_text (array vs) = ok (join_lines (text_blocks vs))
content_to_text null = ok ""
content_to_text _ = err bad_content_format
