-- ===== src/Anthropic/Images.antt =====
-- internal/providers/anthropic/transform.go: images of user messages, and the texts of the others.
pub mod DataUri
use Prim.Native.Char.{code}
use Prim.Native.String.{[], ◌∷◌, ◌++◌}
use mathlib.Core.List
use costguard.Base.{
  ℕ, String, Bool, true, false, not, ◌&&◌, ◌||◌, List, Option, none, some, str_eq, if◌then◌else◌,
  ◌==◌, Result, ok, err, and_then, has_prefix,
}
use costguard.Json.{Value, null, text, array, object, Items, nil, item, text_at}
use costguard.Content.{ContentPart, ContentError, parse_content_parts}
use costguard.Vision.{ImageUrl}
use costguard.Anthropic.Types.{ContentBlock, text_block, image_block, ImageSource}

-- What the adapter refuses a request with.
pub data TransformError : Type 0 where
  model_required messages_required no_message : TransformError
  missing_semicolon missing_comma not_a_url : TransformError
  unsupported_encoding unsupported_media_type unsupported_role : String → TransformError
  unsupported_block only_text unsupported_content : TransformError
  unsupported_choice : String → TransformError
  missing_function_name unsupported_choice_format : TransformError
  bad_content : ContentError → TransformError

-- `strings.TrimPrefix(s, p)`, of a text that begins with `p`.
abbrev pub drop_prefix : String → String → String
drop_prefix [] s = s
drop_prefix (c ∷ p) [] = []
drop_prefix (c ∷ p) (d ∷ s) = drop_prefix p s

-- `strings.IndexByte(s, b)` for an ASCII `b`, with the texts in front of it and behind it.
abbrev pub cut : ℕ → String → Option (String × String)
cut b [] = none
cut b (c ∷ s) =
    let rest = cut b s in
    if code c == b
    then some ([], s)
    else elim rest [ none ↦ none | some (before, after) ↦ some (c ∷ before, after) ]

abbrev pub supported_media_type : String → Bool
supported_media_type t =
    str_eq t "image/jpeg"
    || (str_eq t "image/png" || (str_eq t "image/gif" || str_eq t "image/webp"))

abbrev pub base64_source : String → String → ContentBlock
base64_source media_type payload =
    image_block (record { kind = "base64"; media_type = media_type; payload = payload; url = "" })

-- The part of a data URI behind its media type.
unfoldable pub data_uri_block : String → String → Result TransformError ContentBlock
data_uri_block media_type rest = elim (cut b',' rest) [
  | none ↦ err missing_comma
  | some (encoding, payload) ↦
      if not (str_eq encoding "base64")
      then err (unsupported_encoding encoding)
      else if not (supported_media_type media_type)
      then err (unsupported_media_type media_type)
      else ok (base64_source media_type payload)
]

unfoldable pub image_url_to_anthropic_block : String → Result TransformError ContentBlock
unfolding data_uri_block
image_url_to_anthropic_block raw_url =
    if has_prefix "data:" raw_url
    then elim (cut b';' (drop_prefix "data:" raw_url)) [
      | none ↦ err missing_semicolon
      | some (media_type, rest) ↦ data_uri_block media_type rest
    ]
    else if not (has_prefix "http://" raw_url) && not (has_prefix "https://" raw_url)
    then err not_a_url
    else ok (image_block (record { kind = "url"; media_type = ""; payload = ""; url = raw_url }))

-- A part of another kind gives no block; `p.ImageURL` is not nil where the kind is `image_url`.
unfoldable pub part_block : ContentPart → Result TransformError (List ContentBlock)
unfolding image_url_to_anthropic_block
part_block p =
    if str_eq p.kind "text"
    then ok (List.◌∷◌ (text_block p.content) List.[])
    else if str_eq p.kind "image_url"
    then elim p.image_url [
      | none ↦ ok List.[]
      | some image ↦
          and_then (image_url_to_anthropic_block image.url) (λ b. ok (List.◌∷◌ b List.[]))
    ]
    else ok List.[]

unfoldable pub part_blocks : List ContentPart → Result TransformError (List ContentBlock)
unfolding part_block
part_blocks List.[] = ok List.[]
part_blocks (List.◌∷◌ p ps) =
    and_then (part_block p) (λ bs. and_then (part_blocks ps) (λ cs. ok (List.◌++◌ bs cs)))

unfoldable pub user_content_to_blocks : Value → Result TransformError (List ContentBlock)
unfolding part_blocks
user_content_to_blocks v = elim (parse_content_parts v) [
  | err e ↦ err (bad_content e)
  | ok List.[] ↦ ok (List.◌∷◌ (text_block "") List.[])
  | ok (List.◌∷◌ p ps) ↦ part_blocks (List.◌∷◌ p ps)
]

-- `strings.Join(parts, "\n")`
abbrev pub join_lines : List String → String
join_lines List.[] = ""
join_lines (List.◌∷◌ s List.[]) = s
join_lines (List.◌∷◌ s (List.◌∷◌ t ts)) = s ++ ("\n" ++ join_lines (List.◌∷◌ t ts))

-- The texts of a content array, all of whose blocks must be texts.
unfoldable pub block_texts : Items → Result TransformError (List String)
block_texts nil = ok List.[]
block_texts (item (object m) vs) =
    if not (str_eq (text_at "type" m) "text")
    then err only_text
    else and_then (block_texts vs) (λ ts. ok (List.◌∷◌ (text_at "text" m) ts))
block_texts (item _ vs) = err unsupported_block

unfoldable pub content_to_text : Value → Result TransformError String
unfolding block_texts
content_to_text (text s) = ok s
content_to_text (array vs) = and_then (block_texts vs) (λ ts. ok (join_lines ts))
content_to_text null = ok ""
content_to_text _ = err unsupported_content
