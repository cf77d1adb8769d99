-- ===== src/Content.antt =====
-- internal/providers/openaiformat/content.go, and `ExtractRequestImages` of vision.go: the blocks of
-- a message's content.
pub mod Laws
use costguard.Base.{
  ℕ, String, Bool, true, false, ◌&&◌, List, [], ◌∷◌, ◌++◌, Option, none, some, str_eq,
  if◌then◌else◌, Result, ok, err, and_then,
}
use costguard.Json.{
  Value, null, text, array, object, Items, nil, item, Fields, text_at, field_of, get_field,
  text_or_empty,
}
use costguard.Vision.{ImageUrl}

pub record ContentPart : Type 0 where
  pub kind : String
  pub content : String
  pub image_url : Option ImageUrl

pub data ContentError : Type 0 where
  not_an_object unsupported_format : ContentError
  unsupported_block : String → ContentError

abbrev pub text_part : String → ContentPart
text_part s = record { kind = "text"; content = s; image_url = none }

abbrev pub image_part : ImageUrl → ContentPart
image_part image = record { kind = "image_url"; content = ""; image_url = some image }

-- The `image_url` object of a block; what is missing is the empty text.
abbrev pub image_of : Fields → ImageUrl
image_of m =
    let iu = field_of "image_url" m in
    record {
      url = text_or_empty (get_field "url" iu);
      detail = text_or_empty (get_field "detail" iu);
    }

-- One round of the loop over the blocks.
unfoldable pub parse_block : Value → Result ContentError ContentPart
parse_block (object m) =
    let t = text_at "type" m in
    if str_eq t "text"
    then ok (text_part (text_at "text" m))
    else if str_eq t "image_url"
    then ok (image_part (image_of m))
    else err (unsupported_block t)
parse_block _ = err not_an_object

unfoldable pub parse_blocks : Items → Result ContentError (List ContentPart)
parse_blocks nil = ok []
parse_blocks (item v vs) =
    and_then (parse_block v) (λ p. and_then (parse_blocks vs) (λ ps. ok (p ∷ ps)))

unfoldable pub parse_content_parts : Value → Result ContentError (List ContentPart)
unfolding parse_blocks
parse_content_parts (text s) = ok (text_part s ∷ [])
parse_content_parts (array vs) = parse_blocks vs
parse_content_parts null = ok []
parse_content_parts _ = err unsupported_format

-- The images among the parts of one message; one whose content is not understood has none.
abbrev pub part_images : List ContentPart → List ImageUrl
part_images [] = []
part_images (p ∷ ps) =
    let rest = part_images ps in
    if str_eq p.kind "image_url"
    then elim p.image_url [ none ↦ rest | some image ↦ image ∷ rest ]
    else rest

unfoldable pub message_images : Value → List ImageUrl
unfolding parse_content_parts
message_images v = elim (parse_content_parts v) [ err e ↦ [] | ok ps ↦ part_images ps ]

-- `ExtractRequestImages`, of the contents of the messages of a request that could be decoded.
unfoldable pub extract_request_images : List Value → List ImageUrl
unfolding message_images
extract_request_images [] = []
extract_request_images (v ∷ vs) = message_images v ++ extract_request_images vs
