-- ===== src/Clients/Compat/Refused.antt =====
-- internal/providers/openaicompat/client.go: the requests that the client refuses, and the images that
-- the gateway finds.
use costguard.Base.{
  ℕ, ◌≡◌, inl, inr, refl, true, false, List, [], ◌∷◌, Option, none, some, str_eq, Result, ok, arith,
  Result-cases, Bool-cases, is_empty, any, same_runes, runes,
}
use costguard.Json.{
  Value, array, object, text, null, boolean, number, Items, nil, item, field_of, text_or_empty,
}
use costguard.Content.{
  ContentPart, parse_block, parse_blocks, parse_content_parts, part_images, message_images,
  extract_request_images,
}
use costguard.Gateway.Errors.{GoError}
use costguard.Clients.Http.{Sent}
use costguard.Clients.Compat.{
  Client, Incoming, Wire, is_image_type, is_image_block, has_image_block, has_image,
  request_has_image_content, do_request,
}

is_image_type-text : (t : Option Value) → str_eq (text_or_empty t) "image_url" ≡ is_image_type t
is_image_type-text none = refl
is_image_type-text (some null) = refl
is_image_type-text (some (boolean b)) = refl
is_image_type-text (some (number n)) = refl
is_image_type-text (some (text t)) = refl
is_image_type-text (some (array vs)) = refl
is_image_type-text (some (object m)) = refl

-- A block that is no image has no picture.
parse_block-part_images :
    (v : Value) (p : ContentPart)
    → is_image_block v ≡ false
    → parse_block v ≡ ok p
    → part_images (p ∷ []) ≡ []
unfolding parse_block
parse_block-part_images (object m) p h e = ground (arith, is_image_type-text (field_of "type" m))
parse_block-part_images null p h e = ground arith
parse_block-part_images (boolean b) p h e = ground arith
parse_block-part_images (number n) p h e = ground arith
parse_block-part_images (text t) p h e = ground arith
parse_block-part_images (array vs) p h e = ground arith

parse_blocks-part_images :
    (vs : Items) (ps : List ContentPart)
    → has_image_block vs ≡ false
    → parse_blocks vs ≡ ok ps
    → part_images ps ≡ []
unfolding parse_blocks
parse_blocks-part_images nil ps h e = ground arith
parse_blocks-part_images (item v vs) ps h e = elim (Result-cases (parse_block v)) [
  | inl (x, q) ↦ ground arith
  | inr (p, q) ↦ elim (Result-cases (parse_blocks vs)) [
    | inl (x, k) ↦ ground arith
    | inr (rest, k) ↦ ground (arith, parse_block-part_images v p, parse_blocks-part_images vs rest)
  ]
]

message_images-has_image : (v : Value) → has_image v ≡ false → message_images v ≡ []
unfolding message_images parse_content_parts
message_images-has_image (array vs) h = elim (Result-cases (parse_blocks vs)) [
  | inl (x, q) ↦ ground arith
  | inr (ps, q) ↦ ground (arith, parse_blocks-part_images vs ps h q)
]
message_images-has_image (object m) h = refl
message_images-has_image null h = refl
message_images-has_image (boolean b) h = refl
message_images-has_image (number n) h = refl
message_images-has_image (text t) h = refl

images-any :
    (contents : List Value)
    → is_empty (extract_request_images contents) ≡ false
    → any has_image contents ≡ true
unfolding extract_request_images
images-any [] h = ground arith
images-any (v ∷ vs) h = elim (Bool-cases (has_image v)) [
  | inl e ↦ ground arith
  | inr e ↦ ground (arith, message_images-has_image v e, images-any vs)
]

module _ {A : Type 0} (wire : Wire) (upstream : Sent (List ℕ) → Result GoError A) where
  -- A provider that is not configured for images is sent nothing of a completion in which the gateway
  -- finds an image.
  pub do_request-images :
      (c : Client) (r : Incoming) (body : List ℕ) (contents : List Value)
      → c.allow_multimodal ≡ false
      → str_eq r.method "POST" ≡ true
      → same_runes r.path (runes "/v1/chat/completions") ≡ true
      → r.body ≡ ok body
      → wire.message_contents body ≡ some contents
      → is_empty (extract_request_images contents) ≡ false
      → (do_request wire upstream c r).sent ≡ []
  unfolding do_request request_has_image_content
  do_request-images c r body contents a m p b d h = ground (arith, images-any contents h)
