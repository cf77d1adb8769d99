-- ===== src/Content/Laws.antt =====
-- internal/providers/openaiformat/content.go: the parts of a content, and the content of parts.
use mathlib.Core.Path.{subst}
use costguard.Base.{
  ℕ, suc, ◌≡◌, ◌⊎◌, inl, inr, refl, ap, String, List, [], ◌∷◌, none, some, str_eq, map, arith, ok,
  and_then, and_then-eq-ok, length, All, ok-injective, Bool-cases, sym, ◌∙◌,
}
use costguard.Json.{
  Value, null, boolean, number, text, array, object, Items, nil, item, end, field, items_of,
  text_at,
}
use costguard.Vision.{ImageUrl}
use costguard.Content.{
  ContentPart, text_part, image_part, image_of, parse_block, parse_blocks, parse_content_parts,
  part_images, message_images,
}

-- What a client may put into a content.
pub data Block : Type 0 where
  words : String → Block
  picture : ImageUrl → Block

-- The wire format of a block.
abbrev pub encode : Block → Value
encode (words s) = object (field "type" (text "text") (field "text" (text s) end))
encode (picture image) = object (
    field "type" (text "image_url") (
      field "image_url"
        (object (field "url" (text image.url) (field "detail" (text image.detail) end))) end))

abbrev pub part_of : Block → ContentPart
part_of (words s) = text_part s
part_of (picture image) = image_part image

abbrev pub pictures : List Block → List ImageUrl
pictures [] = []
pictures (words s ∷ bs) = pictures bs
pictures (picture image ∷ bs) = image ∷ pictures bs

parse_blocks-encode :
    (bs : List Block) → parse_blocks (items_of (map encode bs)) ≡ ok (map part_of bs)
unfolding parse_blocks parse_block
parse_blocks-encode [] = refl
parse_blocks-encode (words s ∷ bs) = rw (parse_blocks-encode bs) refl
parse_blocks-encode (picture image ∷ bs) = rw (parse_blocks-encode bs) refl

part_images-part_of : (bs : List Block) → part_images (map part_of bs) ≡ pictures bs
part_images-part_of [] = refl
part_images-part_of (words s ∷ bs) = part_images-part_of bs
part_images-part_of (picture image ∷ bs) = ap (λ is. image ∷ is) (part_images-part_of bs)

-- Parsing the wire format of any blocks gives these blocks back, in their order, and the images
-- that are found in a message of them are its pictures.
pub parse_content_parts-encode :
    (bs : List Block)
    → (parse_content_parts (array (items_of (map encode bs))) ≡ ok (map part_of bs))
      × (message_images (array (items_of (map encode bs))) ≡ pictures bs)
unfolding parse_content_parts message_images
parse_content_parts-encode bs =
    (parse_blocks-encode bs, rw (parse_blocks-encode bs, message_images) (part_images-part_of bs))

-- A part is a text, or an image whose URL is there to be read.
abbrev pub IsPart : ContentPart → Type 0
IsPart p =
    (p.kind ≡ "text") × (p.image_url ≡ none)
    ⊎ (p.kind ≡ "image_url") × ((image : ImageUrl) × (p.image_url ≡ some image))

parse_block-IsPart : (v : Value) (p : ContentPart) → parse_block v ≡ ok p → IsPart p
unfolding parse_block
parse_block-IsPart (object m) p h = elim (Bool-cases (str_eq (text_at "type" m) "text")) [
  | inl e ↦
      let same : ok (text_part (text_at "text" m)) ≡ ok p = sym (rw e refl) ∙ h in
      subst IsPart (ok-injective same) (inl (refl, refl))
  | inr n ↦ elim (Bool-cases (str_eq (text_at "type" m) "image_url")) [
    | inl e ↦
        let same : ok (image_part (image_of m)) ≡ ok p = sym (rw n (rw e refl)) ∙ h in
        subst IsPart (ok-injective same) (inr (refl, (image_of m, refl)))
    | inr e ↦ ground arith
  ]
]
parse_block-IsPart null p h = cc
parse_block-IsPart (boolean b) p h = cc
parse_block-IsPart (number n) p h = cc
parse_block-IsPart (text s) p h = cc
parse_block-IsPart (array vs) p h = cc

abbrev pub count : Items → ℕ
count nil = 0
count (item v vs) = suc (count vs)

parse_blocks-IsPart :
    (vs : Items) (ps : List ContentPart)
    → parse_blocks vs ≡ ok ps
    → (length ps ≡ count vs) × All IsPart ps
unfolding parse_blocks
parse_blocks-IsPart nil ps h =
    subst (λ qs. (length qs ≡ 0) × All IsPart qs) (ok-injective h) (refl, tt)
parse_blocks-IsPart (item v vs) ps h =
    let (p, first, more) =
      and_then-eq-ok (parse_block v) (λ p. and_then (parse_blocks vs) (λ qs. ok (p ∷ qs))) h in
    let (qs, rest, same) = and_then-eq-ok (parse_blocks vs) (λ qs. ok (p ∷ qs)) more in
    let (len, parts) = parse_blocks-IsPart vs qs rest in
    subst (λ rs. (length rs ≡ suc (count vs)) × All IsPart rs) (ok-injective same)
      (ap suc len, (parse_block-IsPart v p first, parts))

-- The parts of a content that is understood are as many as its blocks, each a text or an image
-- whose URL is there to be read.
pub parse_content_parts-IsPart :
    (vs : Items) (ps : List ContentPart)
    → parse_content_parts (array vs) ≡ ok ps
    → (length ps ≡ count vs) × All IsPart ps
unfolding parse_content_parts
parse_content_parts-IsPart vs ps h = parse_blocks-IsPart vs ps h
