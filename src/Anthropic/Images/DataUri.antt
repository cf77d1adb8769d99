-- ===== src/Anthropic/Images/DataUri.antt =====
-- internal/providers/anthropic/transform.go: data URIs of images are read back.
use Prim.Native.Char.{code}
use Prim.Native.String.{[], ◌∷◌}
use costguard.Base.{
  ℕ, ◌≡◌, refl, String, Bool, true, not, ◌==◌, ◌&&◌, some, str_eq, eq_iff, arith, ok, Bool-cases,
  inl, inr,
}
use costguard.Anthropic.Images.{
  cut, supported_media_type, base64_source, data_uri_block, image_url_to_anthropic_block,
}

-- One text behind another.
abbrev pub glue : String → String → String
glue [] t = t
glue (c ∷ s) t = c ∷ glue s t

abbrev pub data_uri : String → String → String
data_uri media_type payload = glue "data:" (glue media_type (glue ";base64," payload))

abbrev lacks : ℕ → String → Bool
lacks b [] = true
lacks b (c ∷ s) = not (code c == b) && lacks b s

cut-glue :
    (b : ℕ) (s t r : String)
    → lacks b s ≡ true
    → cut b t ≡ some ([], r)
    → cut b (glue s t) ≡ some (s, r)
cut-glue b [] t r h k = k
cut-glue b (c ∷ s) t r h k = ground (arith, cut-glue b s t r)

supported-lacks : (t : String) → supported_media_type t ≡ true → lacks b';' t ≡ true
supported-lacks t h = elim (Bool-cases (str_eq t "image/jpeg")) [
  | inl e ↦ rw ((eq_iff t "image/jpeg").0 e) refl
  | inr a ↦ elim (Bool-cases (str_eq t "image/png")) [
    | inl e ↦ rw ((eq_iff t "image/png").0 e) refl
    | inr b ↦ elim (Bool-cases (str_eq t "image/gif")) [
      | inl e ↦ rw ((eq_iff t "image/gif").0 e) refl
      | inr c ↦
          let e : str_eq t "image/webp" ≡ true = ground arith in
          rw ((eq_iff t "image/webp").0 e) refl
    ]
  ]
]

-- Whatever its payload, a base64 data URI of one of the four media types is taken apart into that
-- type and payload, commas and semicolons in the payload included.
pub image_url_to_anthropic_block-data_uri :
    (media_type payload : String)
    → supported_media_type media_type ≡ true
    → image_url_to_anthropic_block (data_uri media_type payload)
      ≡ ok (base64_source media_type payload)
unfolding image_url_to_anthropic_block data_uri_block
image_url_to_anthropic_block-data_uri media_type payload h =
    rw
      (cut-glue b';' media_type (glue ";base64," payload) (glue "base64," payload)
        (supported-lacks media_type h) refl)
      (rw h refl)
