-- ===== src/Vision/Bounds.antt =====
-- internal/providers/openaiformat/vision.go: a scaled image fits its limits, and so does its cost.
use native.Mathlib.Nat.{div-le_of_le-mul}
use costguard.Base.{ℕ, ◌*◌, ◌/◌, ◌≤◌, ◌⊎◌, List, [], ◌∷◌, arith, length, inl, inr}
use costguard.Vision.{
  anthropic_resize, anthropic_tile_tokens, fit_within, shorten, openai_resize, openai_tile_tokens,
  tiles, ImageUrl, anthropic_image_tokens, openai_image_tokens, image_dimensions,
}

-- Scaling `a` by `k / b` gives at most `k`, if `a` is no larger than `b`.
scale-le : (a b k : ℕ) → a ≤ b → a * k / b ≤ k
scale-le a b k h = div-le_of_le-mul b (grind arith)

scale_more-le : (a b k m : ℕ) → a * k ≤ b * m → a * k / b ≤ m
scale_more-le a b k m h = div-le_of_le-mul b h

anthropic_resize_bounds :
    (w h : ℕ) → let (w', h') = anthropic_resize w h in (w' ≤ 1568) × (h' ≤ 1568)
unfolding anthropic_resize
anthropic_resize_bounds w h = ground (arith, scale-le h w 1568, scale-le w h 1568)

fit_within_bounds : (w h : ℕ) → let (w', h') = fit_within w h in (w' ≤ 2048) × (h' ≤ 2048)
unfolding fit_within
fit_within_bounds w h = ground (arith, scale-le h w 2048, scale-le w h 2048)

shorten_bounds :
    (w h : ℕ)
    → w ≤ 2048
    → h ≤ 2048
    → let (w', h') = shorten w h in (w' ≤ 2048) × (h' ≤ 2048) × ((w' ≤ 768) ⊎ (h' ≤ 768))
unfolding shorten
shorten_bounds w h p q = ground (arith, scale_more-le h w 768 2048, scale_more-le w h 768 2048)

-- Whatever the size of an image, scaling for OpenAI leaves it within 2048×2048 and its shorter side
-- within 768, and scaling for Anthropic leaves it within 1568×1568.
pub resize_bounds :
    (w h : ℕ)
    → (let (w', h') = openai_resize w h in (w' ≤ 2048) × (h' ≤ 2048) × ((w' ≤ 768) ⊎ (h' ≤ 768)))
      × (let (w', h') = anthropic_resize w h in (w' ≤ 1568) × (h' ≤ 1568))
unfolding openai_resize
resize_bounds w h =
    let (p, q) = fit_within_bounds w h in
    (shorten_bounds (fit_within w h).0 (fit_within w h).1 p q, anthropic_resize_bounds w h)

-- A product of two numbers of tiles.
area_le : (a b m n : ℕ) → a ≤ m → b ≤ n → a * b ≤ m * n
area_le a b m n p q = grind arith

anthropic_tile_tokens-le : (w h : ℕ) → anthropic_tile_tokens w h ≤ 12_305
unfolding anthropic_tile_tokens
anthropic_tile_tokens-le w h =
    let (p, q) = anthropic_resize_bounds w h in
    omega (
      arith,
      area_le (tiles (anthropic_resize w h).0) (tiles (anthropic_resize w h).1) 4 4 (omega arith)
          (omega arith),
    )

openai_tile_tokens-le : (w h : ℕ) → openai_tile_tokens w h ≤ 1_445
unfolding openai_tile_tokens
openai_tile_tokens-le w h =
    let (p, q, r) = (resize_bounds w h).0 in
    elim r [
      | inl short ↦ omega (
        arith,
        area_le (tiles (openai_resize w h).0) (tiles (openai_resize w h).1) 2 4 (omega arith)
            (omega arith),
      )
      | inr short ↦ omega (
        arith,
        area_le (tiles (openai_resize w h).0) (tiles (openai_resize w h).1) 4 2 (omega arith)
            (omega arith),
      )
    ]

anthropic_tile_tokens-ge : (w h : ℕ) → 65 ≤ anthropic_tile_tokens w h
unfolding anthropic_tile_tokens
anthropic_tile_tokens-ge w h = omega arith

openai_tile_tokens-ge : (w h : ℕ) → 85 ≤ openai_tile_tokens w h
unfolding openai_tile_tokens
openai_tile_tokens-ge w h = omega arith

anthropic_image_tokens_bounds :
    (images : List ImageUrl)
    → (65 * length images ≤ anthropic_image_tokens images)
      × (anthropic_image_tokens images ≤ 12_305 * length images)
unfolding anthropic_image_tokens
anthropic_image_tokens_bounds [] = omega arith
anthropic_image_tokens_bounds (img ∷ images) =
    let (w, h) = image_dimensions img.url in
    omega (
      arith,
      anthropic_tile_tokens-le w h,
      anthropic_tile_tokens-ge w h,
      anthropic_image_tokens_bounds images,
    )

openai_image_tokens_bounds :
    (images : List ImageUrl)
    → (85 * length images ≤ openai_image_tokens images)
      × (openai_image_tokens images ≤ 1_445 * length images)
unfolding openai_image_tokens
openai_image_tokens_bounds [] = omega arith
openai_image_tokens_bounds (img ∷ images) =
    let (w, h) = image_dimensions img.url in
    ground (
      arith,
      openai_tile_tokens-le w h,
      openai_tile_tokens-ge w h,
      openai_image_tokens_bounds images,
    )

-- The estimate for a list of images grows with their number alone: 65 to 12305 tokens each for
-- Anthropic, 85 to 1445 each for OpenAI, whatever their dimensions.
pub image_tokens_bounds :
    (images : List ImageUrl)
    → (65 * length images ≤ anthropic_image_tokens images)
      × (anthropic_image_tokens images ≤ 12_305 * length images)
      × (85 * length images ≤ openai_image_tokens images)
      × (openai_image_tokens images ≤ 1_445 * length images)
image_tokens_bounds images =
    let (a, b) = anthropic_image_tokens_bounds images in
    let (c, d) = openai_image_tokens_bounds images in (a, b, c, d)
