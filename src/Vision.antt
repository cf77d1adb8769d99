-- ===== src/Vision.antt =====
-- internal/providers/openaiformat/vision.go: how many tokens an image is estimated to cost.
-- Go's int has 64 bits; Vision/Bounds.antt bounds the products, so that plain numbers serve.
mod Png
pub mod Header
pub mod Bounds
pub mod Degenerate
mod Tests
pub use Png.{image_dimensions, png_dimensions}
use costguard.Base.{
  ℕ, ◌+◌, ◌-◌, ◌*◌, ◌/◌, Bool, String, List, [], ◌∷◌, ltb, leb, if◌then◌else◌, str_eq, ◌&&◌, ◌||◌,
}

abbrev pub anthropic_max_dim : ℕ
anthropic_max_dim = 1568

-- Both providers use tiles of 512 pixels.
abbrev pub tile_size : ℕ
tile_size = 512

-- `(n + tileSize - 1) / tileSize`
abbrev pub tiles : ℕ → ℕ
tiles n = (n + tile_size - 1) / tile_size

unfoldable pub anthropic_resize : ℕ → ℕ → ℕ × ℕ
anthropic_resize width height =
    if leb width anthropic_max_dim && leb height anthropic_max_dim
    then (width, height)
    else if leb height width
    then (anthropic_max_dim, height * anthropic_max_dim / width)
    else (width * anthropic_max_dim / height, anthropic_max_dim)

unfoldable pub anthropic_tile_tokens : ℕ → ℕ → ℕ
anthropic_tile_tokens width height =
    let (w, h) = anthropic_resize width height in tiles w * tiles h * 765 + 65

-- Step 1 of `openAIResize`: fit within 2048×2048.
unfoldable pub fit_within : ℕ → ℕ → ℕ × ℕ
fit_within w h =
    if ltb 2048 w || ltb 2048 h
    then (if leb h w then (2048, h * 2048 / w) else (w * 2048 / h, 2048))
    else (w, h)

-- Step 2: scale the shorter side to 768.
unfoldable pub shorten : ℕ → ℕ → ℕ × ℕ
shorten w h =
    if leb w h
    then (if ltb 768 w then (768, h * 768 / w) else (w, h))
    else (if ltb 768 h then (w * 768 / h, 768) else (w, h))

unfoldable pub openai_resize : ℕ → ℕ → ℕ × ℕ
openai_resize width height = let (w, h) = fit_within width height in shorten w h

unfoldable pub openai_tile_tokens : ℕ → ℕ → ℕ
openai_tile_tokens width height =
    let (w, h) = openai_resize width height in tiles w * tiles h * 170 + 85

pub record ImageUrl : Type 0 where
  pub url : String
  pub detail : String

unfoldable pub anthropic_image_tokens : List ImageUrl → ℕ
anthropic_image_tokens [] = 0
anthropic_image_tokens (img ∷ images) =
    let (w, h) = image_dimensions img.url in
    anthropic_tile_tokens w h + anthropic_image_tokens images

unfoldable pub openai_image_tokens : List ImageUrl → ℕ
openai_image_tokens [] = 0
openai_image_tokens (img ∷ images) =
    let (w, h) = image_dimensions img.url in
    (if str_eq img.detail "low" then 85 else openai_tile_tokens w h) + openai_image_tokens images
