-- ===== src/Vision/Tests.antt =====
-- internal/providers/openaiformat/vision.go: runs on concrete inputs, and the theorems at inputs.
use costguard.Base.{◌*◌, ◌≡◌, ◌≤◌, List, [], ◌∷◌, String, arith, refl}
use costguard.Vision.{
  fit_within, shorten, ImageUrl, image_dimensions, anthropic_tile_tokens, openai_resize,
  openai_tile_tokens, anthropic_image_tokens, openai_image_tokens,
}
use costguard.Vision.Png
use costguard.Vision.Bounds.{image_tokens_bounds}
use costguard.Vision.Degenerate.{thin_image_tokens}

-- The first bytes of a PNG of 200×100.
abbrev small_png : String
small_png = "data:image/png;base64,iVBORw0KGgoAAAANSUhEUgAAAMgAAABkAAAA"

dimensions_of_small : image_dimensions small_png ≡ (200, 100)
unfolding Png.image_dimensions
dimensions_of_small = refl

openai_square : openai_tile_tokens 1024 1024 ≡ 765
unfolding openai_tile_tokens openai_resize fit_within shorten
openai_square = refl

abbrev images : List ImageUrl
images = record { url = small_png; detail = "low" } ∷ record { url = "http://x"; detail = "" } ∷ []

image_tokens_bounds_example :
    (65 * 2 ≤ anthropic_image_tokens images)
    × (anthropic_image_tokens images ≤ 12_305 * 2)
    × (85 * 2 ≤ openai_image_tokens images)
    × (openai_image_tokens images ≤ 1_445 * 2)
image_tokens_bounds_example = image_tokens_bounds images

thin_image_tokens_example :
    (anthropic_tile_tokens 5000 2 ≡ 65)
    × (anthropic_tile_tokens 2 5000 ≡ 65)
    × (openai_tile_tokens 5000 2 ≡ 85)
    × (openai_tile_tokens 2 5000 ≡ 85)
thin_image_tokens_example = thin_image_tokens 5000 2 (omega arith) (omega arith)
