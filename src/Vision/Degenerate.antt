-- ===== src/Vision/Degenerate.antt =====
-- internal/providers/openaiformat/vision.go: images so long and thin that scaling leaves no height.
use native.Mathlib.Nat.{div-eq_of_lt}
use costguard.Base.{ℕ, ◌*◌, ◌/◌, ◌<◌, ◌≤◌, ◌≡◌, arith}
use costguard.Vision.{
  anthropic_resize, anthropic_tile_tokens, fit_within, shorten, openai_resize, openai_tile_tokens,
}

module _ (w h : ℕ) (wide : 2048 < w) (thin : h * 2048 < w) where
  scaled_away : (k : ℕ) → k ≤ 2048 → h * k / w ≡ 0
  scaled_away k p = div-eq_of_lt (grind arith)

  anthropic_resize_thin : (anthropic_resize w h ≡ (1568, 0)) × (anthropic_resize h w ≡ (0, 1568))
  unfolding anthropic_resize
  anthropic_resize_thin = ground (arith, scaled_away 1568 (omega arith))

  fit_within_thin : (fit_within w h ≡ (2048, 0)) × (fit_within h w ≡ (0, 2048))
  unfolding fit_within
  fit_within_thin = ground (arith, scaled_away 2048 (omega arith))

-- An image more than 2048 times as wide as it is high, and wider than 2048, is charged no tile at
-- all: only the base tokens of either provider remain, with width and height exchanged too.
pub thin_image_tokens :
    (w h : ℕ)
    → 2048 < w
    → h * 2048 < w
    → (anthropic_tile_tokens w h ≡ 65)
      × (anthropic_tile_tokens h w ≡ 65)
      × (openai_tile_tokens w h ≡ 85)
      × (openai_tile_tokens h w ≡ 85)
unfolding anthropic_tile_tokens openai_tile_tokens openai_resize shorten
thin_image_tokens w h wide thin =
    let (a, b) = anthropic_resize_thin w h wide thin in
    let (c, d) = fit_within_thin w h wide thin in (rw a, rw b, rw c, rw d)
