-- ===== src/Vision/Header.antt =====
-- internal/providers/openaiformat/vision.go: what the header of a PNG can yield.
use mathlib.Core.Path.{subst}
use mathlib.Core.Option.{some-injective}
use costguard.Base.{
  ℕ, zero, suc, ◌+◌, ◌<◌, ◌≡◌, ◌^◌, inl, inr, Option, none, some, List, [], ◌∷◌, String, arith, All,
  Option-cases, has_prefix, contains, >>=-eq-some, Bool, true, false, refl, if◌then◌else◌,
}
use costguard.Vision.Png.{
  digit, decode, decode_header, byte, word, quad, header_dimensions, png_dimensions,
  image_dimensions, embedded_dimensions, or_default, default_dimensions, codes, cut_comma,
}

IsByte : ℕ → Type 0
IsByte b = b < 256

digit-lt : (plus slash c : ℕ) {v : ℕ} → digit plus slash c ≡ some v → v < 64
unfolding digit
digit-lt plus slash c e = ground arith

-- Bytes are below 256, at every index.
abbrev Bytes : List ℕ → Type 0
Bytes raw = All (λ b. b < 256) raw

byte-lt : (raw : List ℕ) (i : ℕ) → Bytes raw → byte raw i < 256
byte-lt [] i h = omega arith
byte-lt (b ∷ raw) zero h = h.0
byte-lt (b ∷ raw) (suc i) h = byte-lt raw i h.1

abbrev Digits : (ℕ → Option ℕ) → Type 0
Digits value = (c v : ℕ) → value c ≡ some v → v < 64

quad-Bytes :
    (a b c d : ℕ) (rest : List ℕ)
    → a < 64
    → b < 64
    → c < 64
    → d < 64
    → Bytes rest
    → Bytes (quad a b c d rest)
quad-Bytes a b c d rest p q r s h = (omega arith, (omega arith, (omega arith, h)))

decode-Bytes :
    (value : ℕ → Option ℕ) (n : ℕ) (cs raw : List ℕ)
    → Digits value
    → decode value n cs ≡ some raw
    → Bytes raw
unfolding decode
decode-Bytes value zero cs raw d e = subst Bytes (some-injective _ _ e) tt
decode-Bytes value (suc n) (a ∷ b ∷ c ∷ x ∷ cs) raw d e =
    let (rest, e₀, k₀) = >>=-eq-some (decode value n cs) _ e in
    let (a', e₁, k₁) = >>=-eq-some (value a) _ k₀ in
    let (b', e₂, k₂) = >>=-eq-some (value b) _ k₁ in
    let (c', e₃, k₃) = >>=-eq-some (value c) _ k₂ in
    let (x', e₄, k₄) = >>=-eq-some (value x) _ k₃ in
    subst Bytes (some-injective _ _ k₄) (
      quad-Bytes a' b' c' x' rest (d a a' e₁) (d b b' e₂) (d c c' e₃) (d x x' e₄)
        (decode-Bytes value n cs rest d e₀))
decode-Bytes value (suc n) _ raw d e = cc

decode_header-Bytes : (cs raw : List ℕ) → decode_header cs ≡ some raw → Bytes raw
unfolding decode_header
decode_header-Bytes cs raw e = elim (Option-cases (decode (digit b'+' b'/') 8 cs)) [
  | inl missed ↦
      decode-Bytes (digit b'-' b'_') 8 cs raw (λ c v. digit-lt b'-' b'_' c) (ground arith)
  | inr (r, found) ↦
      decode-Bytes (digit b'+' b'/') 8 cs raw (λ c v. digit-lt b'+' b'/' c) (ground arith)
]

word-lt : (raw : List ℕ) (i : ℕ) → Bytes raw → word raw i < 2 ^ 32
unfolding word
word-lt raw i h =
    omega
      (arith, byte-lt raw i h, byte-lt raw (i + 1) h, byte-lt raw (i + 2) h, byte-lt raw (i + 3) h)

-- A size that the code may scale: neither side is 0, and both are 32-bit numbers.
abbrev pub IsSize : ℕ × ℕ → Type 0
IsSize d = (0 < d.0) × (d.0 < 2 ^ 32) × (0 < d.1) × (d.1 < 2 ^ 32)

header_dimensions-IsSize :
    (raw : List ℕ) (d : ℕ × ℕ) → Bytes raw → header_dimensions raw ≡ some d → IsSize d
unfolding header_dimensions
header_dimensions-IsSize raw d h e = ground (arith, word-lt raw 16 h, word-lt raw 20 h)

png_dimensions-IsSize : (b64 : String) (d : ℕ × ℕ) → png_dimensions b64 ≡ some d → IsSize d
unfolding png_dimensions
png_dimensions-IsSize b64 d e =
    let (raw, e₀, k) = >>=-eq-some (decode_header (codes b64)) _ e in
    header_dimensions-IsSize raw d (decode_header-Bytes (codes b64) raw e₀) k

if-IsSize : (b : Bool) (d e : ℕ × ℕ) → IsSize d → IsSize e → IsSize (if b then d else e)
if-IsSize true d e h k = h
if-IsSize false d e h k = k

default-IsSize : IsSize default_dimensions
default-IsSize = omega arith

or_default-IsSize :
    (o : Option (ℕ × ℕ)) → ((d : ℕ × ℕ) → o ≡ some d → IsSize d) → IsSize (or_default o)
or_default-IsSize none h = default-IsSize
or_default-IsSize (some d) h = h d refl

embedded_dimensions-IsSize : (o : Option (String × String)) → IsSize (embedded_dimensions o)
unfolding embedded_dimensions
embedded_dimensions-IsSize none = default-IsSize
embedded_dimensions-IsSize (some (header, b64)) =
    if-IsSize (contains "image/png" header) _ _
      (or_default-IsSize (png_dimensions b64) (png_dimensions-IsSize b64)) default-IsSize

-- Whatever the URL of an image, its width and height are neither 0 nor 2^32 or more; so no scaling
-- divides by 0, and no product of a side and 2048 leaves Go's 64-bit int.
pub image_dimensions-IsSize : (url : String) → IsSize (image_dimensions url)
unfolding image_dimensions
image_dimensions-IsSize url =
    if-IsSize (has_prefix "data:" url) _ _ (embedded_dimensions-IsSize (cut_comma url))
      default-IsSize
