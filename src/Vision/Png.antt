-- ===== src/Vision/Png.antt =====
-- internal/providers/openaiformat/vision.go: the dimensions of an image, read from the header of a
-- PNG that stands in a data URI.
use Prim.Native.Char.{code}
use costguard.Base.{
  ℕ, zero, suc, ◌+◌, ◌-◌, ◌*◌, ◌/◌, ◌%◌, String, ◌&&◌, List, [], ◌∷◌, Option, none, some, leb, ltb,
  ◌==◌, if◌then◌else◌, get_or, has_prefix, contains, ◌>>=◌,
}

-- The text in front of the first comma, and that behind it.
unfoldable pub cut_comma : String → Option (String × String)
cut_comma String.[] = none
cut_comma (String.◌∷◌ c s) =
    let rest = cut_comma s in
    if code c == b','
    then some (String.[], s)
    else elim rest [ none ↦ none | some (a, b) ↦ some (String.◌∷◌ c a, b) ]

unfoldable pub codes : String → List ℕ
codes String.[] = []
codes (String.◌∷◌ c s) = code c ∷ codes s

-- A digit of base 64, by the two characters that stand for 62 and 63. Padding and line breaks are
-- no digits: where they stand in 32 characters, fewer than 24 bytes are decoded.
unfoldable pub digit : ℕ → ℕ → ℕ → Option ℕ
digit plus slash c =
    if leb b'A' c && leb c b'Z'
    then some (c - b'A')
    else if leb b'a' c && leb c b'z'
    then some (c - b'a' + 26)
    else if leb b'0' c && leb c b'9'
    then some (c - b'0' + 52)
    else if c == plus
    then some 62
    else if c == slash
    then some 63
    else none

abbrev pub quad : ℕ → ℕ → ℕ → ℕ → List ℕ → List ℕ
quad a b c d rest = (a * 4 + b / 16) ∷ ((b % 16) * 16 + c / 4) ∷ ((c % 4) * 64 + d) ∷ rest

-- `base64.….DecodeString` of `n` groups of four characters.
unfoldable pub decode : (ℕ → Option ℕ) → ℕ → List ℕ → Option (List ℕ)
decode value zero cs = some []
decode value (suc n) (a ∷ b ∷ c ∷ d ∷ cs) = do
  rest ← decode value n cs
  a' ← value a
  b' ← value b
  c' ← value c
  d' ← value d
  some (quad a' b' c' d' rest)
decode value (suc n) cs = none

-- The standard alphabet, then the URL-safe one, over the first 32 characters.
unfoldable pub decode_header : List ℕ → Option (List ℕ)
unfolding decode digit
decode_header cs = elim (decode (digit b'+' b'/') 8 cs) [
  | some raw ↦ some raw
  | none ↦ decode (digit b'-' b'_') 8 cs
]

abbrev pub byte : List ℕ → ℕ → ℕ
byte raw i = get_or raw i 0

-- A big-endian uint32, which Go's 64-bit int holds.
unfoldable pub word : List ℕ → ℕ → ℕ
word raw i =
    byte raw i * 16_777_216 + byte raw (i + 1) * 65_536 + byte raw (i + 2) * 256 + byte raw (i + 3)

-- The checks on the decoded header.
unfoldable pub header_dimensions : List ℕ → Option (ℕ × ℕ)
unfolding word
header_dimensions raw =
    if (byte raw 0 == 0x89) && (byte raw 1 == b'P') && (byte raw 2 == b'N') && (byte raw 3 == b'G')
    then (if ltb 0 (word raw 16) && ltb 0 (word raw 20)
        then some (word raw 16, word raw 20)
        else none)
    else none

-- `pngDimensionsFromBase64`
unfoldable pub png_dimensions : String → Option (ℕ × ℕ)
unfolding decode_header header_dimensions codes
png_dimensions b64 = do raw ← decode_header (codes b64); header_dimensions raw

abbrev pub default_dimensions : ℕ × ℕ
default_dimensions = (1024, 1024)

abbrev pub or_default : Option (ℕ × ℕ) → ℕ × ℕ
or_default none = default_dimensions
or_default (some d) = d

-- The dimensions of an image in a data URI that is cut at its first comma.
unfoldable pub embedded_dimensions : Option (String × String) → ℕ × ℕ
unfolding png_dimensions
embedded_dimensions none = default_dimensions
embedded_dimensions (some (header, b64)) =
    if contains "image/png" header then or_default (png_dimensions b64) else default_dimensions

unfoldable pub image_dimensions : String → ℕ × ℕ
unfolding embedded_dimensions cut_comma
image_dimensions raw_url =
    if has_prefix "data:" raw_url
    then embedded_dimensions (cut_comma raw_url)
    else default_dimensions
