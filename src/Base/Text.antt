-- ===== src/Base/Text.antt =====
-- The functions of Go's package `strings` that the program calls, character by character.
use Prim.Native.Char.{code}
use Prim.Native.String.{String, [], ◌∷◌}
use mathlib.Core.Path.{◌≡◌, refl}
use mathlib.Core.Bool.{Bool, true, false, ◌&&◌, ◌||◌, not}
use native.Mathlib.Omega.{arith}
use Prim.Native.Nat.{ℕ, ◌+◌, ◌-◌}
use mathlib.Core.List.{List, [], ◌∷◌}
use costguard.Base.Tests.{◌==◌, ltb, leb, if◌then◌else◌}
use costguard.Base.Lists.{any, is_empty}

-- `strings.HasPrefix(s, p)`, as `has_prefix p s`.
abbrev pub has_prefix : String → String → Bool
has_prefix [] s = true
has_prefix (c ∷ p) [] = false
has_prefix (c ∷ p) (d ∷ s) = (code c == code d) && has_prefix p s

-- `strings.Contains(s, p)`, as `contains p s`.
abbrev pub contains : String → String → Bool
contains p [] = has_prefix p []
contains p (c ∷ s) = has_prefix p (c ∷ s) || contains p s

-- Two texts that differ at a place that both have: neither is a prefix of the other.
abbrev pub disagree : String → String → Bool
disagree [] t = false
disagree (c ∷ s) [] = false
disagree (c ∷ s) (d ∷ t) = not (code c == code d) || disagree s t

pub has_prefix_trans :
    (p q s : String) → has_prefix p q ≡ true → has_prefix q s ≡ true → has_prefix p s ≡ true
has_prefix_trans [] q s h k = refl
has_prefix_trans (c ∷ p) [] s h k = ground arith
has_prefix_trans (c ∷ p) (d ∷ q) [] h k = ground arith
has_prefix_trans (c ∷ p) (d ∷ q) (e ∷ s) h k = ground (arith, has_prefix_trans p q s)

pub has_prefix_refl : (s : String) → has_prefix s s ≡ true
has_prefix_refl [] = refl
has_prefix_refl (c ∷ s) = ground (arith, has_prefix_refl s)

-- What begins with `p` does not begin with a text that differs from `p`.
pub has_prefix_of_disagree :
    (p q s : String) → disagree p q ≡ true → has_prefix p s ≡ true → has_prefix q s ≡ false
has_prefix_of_disagree [] q s h k = ground arith
has_prefix_of_disagree (c ∷ p) [] s h k = ground arith
has_prefix_of_disagree (c ∷ p) (d ∷ q) [] h k = refl
has_prefix_of_disagree (c ∷ p) (d ∷ q) (e ∷ s) h k = ground (arith, has_prefix_of_disagree p q s)

-- `s < t`: the order of the bytes of UTF-8 is that of the code points.
abbrev pub str_lt : String → String → Bool
str_lt s [] = false
str_lt [] (d ∷ t) = true
str_lt (c ∷ s) (d ∷ t) = ltb (code c) (code d) || ((code c == code d) && str_lt s t)

pub str_lt-asymm : (s t : String) → str_lt s t ≡ true → str_lt t s ≡ false
str_lt-asymm s [] h = ground arith
str_lt-asymm [] (d ∷ t) h = refl
str_lt-asymm (c ∷ s) (d ∷ t) h = ground (arith, str_lt-asymm s t)

-- The code points of a text.
abbrev pub runes : String → List ℕ
runes [] = []
runes (c ∷ s) = code c ∷ runes s

abbrev pub starts : List ℕ → List ℕ → Bool
starts [] s = true
starts (c ∷ p) [] = false
starts (c ∷ p) (d ∷ s) = (c == d) && starts p s

-- `unicode.ToLower`, of every letter whose lower case is in ASCII: A to Z, İ and the Kelvin sign.
abbrev pub lower : ℕ → ℕ
lower c =
    if leb 65 c && leb c 90 then c + 32 else if c == 304 then 105 else if c == 8490 then 107 else c

-- `unicode.IsSpace`
abbrev pub is_space : ℕ → Bool
is_space c =
    (leb 9 c && leb c 13)
    || (any (λ d. c == d) (32 ∷ 133 ∷ 160 ∷ 5760 ∷ 8232 ∷ 8233 ∷ 8239 ∷ 8287 ∷ 12288 ∷ [])
        || (leb 8192 c && leb c 8202))

abbrev pub trim_left : List ℕ → List ℕ
trim_left [] = []
trim_left (c ∷ s) = if is_space c then trim_left s else c ∷ s

abbrev pub trim_right : List ℕ → List ℕ
trim_right [] = []
trim_right (c ∷ s) = let t = trim_right s in if is_space c && is_empty t then [] else c ∷ t

-- `strings.TrimSpace`
abbrev pub trim_space : List ℕ → List ℕ
trim_space s = trim_right (trim_left s)

-- `strings.TrimSpace(s) == ""`
abbrev pub is_blank : String → Bool
is_blank s = is_empty (trim_space (runes s))

-- `unicode.ToUpper`, of every letter whose upper case is in ASCII: a to z, ı and ſ.
abbrev pub upper : ℕ → ℕ
upper c =
    if leb 97 c && leb c 122 then c - 32 else if c == 305 then 73 else if c == 383 then 83 else c

abbrev pub same_runes : List ℕ → List ℕ → Bool
same_runes [] [] = true
same_runes [] (d ∷ t) = false
same_runes (c ∷ s) [] = false
same_runes (c ∷ s) (d ∷ t) = (c == d) && same_runes s t
