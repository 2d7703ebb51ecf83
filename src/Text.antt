-- ===== src/Text.antt =====
-- Texts as lists of code points, and what the source uses of Go's package strings on them.
-- A Go string that holds valid UTF-8 is such a list; JSON decoding yields no other.
pub mod Laws
use Prim.Native.Char.{code}
use collectif.Common.{
  ℕ, zero, suc, ◌+◌, ◌-◌, ◌*◌, ◌/◌, ◌%◌, String, Bool, true, false, ◌&&◌, ◌||◌, not, Option, none,
  some, List, [], ◌∷◌, ◌++◌, ltb, leb, ◌==◌, if◌then◌else◌, take, drop,
}
use mathlib.Core.Option
use mathlib.Core.List.{reverse}

abbrev pub Text : Type 0
Text = List ℕ

abbrev pub codes : String → Text
codes String.[] = []
codes (String.◌∷◌ c s) = code c ∷ codes s

-- `==` on strings.
unfoldable pub text_eq : Text → Text → Bool
text_eq [] [] = true
text_eq (a ∷ s) (b ∷ t) = (a == b) && text_eq s t
text_eq _ _ = false

-- unicode.IsSpace
unfoldable pub is_space : ℕ → Bool
is_space c =
    (leb 9 c && leb c 13)
    || ((c == 32) || (c == 133) || (c == 160))
    || ((c == 5760) || (leb 8192 c && leb c 8202))
    || ((c == 8232) || (c == 8233) || (c == 8239) || (c == 8287) || (c == 12288))

unfoldable pub trim_left : Text → Text
trim_left [] = []
trim_left (c ∷ s) = let rest = trim_left s in if is_space c then rest else c ∷ s

-- strings.TrimSpace
unfoldable pub trim_space : Text → Text
unfolding is_space trim_left
trim_space s = reverse (trim_left (reverse (trim_left s)))

-- strings.IndexByte for a character below 128, as an index of code points.
unfoldable pub index_of : ℕ → Text → Option ℕ
index_of b [] = none
index_of b (c ∷ s) = let rest = Option.map suc (index_of b s) in if c == b then some 0 else rest

-- strings.HasSuffix with a suffix of one character.
unfoldable pub ends_with : ℕ → Text → Bool
ends_with b [] = false
ends_with b (c ∷ []) = c == b
ends_with b (c ∷ d ∷ s) = ends_with b (d ∷ s)

unfoldable pub contains_char : ℕ → Text → Bool
contains_char b [] = false
contains_char b (c ∷ s) = (c == b) || contains_char b s

-- The UTF-8 bytes of a code point, and of a text.
unfoldable pub utf8_char : ℕ → List ℕ
utf8_char c =
    if ltb c 128
    then c ∷ []
    else if ltb c 2048
    then (192 + c / 64) ∷ (128 + c % 64) ∷ []
    else if ltb c 65536
    then (224 + c / 4096) ∷ (128 + c / 64 % 64) ∷ (128 + c % 64) ∷ []
    else (240 + c / 262144) ∷ (128 + c / 4096 % 64) ∷ (128 + c / 64 % 64) ∷ (128 + c % 64) ∷ []

unfoldable pub utf8 : Text → List ℕ
unfolding utf8_char
utf8 [] = []
utf8 (c ∷ s) = utf8_char c ++ utf8 s
