-- ===== src/Tools/PathMatch.antt =====
-- `filepath.Match` of Go's standard library, which matchGlob of src/tools_fs.go calls: the pattern is
-- read into pieces, or found malformed, by a machine that goes over its characters.
use collectif.Common.{
  ℕ, Bool, true, false, ◌&&◌, ◌||◌, not, Option, none, some, List, [], ◌∷◌, ◌++◌, leb, ◌==◌,
  if◌then◌else◌,
}
use mathlib.Core.Option
use collectif.Text.{Text}

abbrev pub slash : ℕ
slash = 47

abbrev pub backslash : ℕ
backslash = 92

pub data PathPiece : Type 0 where
  run one : PathPiece
  char : ℕ → PathPiece
  class : Bool → List (ℕ × ℕ) → PathPiece

-- Where in a pattern the machine is: outside a class, behind a backslash, behind "[", at the low end
-- of a range, behind it, and at the high end; with the class's sign, ranges and low end.
pub data Mode : Type 0 where
  outside escaped class_start : Mode
  low low_escaped : Bool → List (ℕ × ℕ) → Mode
  behind_low high high_escaped : Bool → List (ℕ × ℕ) → ℕ → Mode

abbrev Next : Type 0
Next = Option (Mode × List PathPiece)

abbrev go : Mode → Next
go m = some (m, [])

abbrev is_nil : List (ℕ × ℕ) → Bool
is_nil [] = true
is_nil (r ∷ rs) = false

abbrev closing : ℕ → Bool
closing c = (c == b'-') || (c == b']')

unfoldable pub at_low : Bool → List (ℕ × ℕ) → ℕ → Option (Mode × List PathPiece)
at_low negated ranges c =
    if (c == b']') && not (is_nil ranges)
    then some (outside, class negated ranges ∷ [])
    else if closing c
    then none
    else if c == backslash
    then go (low_escaped negated ranges)
    else go (behind_low negated ranges c)

unfoldable pub next_mode : Mode → ℕ → Option (Mode × List PathPiece)
unfolding at_low
next_mode outside c =
    if c == b'*'
    then some (outside, run ∷ [])
    else if c == b'?'
    then some (outside, one ∷ [])
    else if c == b'['
    then go class_start
    else if c == backslash
    then go escaped
    else some (outside, char c ∷ [])
next_mode escaped c = some (outside, char c ∷ [])
next_mode class_start c = if c == b'^' then go (low true []) else at_low false [] c
next_mode (low negated ranges) c = at_low negated ranges c
next_mode (low_escaped negated ranges) c = go (behind_low negated ranges c)
next_mode (behind_low negated ranges lo) c =
    if c == b'-' then go (high negated ranges lo) else at_low negated (ranges ++ (lo, lo) ∷ []) c
next_mode (high negated ranges lo) c =
    if closing c
    then none
    else if c == backslash
    then go (high_escaped negated ranges lo)
    else go (low negated (ranges ++ (lo, c) ∷ []))
next_mode (high_escaped negated ranges lo) c = go (low negated (ranges ++ (lo, c) ∷ []))

abbrev at_end : Mode → Option (List PathPiece)
at_end outside = some []
at_end _ = none

abbrev with_rest : Next → (Mode → Option (List PathPiece)) → Option (List PathPiece)
with_rest none rest = none
with_rest (some (m, pieces)) rest = Option.map (λ more. pieces ++ more) (rest m)

-- The pieces of a pattern, `none` where it is malformed.
unfoldable pub read_pattern : Mode → Text → Option (List PathPiece)
unfolding next_mode
read_pattern m [] = at_end m
read_pattern m (c ∷ s) = with_rest (next_mode m c) (λ m'. read_pattern m' s)

unfoldable pub in_ranges : List (ℕ × ℕ) → ℕ → Bool
in_ranges [] c = false
in_ranges ((lo, hi) ∷ rs) c = (leb lo c && leb c hi) || in_ranges rs c

abbrev same_flag : Bool → Bool → Bool
same_flag true b = b
same_flag false b = not b

-- A run of characters that pass a test, and then what follows.
unfoldable pub star_where : (ℕ → Bool) → (Text → Bool) → Text → Bool
star_where passes k [] = k []
star_where passes k (c ∷ s) = k (c ∷ s) || (passes c && star_where passes k s)

abbrev pub not_slash : ℕ → Bool
not_slash c = not (c == slash)

abbrev next_char : (ℕ → Bool) → (Text → Bool) → Text → Bool
next_char passes k [] = false
next_char passes k (c ∷ s) = passes c && k s

unfoldable pub match_path : List PathPiece → Text → Bool
unfolding star_where in_ranges
match_path [] [] = true
match_path [] (c ∷ s) = false
match_path (run ∷ p) s = star_where not_slash (match_path p) s
match_path (one ∷ p) s = next_char not_slash (match_path p) s
match_path (char a ∷ p) s = next_char (λ c. a == c) (match_path p) s
match_path (class negated ranges ∷ p) s =
    next_char (λ c. not (same_flag negated (in_ranges ranges c))) (match_path p) s

abbrev matched : Option (List PathPiece) → Text → Bool
matched none name = false
matched (some pieces) name = match_path pieces name

-- The first result of `filepath.Match`.
unfoldable pub file_path_match : Text → Text → Bool
unfolding match_path read_pattern
file_path_match pattern name = matched (read_pattern outside pattern) name
