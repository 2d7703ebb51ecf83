-- ===== src/Tools/ReadLines.antt =====
-- The part of a file that the read tool gives (src/tools_fs.go: readTool.Run). Of offset and limit only
-- what is above 0 counts; the sum of two is that of 64 bits with a sign.
pub mod Range
use collectif.Common.{
  ℕ, ◌+◌, ◌-◌, ◌%◌, Bool, true, false, ◌&&◌, ◌||◌, not, Option, none, some, List, ltb, leb, ◌==◌,
  if◌then◌else◌, length, drop, take,
}
use collectif.Text.{Text}

-- 2^63, from which on a sum is negative.
abbrev pub first_negative : ℕ
first_negative = 9223372036854775808

abbrev pub start_of : ℕ → ℕ → ℕ
start_of offset total = let start = offset - 1 in if ltb total start then total else start

-- A sum of 64 bits.
abbrev pub wrap : ℕ → ℕ
wrap n = n % 18446744073709551616

-- `<` on numbers of 64 bits with a sign.
unfoldable pub signed_ltb : ℕ → ℕ → Bool
signed_ltb a b = ltb (wrap (a + first_negative)) (wrap (b + first_negative))

unfoldable pub end_of : ℕ → ℕ → ℕ → ℕ
unfolding signed_ltb
end_of start limit total =
    if ltb 0 limit && signed_ltb (wrap (start + limit)) total then wrap (start + limit) else total

-- `lines[start:end]`, with the check of its bounds: it panics where the end is negative, behind the
-- last line or before the start.
unfoldable pub slice_lines : ℕ → ℕ → List Text → Option (List Text)
slice_lines start end lines =
    if leb first_negative end || (ltb (length lines) end || ltb end start)
    then none
    else some (take (end - start) (drop start lines))

abbrev pub sliced : ℕ → ℕ → List Text → Option (List Text)
sliced start limit lines = slice_lines start (end_of start limit (length lines)) lines

-- `none` where the slicing panics.
unfoldable pub read_lines : ℕ → ℕ → List Text → Option (List Text)
unfolding end_of slice_lines
read_lines offset limit lines =
    if ltb 0 offset || ltb 0 limit
    then sliced (start_of offset (length lines)) limit lines
    else some lines
