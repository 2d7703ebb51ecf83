-- ===== src/Export/Fences.antt =====
-- Fenced blocks (src/nb_export.go: fencedBlock).
use collectif.Common.{
  ℕ, zero, suc, ◌+◌, ◌≤◌, ◌<◌, ◌≡◌, ◌≢◌, ap, true, false, Bool-cases, inl, inr, [], ◌∷◌, ◌++◌, ltb,
  ◌==◌, if◌then◌else◌, arith,
}
use collectif.Text.{Text}

abbrev pub backtick : ℕ
backtick = 96

abbrev larger : ℕ → ℕ → ℕ
larger longest run = if ltb longest run then run else longest

-- The loop, with its `longest` and its `run`.
unfoldable pub longest_from : ℕ → ℕ → Text → ℕ
longest_from longest run [] = longest
longest_from longest run (c ∷ s) = elim (c == backtick) [
  | true ↦ longest_from (larger longest (run + 1)) (run + 1) s
  | false ↦ longest_from longest 0 s
]

-- strings.Repeat("`", n)
unfoldable pub backticks : ℕ → Text
backticks zero = []
backticks (suc n) = backtick ∷ backticks n

unfoldable pub fence_of : Text → Text
unfolding longest_from backticks
fence_of text = let n = longest_from 0 0 text + 1 in backticks (if ltb n 3 then 3 else n)

unfoldable pub fenced_block : Text → Text → Text
unfolding fence_of
fenced_block text lang = fence_of text ++ (lang ++ (10 ∷ (text ++ (10 ∷ fence_of text))))

-- The longest run is at least what was seen so far, and at least any run of the text.
longest_from-seen : (longest run : ℕ) (s : Text) → longest ≤ longest_from longest run s
unfolding longest_from
longest_from-seen longest run [] = omega arith
longest_from-seen longest run (c ∷ s) = elim (Bool-cases (c == backtick)) [
  | inl e ↦
      rw (longest_from, e)
        (ground (arith, longest_from-seen (larger longest (run + 1)) (run + 1) s))
  | inr e ↦ rw (longest_from, e) (longest_from-seen longest 0 s)
]

longest_from-backticks :
    (longest run n : ℕ) (s : Text)
    → run ≤ longest
    → run + n ≤ longest_from longest run (backticks n ++ s)
unfolding longest_from backticks
longest_from-backticks longest run zero s h = omega (arith, longest_from-seen longest run s)
longest_from-backticks longest run (suc n) s h =
    omega (arith, longest_from-backticks (larger longest (run + 1)) (run + 1) n s (ground arith))

longest_from-append :
    (longest run n : ℕ) (before s : Text)
    → run ≤ longest
    → n ≤ longest_from longest run (before ++ (backticks n ++ s))
unfolding longest_from
longest_from-append longest run n [] s h = omega (arith, longest_from-backticks longest run n s h)
longest_from-append longest run n (c ∷ before) s h = elim (Bool-cases (c == backtick)) [
  | inl e ↦
      rw (longest_from, e)
        (longest_from-append (larger longest (run + 1)) (run + 1) n before s (ground arith))
  | inr e ↦ rw (longest_from, e) (longest_from-append longest 0 n before s (omega arith))
]

wider : (n : ℕ) → n < (if ltb (n + 1) 3 then 3 else n + 1)
wider n = ground arith

-- The fence of a block does not occur in the text that it is put around, so that no line of the text
-- closes the block.
pub fence_of-absent : (text before behind : Text) → text ≢ before ++ (fence_of text ++ behind)
unfolding fence_of
fence_of-absent text before behind h =
    let longest : ℕ = longest_from 0 0 text in
    let width : ℕ = if ltb (longest + 1) 3 then 3 else longest + 1 in
    let found : width ≤ longest_from 0 0 (before ++ (backticks width ++ behind)) =
      longest_from-append 0 0 width before behind (omega arith) in
    let same : longest ≡ longest_from 0 0 (before ++ (backticks width ++ behind)) =
      ap (longest_from 0 0) h in
    absurd (omega (arith, wider longest))
