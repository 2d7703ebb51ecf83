-- ===== src/Tools/ReadLines/Range.antt =====
-- Which lines the read tool gives (src/tools_fs.go: readTool.Run).
use collectif.Common.{
  ℕ, zero, suc, ◌+◌, ◌-◌, ◌≤◌, ◌<◌, ◌≡◌, ◌↔◌, refl, sym, ap, true, false, ◌&&◌, ◌||◌, Bool-cases,
  inl, inr, none, some, List, [], ◌∷◌, ltb, leb, arith, length, drop, take, length-drop,
  if◌then◌else◌,
}
use collectif.Text.{Text}
use collectif.Tools.ReadLines.{
  first_negative, start_of, wrap, signed_ltb, end_of, slice_lines, sliced, read_lines,
}

take-all : (n : ℕ) (xs : List Text) → length xs ≤ n → take n xs ≡ xs
take-all zero [] h = refl
take-all zero (x ∷ xs) h = absurd (omega arith)
take-all (suc n) [] h = refl
take-all (suc n) (x ∷ xs) h = ap (◌∷◌ x) (take-all n xs (omega arith))

drop-all : (n : ℕ) (xs : List Text) → length xs ≤ n → drop n xs ≡ []
drop-all zero [] h = refl
drop-all zero (x ∷ xs) h = absurd (omega arith)
drop-all (suc n) [] h = refl
drop-all (suc n) (x ∷ xs) h = drop-all n xs (omega arith)

-- What is asked for: the lines from the offset on, counted from 1, and no more than the limit, where
-- there is one.
abbrev pub asked_lines : ℕ → ℕ → List Text → List Text
asked_lines offset limit lines =
    if ltb 0 limit then take limit (drop (offset - 1) lines) else drop (offset - 1) lines

take-rest : (start : ℕ) (xs : List Text) → take (length xs - start) (drop start xs) ≡ drop start xs
take-rest start xs =
    take-all (length xs - start) (drop start xs) (omega (arith, length-drop start xs))

-- Numbers of 64 bits.
wrap-small : (n : ℕ) → n < 18446744073709551616 → wrap n ≡ n
wrap-small n h = omega arith

signed_ltb-positive : (a b : ℕ) → a < first_negative → b < first_negative → signed_ltb a b ≡ ltb a b
unfolding signed_ltb
signed_ltb-positive a b small_a small_b =
    rw
      (wrap-small (a + first_negative) (omega arith), wrap-small (b + first_negative) (omega arith))
      (ground arith)

signed_ltb-negative :
    (a b : ℕ)
    → first_negative ≤ a
    → a < 18446744073709551616
    → b < first_negative
    → signed_ltb a b ≡ true
unfolding signed_ltb
signed_ltb-negative a b negative small_a small_b =
    let over : wrap (a + first_negative) ≡ a - first_negative = omega arith in
    rw (over, wrap-small (b + first_negative) (omega arith)) (ground arith)

-- The end of the slice, where the sum does not wrap to a negative number, and where it does.
end_of-positive :
    (start limit total : ℕ)
    → start + limit < first_negative
    → total < first_negative
    → end_of start limit total
      ≡ (if ltb 0 limit && ltb (start + limit) total then start + limit else total)
unfolding end_of
end_of-positive start limit total small_sum small_total =
    rw
      (
        wrap-small (start + limit) (omega arith),
        signed_ltb-positive (start + limit) total small_sum small_total,
      )
      refl

end_of-negative :
    (start limit total : ℕ)
    → 1 ≤ limit
    → first_negative ≤ start + limit
    → start + limit < 18446744073709551616
    → total < first_negative
    → end_of start limit total ≡ start + limit
unfolding end_of
end_of-negative start limit total some_limit over small_sum small_total =
    let positive : ltb 0 limit ≡ true = ground arith in
    rw
      (
        wrap-small (start + limit) small_sum,
        signed_ltb-negative (start + limit) total over small_sum small_total,
        positive,
      )
      refl

slice_lines-within :
    (start end : ℕ) (lines : List Text)
    → start ≤ end
    → end ≤ length lines
    → length lines < first_negative
    → slice_lines start end lines ≡ some (take (end - start) (drop start lines))
unfolding slice_lines
slice_lines-within start end lines ordered within small =
    let whole : leb first_negative end ≡ false = ground arith in
    let not_behind : ltb (length lines) end ≡ false = ground arith in
    let not_before : ltb end start ≡ false = ground arith in rw (whole, not_behind, not_before) refl

slice_lines-negative :
    (start end : ℕ) (lines : List Text) → first_negative ≤ end → slice_lines start end lines ≡ none
unfolding slice_lines
slice_lines-negative start end lines negative =
    let over : leb first_negative end ≡ true = ground arith in rw over refl

-- The slice from a start within the lines.
sliced-within :
    (start limit : ℕ) (lines : List Text)
    → start + limit < first_negative
    → length lines < first_negative
    → start ≤ length lines
    → sliced start limit lines
      ≡ some (if ltb 0 limit then take limit (drop start lines) else drop start lines)
sliced-within start limit lines small_sum small within =
    rw (end_of-positive start limit (length lines) small_sum small)
      (elim (Bool-cases (ltb 0 limit)) [
        | inl e ↦ elim (Bool-cases (ltb (start + limit) (length lines))) [
          | inl cut ↦
              let width : start + limit - start ≡ limit = omega arith in
              rw
                (
                  e,
                  cut,
                  slice_lines-within start (start + limit) lines (omega arith) (ground arith) small,
                  width,
                )
                refl
          | inr rest ↦
              rw
                (
                  e,
                  rest,
                  slice_lines-within start (length lines) lines within (omega arith) small,
                  take-rest start lines,
                )
                (ap some (
                  sym
                    (take-all limit (drop start lines) (ground (arith, length-drop start lines)))))
        ]
        | inr e ↦
            rw
              (
                e,
                slice_lines-within start (length lines) lines within (omega arith) small,
                take-rest start lines,
              )
              refl
      ])

sliced-asked_lines :
    (offset limit : ℕ) (lines : List Text)
    → length lines + limit < first_negative
    → sliced (start_of offset (length lines)) limit lines ≡ some (asked_lines offset limit lines)
sliced-asked_lines offset limit lines h = elim (Bool-cases (ltb (length lines) (offset - 1))) [
  | inl past ↦
      rw
        (
          past,
          sliced-within (length lines) limit lines h (omega arith) (omega arith),
          drop-all (length lines) lines (omega arith),
          drop-all (offset - 1) lines (ground arith),
        )
        refl
  | inr within ↦
      rw within (sliced-within (offset - 1) limit lines (ground arith) (omega arith) (ground arith))
]

-- Where the limit and the number of lines together stay below 2^63, the slicing does not panic and gives the lines that
-- were asked for, also where they lie behind the end of the file.
pub read_lines-asked_lines :
    (offset limit : ℕ) (lines : List Text)
    → length lines + limit < first_negative
    → read_lines offset limit lines ≡ some (asked_lines offset limit lines)
unfolding read_lines
read_lines-asked_lines offset limit lines h = elim (Bool-cases (ltb 0 offset || ltb 0 limit)) [
  | inl e ↦ rw e (sliced-asked_lines offset limit lines h)
  | inr e ↦
      let no_limit : ltb 0 limit ≡ false = ground arith in
      let no_offset : offset ≡ 0 = ground arith in rw (no_limit, no_offset) refl
]

sliced-none_iff :
    (start limit : ℕ) (lines : List Text)
    → start ≤ length lines
    → limit < first_negative
    → length lines < first_negative
    → (sliced start limit lines ≡ none) ↔ ((1 ≤ limit) × (first_negative ≤ start + limit))
sliced-none_iff start limit lines within small_limit small =
    elim (Bool-cases (ltb (start + limit) first_negative)) [
      | inl e ↦
          rw (sliced-within start limit lines (ground arith) small within)
            (λ h. absurd (cc), λ (some_limit, over). absurd (ground arith))
      | inr e ↦
          let over : first_negative ≤ start + limit = ground arith in
          let some_limit : 1 ≤ limit = omega arith in
          rw
            (
              end_of-negative start limit (length lines) some_limit over (omega arith) small,
              slice_lines-negative start (start + limit) lines over,
            )
            (λ h. (some_limit, over), λ h. refl)
    ]

start_of-within : (offset total : ℕ) → start_of offset total ≤ total
start_of-within offset total = elim (Bool-cases (ltb total (offset - 1))) [
  | inl e ↦ rw e (omega arith)
  | inr e ↦ rw e (ground arith)
]

-- For a limit and a number of lines below 2^63, the slicing panics exactly where there is a limit and
-- the sum of it and the start, which is cut at the number of lines, is 2^63 or more.
pub read_lines-none_iff :
    (offset limit : ℕ) (lines : List Text)
    → limit < first_negative
    → length lines < first_negative
    → (read_lines offset limit lines ≡ none)
      ↔ ((1 ≤ limit) × (first_negative ≤ start_of offset (length lines) + limit))
unfolding read_lines
read_lines-none_iff offset limit lines small_limit small =
    elim (Bool-cases (ltb 0 offset || ltb 0 limit)) [
      | inl e ↦ rw e (
          sliced-none_iff (start_of offset (length lines)) limit lines
            (start_of-within offset (length lines)) small_limit small)
      | inr e ↦ rw e (λ h. absurd (cc), λ (some_limit, over). absurd (ground arith))
    ]
