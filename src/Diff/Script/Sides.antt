-- ===== src/Diff/Script/Sides.antt =====
-- What the edit script makes of its two sides (src/diff.go: diffOps, diffMiddle).
use collectif.Common.{
  ℕ, suc, ◌+◌, ◌-◌, ◌≤◌, ◌≡◌, refl, sym, ap, ◌∙◌, Bool, true, false, Bool-cases, inl, inr, List, [],
  ◌∷◌, ◌++◌, map, arith, length, take, drop, take-append-drop, drop-drop, length-drop,
  length-reverse, drop-reverse, leb, if◌then◌else◌,
}
use mathlib.Core.List.{reverse, append_assoc, append-nil}
use collectif.Diff.Lines.{DiffLine, line_eq, line_eq_iff}
use collectif.Diff.Script.{
  DiffOp, context, removed, added, common_prefix, common_suffix, lcs_at, walk, lcs_table,
  diff_middle, diff_ops,
}

-- The lines that a script is read from, and those that it leads to.
unfoldable pub old_side : List DiffOp → List DiffLine
old_side [] = []
old_side (context l ∷ ops) = l ∷ old_side ops
old_side (removed l ∷ ops) = l ∷ old_side ops
old_side (added l ∷ ops) = old_side ops

unfoldable pub new_side : List DiffOp → List DiffLine
new_side [] = []
new_side (context l ∷ ops) = l ∷ new_side ops
new_side (removed l ∷ ops) = new_side ops
new_side (added l ∷ ops) = l ∷ new_side ops

old_side-append : (xs ys : List DiffOp) → old_side (xs ++ ys) ≡ old_side xs ++ old_side ys
unfolding old_side
old_side-append [] ys = refl
old_side-append (context l ∷ xs) ys = ap (◌∷◌ l) (old_side-append xs ys)
old_side-append (removed l ∷ xs) ys = ap (◌∷◌ l) (old_side-append xs ys)
old_side-append (added l ∷ xs) ys = old_side-append xs ys

new_side-append : (xs ys : List DiffOp) → new_side (xs ++ ys) ≡ new_side xs ++ new_side ys
unfolding new_side
new_side-append [] ys = refl
new_side-append (context l ∷ xs) ys = ap (◌∷◌ l) (new_side-append xs ys)
new_side-append (removed l ∷ xs) ys = new_side-append xs ys
new_side-append (added l ∷ xs) ys = ap (◌∷◌ l) (new_side-append xs ys)

-- Both sides of a script.
abbrev pub Leads : List DiffOp → List DiffLine → List DiffLine → Type 0
Leads ops a b = (old_side ops ≡ a) × (new_side ops ≡ b)

append-Leads :
    (xs ys : List DiffOp) (a b c d : List DiffLine)
    → Leads xs a b
    → Leads ys c d
    → Leads (xs ++ ys) (a ++ c) (b ++ d)
append-Leads xs ys a b c d (h, k) (h', k') = (
  old_side-append xs ys ∙ ap (λ s. s ++ old_side ys) h ∙ ap (λ s. a ++ s) h',
  new_side-append xs ys ∙ ap (λ s. s ++ new_side ys) k ∙ ap (λ s. b ++ s) k',
)

context-Leads : (a : List DiffLine) → Leads (map context a) a a
unfolding old_side new_side
context-Leads [] = (refl, refl)
context-Leads (x ∷ a) = let (h, k) = context-Leads a in (ap (◌∷◌ x) h, ap (◌∷◌ x) k)

removed-Leads : (a : List DiffLine) → Leads (map removed a) a []
unfolding old_side new_side
removed-Leads [] = (refl, refl)
removed-Leads (x ∷ a) = let (h, k) = removed-Leads a in (ap (◌∷◌ x) h, k)

added-Leads : (b : List DiffLine) → Leads (map added b) [] b
unfolding old_side new_side
added-Leads [] = (refl, refl)
added-Leads (y ∷ b) = let (h, k) = added-Leads b in (h, ap (◌∷◌ y) k)

module _ (x : DiffLine) (ops : List DiffOp) (a b : List DiffLine) where
  removed_first : Leads ops a b → Leads (removed x ∷ ops) (x ∷ a) b
  unfolding old_side new_side
  removed_first (h, k) = (ap (◌∷◌ x) h, k)

  added_first : Leads ops a b → Leads (added x ∷ ops) a (x ∷ b)
  unfolding old_side new_side
  added_first (h, k) = (h, ap (◌∷◌ x) k)

context_first :
    (x y : DiffLine) (ops : List DiffOp) (a b : List DiffLine)
    → x ≡ y
    → Leads ops a b
    → Leads (context x ∷ ops) (x ∷ a) (y ∷ b)
unfolding old_side new_side
context_first x y ops a b e (h, k) = (ap (◌∷◌ x) h, ap (◌∷◌ x) k ∙ ap (λ l. l ∷ b) e)

walk-Leads : (t : List (List ℕ)) (i j : ℕ) (a b : List DiffLine) → Leads (walk t i j a b) a b
unfolding walk
walk-Leads t i j [] b = added-Leads b
walk-Leads t i j (x ∷ a) [] = removed-Leads (x ∷ a)
walk-Leads t i j (x ∷ a) (y ∷ b) = elim (Bool-cases (line_eq x y)) [
  | inl same ↦
      rw (walk, same)
        (context_first x y _ a b ((line_eq_iff x y).0 same) (walk-Leads t (suc i) (suc j) a b))
  | inr other ↦ elim (Bool-cases (leb (lcs_at t i (suc j)) (lcs_at t (suc i) j))) [
    | inl down ↦
        rw (walk, other, down) (removed_first x _ a (y ∷ b) (walk-Leads t (suc i) j a (y ∷ b)))
    | inr right ↦
        rw (walk, other, right) (added_first y _ (x ∷ a) b (walk-Leads t i (suc j) (x ∷ a) b))
  ]
]

middle_if-Leads :
    (big : Bool) (t : List (List ℕ)) (a b : List DiffLine)
    → Leads (if big then map removed a ++ map added b else walk t 0 0 a b) a b
middle_if-Leads true t a b =
    let (h, k) =
      append-Leads (map removed a) (map added b) a [] [] b (removed-Leads a) (added-Leads b) in
    (h ∙ append-nil a, k)
middle_if-Leads false t a b = walk-Leads t 0 0 a b

diff_middle-Leads : (a b : List DiffLine) → Leads (diff_middle a b) a b
unfolding diff_middle
diff_middle-Leads a b = middle_if-Leads _ (lcs_table a b) a b

take-common_prefix : (a b : List DiffLine) → take (common_prefix a b) a ≡ take (common_prefix a b) b
unfolding common_prefix
take-common_prefix [] b = refl
take-common_prefix (x ∷ a) [] = refl
take-common_prefix (x ∷ a) (y ∷ b) = elim (Bool-cases (line_eq x y)) [
  | inl same ↦ rw same (
      ap (λ l. l ∷ take (common_prefix a b) a) ((line_eq_iff x y).0 same)
      ∙ ap (◌∷◌ y) (take-common_prefix a b))
  | inr other ↦ rw other refl
]

common_prefix_le :
    (a b : List DiffLine) → (common_prefix a b ≤ length a) × (common_prefix a b ≤ length b)
unfolding common_prefix
common_prefix_le [] b = (omega arith, omega arith)
common_prefix_le (x ∷ a) [] = (omega arith, omega arith)
common_prefix_le (x ∷ a) (y ∷ b) =
    let (h, k) = common_prefix_le a b in
    elim (Bool-cases (line_eq x y)) [
      | inl same ↦ rw same (omega (arith, h), omega (arith, k))
      | inr other ↦ rw other (omega arith, omega arith)
    ]

common_suffix_le :
    (n : ℕ) (a b : List DiffLine)
    → (common_suffix n a b ≤ length a - n) × (common_suffix n a b ≤ length b - n)
unfolding common_suffix
common_suffix_le n a b =
    let (h, k) = common_prefix_le (reverse (drop n a)) (reverse (drop n b)) in
    (
      omega (arith, h, length-reverse (drop n a), length-drop n a),
      omega (arith, k, length-reverse (drop n b), length-drop n b),
    )

drop-common_suffix :
    (n : ℕ) (a b : List DiffLine)
    → drop (length (drop n a) - common_suffix n a b) (drop n a)
      ≡ drop (length (drop n b) - common_suffix n a b) (drop n b)
unfolding common_suffix
drop-common_suffix n a b =
    drop-reverse (common_suffix n a b) (drop n a)
    ∙ ap reverse (take-common_prefix (reverse (drop n a)) (reverse (drop n b)))
    ∙ sym (drop-reverse (common_suffix n a b) (drop n b))

-- A list cut at a front and at an end.
drop_rest :
    (p s : ℕ) (a : List DiffLine)
    → p ≤ length a
    → s ≤ length a - p
    → drop (length a - s) a ≡ drop (length (drop p a) - s) (drop p a)
drop_rest p s a h k =
    let place : length a - s ≡ p + (length (drop p a) - s) = omega (arith, h, k, length-drop p a) in
    ap (λ n. drop n a) place ∙ sym (drop-drop p (length (drop p a) - s) a)

three_parts :
    (p s : ℕ) (a : List DiffLine)
    → p ≤ length a
    → s ≤ length a - p
    → take p a ++ take (length a - s - p) (drop p a) ++ drop (length a - s) a ≡ a
three_parts p s a h k =
    let size : length a - s - p ≡ length (drop p a) - s = omega (arith, h, k, length-drop p a) in
    ap (λ l. take p a ++ take (length a - s - p) (drop p a) ++ l) (drop_rest p s a h k)
    ∙ ap (λ n. take p a ++ take n (drop p a) ++ drop (length (drop p a) - s) (drop p a)) size
    ∙ append_assoc (take p a) (take (length (drop p a) - s) (drop p a))
        (drop (length (drop p a) - s) (drop p a))
    ∙ ap (λ l. take p a ++ l) (take-append-drop (length (drop p a) - s) (drop p a))
    ∙ take-append-drop p a

-- The edit script of two files leads from the one to the other, also where the table would be too
-- large and the middle is replaced as a whole: its context and removed lines are the old file, its
-- context and added lines the new one, in order.
pub diff_ops-Leads : (a b : List DiffLine) → Leads (diff_ops a b) a b
unfolding diff_ops
diff_ops-Leads a b =
    let p : ℕ = common_prefix a b in
    let s : ℕ = common_suffix p a b in
    let (pa, pb) = common_prefix_le a b in
    let (sa, sb) = common_suffix_le p a b in
    let mid_a : List DiffLine = take (length a - s - p) (drop p a) in
    let mid_b : List DiffLine = take (length b - s - p) (drop p b) in
    let end_a : List DiffLine = drop (length a - s) a in
    let (h, k) =
      append-Leads (map context (take p a) ++ diff_middle mid_a mid_b) (map context end_a)
        (take p a ++ mid_a) (take p a ++ mid_b) end_a end_a
        (append-Leads (map context (take p a)) (diff_middle mid_a mid_b) (take p a) (take p a) mid_a
          mid_b (context-Leads (take p a)) (diff_middle-Leads mid_a mid_b))
        (context-Leads end_a) in
    (
      h ∙ three_parts p s a pa sa,
      k
          ∙ ap (λ l. l ++ mid_b ++ end_a) (take-common_prefix a b)
          ∙ ap (λ l. take p b ++ mid_b ++ l)
              (drop_rest p s a pa sa ∙ drop-common_suffix p a b ∙ sym (drop_rest p s b pb sb))
          ∙ three_parts p s b pb sb,
    )
