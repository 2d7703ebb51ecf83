-- ===== src/Diff/Hunks/Emptiness.antt =====
-- When there is no difference to show (src/diff.go: unifiedDiff, groupHunks).
use mathlib.Core.Path.{subst⁻¹}
use collectif.Common.{
  ℕ, suc, ◌+◌, ◌-◌, ◌≡◌, ◌≢◌, refl, sym, ap, ◌∙◌, ◌↔◌, false, Bool-cases, inl, inr, List, [], ◌∷◌,
  ◌++◌, map, length, take, drop, take-nil, leb,
}
use collectif.Text.{Text}
use collectif.Diff.Lines.{
  DiffLine, line_eq_iff, split_diff_lines, join_lines, join_lines-split_diff_lines,
}
use collectif.Diff.Script.{
  DiffOp, context, removed, added, common_prefix, common_suffix, diff_middle, diff_ops,
}
use collectif.Diff.Script.Sides.{old_side, new_side, diff_ops-Leads}
use collectif.Diff.Hunks.{
  DiffHunk, is_change, changed_from, hunk_ranges, ranges_of, hunks_of, context_end, diff_context,
  group_hunks, running, in_old, in_new, rendered, unified_diff,
}

-- A script with no change in it.
abbrev Unchanged : List DiffOp → Type 0
Unchanged [] = Unit
Unchanged (o ∷ ops) = (is_change o ≡ false) × Unchanged ops

Unchanged-append : (xs ys : List DiffOp) → Unchanged xs → Unchanged ys → Unchanged (xs ++ ys)
Unchanged-append [] ys h k = k
Unchanged-append (x ∷ xs) ys (h, hs) k = (h, Unchanged-append xs ys hs k)

Unchanged-context : (a : List DiffLine) → Unchanged (map context a)
Unchanged-context [] = tt
Unchanged-context (x ∷ a) = (refl, Unchanged-context a)

Unchanged-sides : (ops : List DiffOp) → Unchanged ops → old_side ops ≡ new_side ops
unfolding old_side new_side
Unchanged-sides [] h = refl
Unchanged-sides (context l ∷ ops) (_, h) = ap (◌∷◌ l) (Unchanged-sides ops h)
Unchanged-sides (removed l ∷ ops) (c, h) = absurd (cc)
Unchanged-sides (added l ∷ ops) (c, h) = absurd (cc)

changed_from-Unchanged : (i : ℕ) (ops : List DiffOp) → Unchanged ops → changed_from i ops ≡ []
unfolding changed_from
changed_from-Unchanged i [] h = refl
changed_from-Unchanged i (o ∷ ops) (c, h) = rw c (changed_from-Unchanged (i + 1) ops h)

changed_from-nil : (i : ℕ) (ops : List DiffOp) → changed_from i ops ≡ [] → Unchanged ops
unfolding changed_from
changed_from-nil i [] h = tt
changed_from-nil i (context l ∷ ops) h = (refl, changed_from-nil (i + 1) ops h)
changed_from-nil i (removed l ∷ ops) h = absurd (cc)
changed_from-nil i (added l ∷ ops) h = absurd (cc)

hunk_ranges-cons :
    (old_no new_no : List ℕ) (total start stop : ℕ) (is : List ℕ)
    → hunks_of old_no new_no (hunk_ranges total start stop is) ≢ []
unfolding hunk_ranges
hunk_ranges-cons old_no new_no total start stop [] h = cc
hunk_ranges-cons old_no new_no total start stop (i ∷ is) h =
    elim (Bool-cases (leb (i - diff_context) stop)) [
      | inl near ↦
          hunk_ranges-cons old_no new_no total start (context_end total i) is
            (sym (rw (hunk_ranges, near) refl) ∙ h)
      | inr far ↦
          let first : hunk_ranges total start stop (i ∷ is)
              ≡ (start, stop) ∷ hunk_ranges total (i - diff_context) (context_end total i) is =
            rw (hunk_ranges, far) refl in
          let none_left : hunks_of old_no new_no
                ((start, stop) ∷ hunk_ranges total (i - diff_context) (context_end total i) is)
              ≡ [] =
            ap (hunks_of old_no new_no) (sym first) ∙ h in
          cc
    ]

ranges_of-nil :
    (old_no new_no : List ℕ) (total : ℕ) (is : List ℕ)
    → hunks_of old_no new_no (ranges_of total is) ≡ []
    → is ≡ []
ranges_of-nil old_no new_no total [] h = refl
ranges_of-nil old_no new_no total (i ∷ is) h =
    absurd (hunk_ranges-cons old_no new_no total (i - diff_context) (context_end total i) is h)

group_hunks-nil : (ops : List DiffOp) → group_hunks ops ≡ [] → Unchanged ops
unfolding group_hunks
group_hunks-nil ops h = changed_from-nil 0 ops (
    ranges_of-nil (running in_old 0 ops) (running in_new 0 ops) (length ops) (changed_from 0 ops) h)

group_hunks-Unchanged : (ops : List DiffOp) → Unchanged ops → group_hunks ops ≡ []
unfolding group_hunks
group_hunks-Unchanged ops h =
    ap (λ is. hunks_of (running in_old 0 ops) (running in_new 0 ops) (ranges_of (length ops) is))
      (changed_from-Unchanged 0 ops h)

common_prefix_self : (a : List DiffLine) → common_prefix a a ≡ length a
unfolding common_prefix
common_prefix_self [] = refl
common_prefix_self (x ∷ a) = rw ((line_eq_iff x x).1 refl) (ap suc (common_prefix_self a))

drop_all {ℓ} : {A : Type ℓ} (xs : List A) → drop (length xs) xs ≡ []
drop_all [] = refl
drop_all (x ∷ xs) = drop_all xs

diff_middle_nil : (i j : ℕ) → diff_middle (take i []) (take j []) ≡ []
unfolding diff_middle
diff_middle_nil i j = rw (take-nil {A = DiffLine} i, take-nil {A = DiffLine} j) refl

-- With the whole list in front, nothing is left in the middle.
Unchanged-self : (a : List DiffLine) → Unchanged (diff_ops a a)
unfolding diff_ops
Unchanged-self a =
    let p : ℕ = common_prefix a a in
    let cut : ℕ = length a - common_suffix p a a in
    let nothing : drop p a ≡ [] = ap (λ n. drop n a) (common_prefix_self a) ∙ drop_all a in
    let middle : diff_middle (take (cut - p) (drop p a)) (take (cut - p) (drop p a)) ≡ [] =
      ap (λ l. diff_middle (take (cut - p) l) (take (cut - p) l)) nothing
      ∙ diff_middle_nil (cut - p) (cut - p) in
    Unchanged-append
      (map context (take p a)
        ++ diff_middle (take (cut - p) (drop p a)) (take (cut - p) (drop p a)))
      (map context (drop cut a))
      (Unchanged-append (map context (take p a))
        (diff_middle (take (cut - p) (drop p a)) (take (cut - p) (drop p a)))
        (Unchanged-context (take p a)) (subst⁻¹ Unchanged middle tt))
      (Unchanged-context (drop cut a))

unified_diff-same : (path text : Text) → unified_diff path text text ≡ []
unfolding unified_diff
unified_diff-same path text =
    ap (λ hs. rendered path hs (diff_ops (split_diff_lines text) (split_diff_lines text)))
      (group_hunks-Unchanged (diff_ops (split_diff_lines text) (split_diff_lines text))
        (Unchanged-self (split_diff_lines text)))

rendered-nil :
    (path : Text) (hs : List DiffHunk) (ops : List DiffOp) → rendered path hs ops ≡ [] → hs ≡ []
rendered-nil path [] ops h = refl
rendered-nil path (x ∷ hs) ops h = absurd (cc)

unified_diff-nil : (path old next : Text) → unified_diff path old next ≡ [] → old ≡ next
unfolding unified_diff
unified_diff-nil path old next h =
    let a : List DiffLine = split_diff_lines old in
    let b : List DiffLine = split_diff_lines next in
    let (from_old, to_new) = diff_ops-Leads a b in
    let same : a ≡ b =
      sym from_old
      ∙ Unchanged-sides (diff_ops a b) (
          group_hunks-nil (diff_ops a b)
            (rendered-nil path (group_hunks (diff_ops a b)) (diff_ops a b) h))
      ∙ to_new in
    sym (join_lines-split_diff_lines old) ∙ ap join_lines same ∙ join_lines-split_diff_lines next

-- The diff of two texts is empty if and only if they are the same, a newline at the end included.
pub unified_diff-nil_iff : (path old next : Text) → (unified_diff path old next ≡ []) ↔ (old ≡ next)
unified_diff-nil_iff path old next = (
  unified_diff-nil path old next,
  λ e. ap (λ text. unified_diff path old text) (sym e) ∙ unified_diff-same path old,
)
