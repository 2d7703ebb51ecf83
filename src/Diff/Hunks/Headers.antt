-- ===== src/Diff/Hunks/Headers.antt =====
-- The numbers of a hunk's header (src/diff.go: newHunk, groupHunks).
use collectif.Common.{
  ℕ, zero, suc, ◌+◌, ◌-◌, ◌≤◌, ◌<◌, ◌≡◌, refl, sym, ap, ◌∙◌, Bool, Bool-cases, inl, inr, List, [],
  ◌∷◌, arith, length, take-nil, take, drop, get_elem?, leb, if◌then◌else◌,
}
use collectif.Diff.Script.{DiffOp, context, removed, added}
use collectif.Diff.Script.Sides.{old_side, new_side}
use collectif.Diff.Hunks.{
  DiffHunk, is_change, in_old, in_new, changed_from, running, number_at, first_line, new_hunk,
  context_end, diff_context, hunk_ranges, ranges_of, hunks_of, group_hunks,
}

abbrev tally : (DiffOp → Bool) → List DiffOp → ℕ
tally counts [] = 0
tally counts (o ∷ ops) = let rest = tally counts ops in if counts o then rest + 1 else rest

length-old_side : (ops : List DiffOp) → length (old_side ops) ≡ tally in_old ops
unfolding old_side
length-old_side [] = refl
length-old_side (context l ∷ ops) = omega (arith, length-old_side ops)
length-old_side (removed l ∷ ops) = omega (arith, length-old_side ops)
length-old_side (added l ∷ ops) = length-old_side ops

length-new_side : (ops : List DiffOp) → length (new_side ops) ≡ tally in_new ops
unfolding new_side
length-new_side [] = refl
length-new_side (context l ∷ ops) = omega (arith, length-new_side ops)
length-new_side (removed l ∷ ops) = length-new_side ops
length-new_side (added l ∷ ops) = omega (arith, length-new_side ops)

module _ (counts : DiffOp → Bool) where
  running_at :
      (n i : ℕ) (ops : List DiffOp)
      → i ≤ length ops
      → number_at (get_elem? (running counts n ops) i) ≡ n + tally counts (take i ops)
  unfolding running
  running_at n zero [] h = omega arith
  running_at n (suc i) [] h = absurd (omega (arith, h))
  running_at n zero (o ∷ ops) h = omega arith
  running_at n (suc i) (o ∷ ops) h = ground (arith, running_at n i ops, running_at (n + 1) i ops)

  tally_between :
      (m k : ℕ) (ops : List DiffOp)
      → m ≤ k
      → tally counts (take k ops)
        ≡ tally counts (take m ops) + tally counts (take (k - m) (drop m ops))
  tally_between zero k ops h =
      let whole : k ≡ k - 0 = omega arith in ap (λ n. tally counts (take n ops)) whole ∙ omega arith
  tally_between (suc m) zero ops h = absurd (omega (arith, h))
  tally_between (suc m) (suc k) [] h =
      let none_left : 0 ≡ tally counts (take (suc k - suc m) []) =
        ap (tally counts) (sym (take-nil (suc k - suc m))) in
      omega (arith, none_left)
  tally_between (suc m) (suc k) (o ∷ ops) h =
      let shift : suc k - suc m ≡ k - m = omega arith in
      let rest : tally counts (take k ops)
          ≡ tally counts (take m ops) + tally counts (take (suc k - suc m) (drop m ops)) =
        tally_between m k ops (omega (arith, h))
        ∙ ap (λ n. tally counts (take m ops) + tally counts (take n (drop m ops))) (sym shift) in
      ground (arith, rest)

-- A header that says what its hunk shows: so many lines of either file, from the line behind those
-- before it, or, where there are none, that line itself.
pub record IsTrue (ops : List DiffOp) (h : DiffHunk) : Type 0 where
  pub ordered : h.from_op ≤ h.to_op
  pub inside : h.to_op ≤ length ops
  pub old_lines : h.old_count ≡ length (old_side (take (h.to_op - h.from_op) (drop h.from_op ops)))
  pub new_lines : h.new_count ≡ length (new_side (take (h.to_op - h.from_op) (drop h.from_op ops)))
  pub old_first : h.old_start ≡ first_line (length (old_side (take h.from_op ops))) h.old_count
  pub new_first : h.new_start ≡ first_line (length (new_side (take h.from_op ops))) h.new_count

abbrev pub AllTrue : List DiffOp → List DiffHunk → Type 0
AllTrue ops [] = Unit
AllTrue ops (h ∷ hs) = IsTrue ops h × AllTrue ops hs

count_between :
    (counts : DiffOp → Bool) (i j : ℕ) (ops : List DiffOp)
    → i ≤ j
    → j ≤ length ops
    → number_at (get_elem? (running counts 0 ops) j)
        - number_at (get_elem? (running counts 0 ops) i)
      ≡ tally counts (take (j - i) (drop i ops))
count_between counts i j ops h k = omega (
  arith,
  running_at counts 0 i ops (omega (arith, h, k)),
  running_at counts 0 j ops k,
  tally_between counts i j ops h,
)

old_before :
    (i : ℕ) (ops : List DiffOp)
    → i ≤ length ops
    → number_at (get_elem? (running in_old 0 ops) i) ≡ length (old_side (take i ops))
old_before i ops h = omega (arith, running_at in_old 0 i ops h, length-old_side (take i ops))

new_before :
    (i : ℕ) (ops : List DiffOp)
    → i ≤ length ops
    → number_at (get_elem? (running in_new 0 ops) i) ≡ length (new_side (take i ops))
new_before i ops h = omega (arith, running_at in_new 0 i ops h, length-new_side (take i ops))

new_hunk-IsTrue :
    (i j : ℕ) (ops : List DiffOp)
    → i ≤ j
    → j ≤ length ops
    → IsTrue ops (new_hunk i j (running in_old 0 ops) (running in_new 0 ops))
unfolding new_hunk
new_hunk-IsTrue i j ops h k = record {
  ordered = h;
  inside = k;
  old_lines = count_between in_old i j ops h k ∙ sym (length-old_side _);
  new_lines = count_between in_new i j ops h k ∙ sym (length-new_side _);
  old_first =
      ap
        (λ n. first_line n (
          number_at (get_elem? (running in_old 0 ops) j)
          - number_at (get_elem? (running in_old 0 ops) i)))
        (old_before i ops (omega (arith, h, k)));
  new_first =
      ap
        (λ n. first_line n (
          number_at (get_elem? (running in_new 0 ops) j)
          - number_at (get_elem? (running in_new 0 ops) i)))
        (new_before i ops (omega (arith, h, k)));
}

-- Indices in ascending order, from one on and below another.
abbrev pub Ascending : ℕ → ℕ → List ℕ → Type 0
Ascending low total [] = Unit
Ascending low total (i ∷ is) = (low ≤ i) × (i < total) × Ascending (i + 1) total is

Ascending-weaken :
    (low low' total : ℕ) (is : List ℕ)
    → low ≤ low'
    → Ascending low' total is
    → Ascending low total is
Ascending-weaken low low' total [] h a = tt
Ascending-weaken low low' total (i ∷ is) h (l, u, a) = (omega (arith, h, l), u, a)

pub changed_from-Ascending :
    (i total : ℕ) (ops : List DiffOp)
    → i + length ops ≤ total
    → Ascending i total (changed_from i ops)
unfolding changed_from
changed_from-Ascending i total [] h = tt
changed_from-Ascending i total (o ∷ ops) h =
    let rest : Ascending (i + 1) total (changed_from (i + 1) ops) =
      changed_from-Ascending (i + 1) total ops (omega (arith, h)) in
    elim (Bool-cases (is_change o)) [
      | inl change ↦ rw change (omega arith, omega (arith, h), rest)
      | inr same ↦
          rw same (Ascending-weaken i (i + 1) total (changed_from (i + 1) ops) (omega arith) rest)
    ]

hunk_ranges-IsTrue :
    (ops : List DiffOp) (start stop low : ℕ) (is : List ℕ)
    → start ≤ stop
    → stop ≤ length ops
    → start ≤ low
    → Ascending low (length ops) is
    → AllTrue ops (
        hunks_of
          (running in_old 0 ops)
          (running in_new 0 ops)
          (hunk_ranges (length ops) start stop is))
unfolding hunk_ranges
hunk_ranges-IsTrue ops start stop low [] h k l a = (new_hunk-IsTrue start stop ops h k, tt)
hunk_ranges-IsTrue ops start stop low (i ∷ is) h k l (li, iu, a) =
    elim (Bool-cases (leb (i - diff_context) stop)) [
      | inl near ↦
          rw (hunk_ranges, near)
            (hunk_ranges-IsTrue ops start (context_end (length ops) i) (i + 1) is
              (omega (arith, l, li, iu, h, k)) (omega arith) (omega (arith, l, li)) a)
      | inr far ↦
          rw (hunk_ranges, far)
            (
              new_hunk-IsTrue start stop ops h k,
              hunk_ranges-IsTrue ops (i - diff_context) (context_end (length ops) i) (i + 1) is
                  (omega (arith, iu)) (omega arith) (omega arith) a,
            )
    ]

ranges_of-IsTrue :
    (ops : List DiffOp) (is : List ℕ)
    → Ascending 0 (length ops) is
    → AllTrue ops
        (hunks_of (running in_old 0 ops) (running in_new 0 ops) (ranges_of (length ops) is))
ranges_of-IsTrue ops [] a = tt
ranges_of-IsTrue ops (i ∷ is) (_, u, a) =
    hunk_ranges-IsTrue ops (i - diff_context) (context_end (length ops) i) (i + 1) is
      (omega (arith, u)) (omega arith) (omega arith) a

-- The header of each hunk of a script is true: it gives the numbers of the old and of the new lines
-- that the hunk shows, and for either file the place behind the lines in front of the hunk.
pub group_hunks-AllTrue : (ops : List DiffOp) → AllTrue ops (group_hunks ops)
unfolding group_hunks
group_hunks-AllTrue ops =
    ranges_of-IsTrue ops (changed_from 0 ops)
      (changed_from-Ascending 0 (length ops) ops (omega arith))
