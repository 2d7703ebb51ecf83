-- ===== src/Diff/Hunks/Cover.antt =====
-- Hunks show every change, and are apart (src/diff.go: groupHunks).
use collectif.Common.{
  ℕ, zero, suc, ◌+◌, ◌-◌, ◌≤◌, ◌<◌, ◌≡◌, ap, ◌∙◌, ◌⊎◌, Bool, true, false, Bool-cases, inl, inr,
  Option, none, some, List, [], ◌∷◌, arith, length, get_elem?, leb,
}
use collectif.Diff.Script.{DiffOp}
use collectif.Diff.Hunks.{
  DiffHunk, is_change, in_old, in_new, changed_from, running, new_hunk, context_end, diff_context,
  hunk_ranges, ranges_of, hunks_of, group_hunks,
}
use collectif.Diff.Hunks.Headers.{Ascending, changed_from-Ascending}

abbrev OneOf : ℕ → List ℕ → Type 0
OneOf k [] = ⊥
OneOf k (i ∷ is) = (k ≡ i) ⊎ OneOf k is

abbrev InRange : ℕ → List (ℕ × ℕ) → Type 0
InRange k [] = ⊥
InRange k ((start, stop) ∷ rs) = ((start ≤ k) × (k < stop)) ⊎ InRange k rs

-- An operation is shown in a hunk.
abbrev pub Shown : ℕ → List DiffHunk → Type 0
Shown k [] = ⊥
Shown k (h ∷ hs) = ((h.from_op ≤ k) × (k < h.to_op)) ⊎ Shown k hs

-- Each hunk begins behind the operation that follows the one before it.
abbrev StartsBehind : ℕ → List DiffHunk → Type 0
StartsBehind n [] = Unit
StartsBehind n (h ∷ hs) = n < h.from_op

abbrev pub Apart : List DiffHunk → Type 0
Apart [] = Unit
Apart (h ∷ hs) = StartsBehind h.to_op hs × Apart hs

module _ (total : ℕ) where
  -- The open hunk stays shown.
  open-InRange :
      (k start stop low : ℕ) (is : List ℕ)
      → start ≤ k
      → k < stop
      → stop ≤ context_end total low
      → Ascending low total is
      → InRange k (hunk_ranges total start stop is)
  unfolding hunk_ranges
  open-InRange k start stop low [] s e b a = inl (s, e)
  open-InRange k start stop low (i ∷ is) s e b (l, u, a) =
      elim (Bool-cases (leb (i - diff_context) stop)) [
        | inl near ↦
            rw (hunk_ranges, near)
              (open-InRange k start (context_end total i) (i + 1) is s (omega (arith, e, b, l, u))
                (omega arith) a)
        | inr far ↦ rw (hunk_ranges, far) (inl (s, e))
      ]

  OneOf-InRange :
      (k start stop low : ℕ) (is : List ℕ)
      → start ≤ low
      → Ascending low total is
      → OneOf k is
      → InRange k (hunk_ranges total start stop is)
  unfolding hunk_ranges
  OneOf-InRange k start stop low [] h a m = absurd m
  OneOf-InRange k start stop low (i ∷ is) h (l, u, a) (inl e) =
      elim (Bool-cases (leb (i - diff_context) stop)) [
        | inl near ↦
            rw (hunk_ranges, near)
              (open-InRange k start (context_end total i) (i + 1) is (omega (arith, h, l, e))
                (omega (arith, e, u)) (omega arith) a)
        | inr far ↦
            rw (hunk_ranges, far)
              (inr (
                open-InRange k (i - diff_context) (context_end total i) (i + 1) is
                  (omega (arith, e)) (omega (arith, e, u)) (omega arith) a))
      ]
  OneOf-InRange k start stop low (i ∷ is) h (l, u, a) (inr m) =
      elim (Bool-cases (leb (i - diff_context) stop)) [
        | inl near ↦
            rw (hunk_ranges, near)
              (OneOf-InRange k start (context_end total i) (i + 1) is (omega (arith, h, l)) a m)
        | inr far ↦
            rw (hunk_ranges, far)
              (inr (
                OneOf-InRange k (i - diff_context) (context_end total i) (i + 1) is (omega arith) a
                  m))
      ]

  ranges_of-InRange :
      (k : ℕ) (is : List ℕ) → Ascending 0 total is → OneOf k is → InRange k (ranges_of total is)
  ranges_of-InRange k [] a m = absurd m
  ranges_of-InRange k (i ∷ is) (_, u, a) (inl e) =
      open-InRange k (i - diff_context) (context_end total i) (i + 1) is (omega (arith, e))
        (omega (arith, e, u)) (omega arith) a
  ranges_of-InRange k (i ∷ is) (_, u, a) (inr m) =
      OneOf-InRange k (i - diff_context) (context_end total i) (i + 1) is (omega arith) a m

module _ (old_no new_no : List ℕ) where
  hunks_of-Shown : (k : ℕ) (rs : List (ℕ × ℕ)) → InRange k rs → Shown k (hunks_of old_no new_no rs)
  hunks_of-Shown k [] m = absurd m
  hunks_of-Shown k ((start, stop) ∷ rs) (inl m) = inl (unfold new_hunk in m)
  hunks_of-Shown k ((start, stop) ∷ rs) (inr m) = inr (hunks_of-Shown k rs m)

  Behind-hunk_ranges :
      (n total start stop : ℕ) (is : List ℕ)
      → n < start
      → StartsBehind n (hunks_of old_no new_no (hunk_ranges total start stop is))
  unfolding hunk_ranges new_hunk
  Behind-hunk_ranges n total start stop [] h = h
  Behind-hunk_ranges n total start stop (i ∷ is) h =
      elim (Bool-cases (leb (i - diff_context) stop)) [
        | inl near ↦
            rw (hunk_ranges, near) (Behind-hunk_ranges n total start (context_end total i) is h)
        | inr far ↦ rw (hunk_ranges, far) h
      ]

  hunk_ranges-Apart :
      (total start stop : ℕ) (is : List ℕ)
      → Apart (hunks_of old_no new_no (hunk_ranges total start stop is))
  unfolding hunk_ranges new_hunk
  hunk_ranges-Apart total start stop [] = (tt, tt)
  hunk_ranges-Apart total start stop (i ∷ is) = elim (Bool-cases (leb (i - diff_context) stop)) [
    | inl near ↦ rw (hunk_ranges, near) (hunk_ranges-Apart total start (context_end total i) is)
    | inr far ↦
        rw (hunk_ranges, far)
          (
            Behind-hunk_ranges stop total (i - diff_context) (context_end total i) is
                (ground (arith, far)),
            hunk_ranges-Apart total (i - diff_context) (context_end total i) is,
          )
  ]

  ranges_of-Apart : (total : ℕ) (is : List ℕ) → Apart (hunks_of old_no new_no (ranges_of total is))
  ranges_of-Apart total [] = tt
  ranges_of-Apart total (i ∷ is) =
      hunk_ranges-Apart total (i - diff_context) (context_end total i) is

abbrev changes : Option DiffOp → Bool
changes none = false
changes (some o) = is_change o

changed_from-OneOf :
    (n i k : ℕ) (ops : List DiffOp)
    → k ≡ n + i
    → changes (get_elem? ops i) ≡ true
    → OneOf k (changed_from n ops)
unfolding changed_from
changed_from-OneOf n i k [] e c = absurd (cc)
changed_from-OneOf n zero k (p ∷ ops) e c = rw c (inl (omega (arith, e)))
changed_from-OneOf n (suc i) k (p ∷ ops) e c =
    let rest : OneOf k (changed_from (n + 1) ops) =
      changed_from-OneOf (n + 1) i k ops (omega (arith, e)) c in
    elim (Bool-cases (is_change p)) [ inl change ↦ rw change (inr rest) | inr same ↦ rw same rest ]

-- Every change of a script is shown in one of its hunks.
pub group_hunks-Shown :
    (ops : List DiffOp) (i : ℕ) (o : DiffOp)
    → get_elem? ops i ≡ some o
    → is_change o ≡ true
    → Shown i (group_hunks ops)
unfolding group_hunks
group_hunks-Shown ops i o at c =
    hunks_of-Shown (running in_old 0 ops) (running in_new 0 ops) i
      (ranges_of (length ops) (changed_from 0 ops))
      (ranges_of-InRange (length ops) i (changed_from 0 ops)
        (changed_from-Ascending 0 (length ops) ops (omega arith))
        (changed_from-OneOf 0 i i ops (omega arith) (ap changes at ∙ c)))

-- The hunks of a script are in order, and at least one operation that none of them shows stands
-- between any two.
group_hunks-Apart : (ops : List DiffOp) → Apart (group_hunks ops)
unfolding group_hunks
group_hunks-Apart ops =
    ranges_of-Apart (running in_old 0 ops) (running in_new 0 ops) (length ops) (changed_from 0 ops)
