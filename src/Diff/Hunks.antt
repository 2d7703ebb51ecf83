-- ===== src/Diff/Hunks.antt =====
-- Hunks, and the diff as a text (src/diff.go: groupHunks, newHunk, render, unifiedDiff).
pub mod Headers
pub mod Emptiness
pub mod Cover
use collectif.Common.{
  ℕ, zero, suc, ◌+◌, ◌-◌, ◌*◌, ◌/◌, ◌%◌, ◌==◌, min, Bool, true, false, Option, none, some, List, [],
  ◌∷◌, ◌++◌, length, take, drop, leb, ltb, if◌then◌else◌, get_elem?,
}
use collectif.Text.{Text, codes}
use collectif.Diff.Lines.{DiffLine, line_feed, split_diff_lines}
use collectif.Diff.Script.{DiffOp, context, removed, added, diff_ops}

-- diffContext
abbrev pub diff_context : ℕ
diff_context = 3

pub record DiffHunk : Type 0 where
  pub from_op : ℕ
  pub to_op : ℕ
  pub old_start : ℕ
  pub old_count : ℕ
  pub new_start : ℕ
  pub new_count : ℕ

abbrev pub is_change : DiffOp → Bool
is_change (context l) = false
is_change (removed l) = true
is_change (added l) = true

-- The tests of `oldNo` and `newNo`.
abbrev pub in_old : DiffOp → Bool
in_old (context l) = true
in_old (removed l) = true
in_old (added l) = false

abbrev pub in_new : DiffOp → Bool
in_new (context l) = true
in_new (removed l) = false
in_new (added l) = true

-- `changed`, from the index `i` on.
unfoldable pub changed_from : ℕ → List DiffOp → List ℕ
changed_from i [] = []
changed_from i (o ∷ ops) =
    let rest = changed_from (i + 1) ops in if is_change o then i ∷ rest else rest

-- `oldNo` or `newNo`, from a count on.
unfoldable pub running : (DiffOp → Bool) → ℕ → List DiffOp → List ℕ
running counts n [] = n ∷ []
running counts n (o ∷ ops) = n ∷ running counts (if counts o then n + 1 else n) ops

abbrev pub number_at : Option ℕ → ℕ
number_at none = 0
number_at (some n) = n

abbrev pub first_line : ℕ → ℕ → ℕ
first_line before count = if ltb 0 count then before + 1 else before

unfoldable pub new_hunk : ℕ → ℕ → List ℕ → List ℕ → DiffHunk
new_hunk from_op to_op old_no new_no =
    let old_count = number_at (get_elem? old_no to_op) - number_at (get_elem? old_no from_op) in
    let new_count = number_at (get_elem? new_no to_op) - number_at (get_elem? new_no from_op) in
    record {
      from_op = from_op;
      to_op = to_op;
      old_start = first_line (number_at (get_elem? old_no from_op)) old_count;
      old_count = old_count;
      new_start = first_line (number_at (get_elem? new_no from_op)) new_count;
      new_count = new_count;
    }

-- The end of a change's context among so many operations.
abbrev pub context_end : ℕ → ℕ → ℕ
context_end total i = min total (i + diff_context + 1)

-- The loop over the changes, with the hunk that is open, as ranges of operations.
unfoldable pub hunk_ranges : ℕ → ℕ → ℕ → List ℕ → List (ℕ × ℕ)
hunk_ranges total start stop [] = (start, stop) ∷ []
hunk_ranges total start stop (i ∷ is) = elim (leb (i - diff_context) stop) [
  | true ↦ hunk_ranges total start (context_end total i) is
  | false ↦ (start, stop) ∷ hunk_ranges total (i - diff_context) (context_end total i) is
]

abbrev pub ranges_of : ℕ → List ℕ → List (ℕ × ℕ)
ranges_of total [] = []
ranges_of total (i ∷ is) = hunk_ranges total (i - diff_context) (context_end total i) is

abbrev pub hunks_of : List ℕ → List ℕ → List (ℕ × ℕ) → List DiffHunk
hunks_of old_no new_no [] = []
hunks_of old_no new_no ((start, stop) ∷ rs) =
    new_hunk start stop old_no new_no ∷ hunks_of old_no new_no rs

unfoldable pub group_hunks : List DiffOp → List DiffHunk
unfolding changed_from running new_hunk hunk_ranges
group_hunks ops =
    hunks_of (running in_old 0 ops) (running in_new 0 ops)
      (ranges_of (length ops) (changed_from 0 ops))

-- `%d`: a number has fewer digits than its successor has units.
unfoldable decimal_digits : ℕ → ℕ → Text → Text
decimal_digits zero n after = after
decimal_digits (suc k) n after =
    let rest = decimal_digits k (n / 10) ((48 + n % 10) ∷ after) in
    if ltb n 10 then (48 + n) ∷ after else rest

abbrev decimal : ℕ → Text
decimal n = decimal_digits (n + 1) n []

-- noEOLMarker
abbrev no_eol_marker : Text
no_eol_marker = 92 ∷ codes " No newline at end of file"

abbrev marker : Bool → Text
marker true = no_eol_marker ++ line_feed ∷ []
marker false = []

abbrev line_text : DiffLine → Text
line_text l = l.text ++ line_feed ∷ [] ++ marker l.no_eol

abbrev render_op : DiffOp → Text
render_op (context l) = 32 ∷ line_text l
render_op (removed l) = 45 ∷ line_text l
render_op (added l) = 43 ∷ line_text l

abbrev render_ops : List DiffOp → Text
render_ops [] = []
render_ops (o ∷ ops) = render_op o ++ render_ops ops

unfoldable pub render : DiffHunk → List DiffOp → Text
unfolding decimal_digits
render h ops =
    codes "@@ -"
    ++ decimal h.old_start
    ++ codes ","
    ++ decimal h.old_count
    ++ codes " +"
    ++ decimal h.new_start
    ++ codes ","
    ++ decimal h.new_count
    ++ codes " @@"
    ++ line_feed ∷ []
    ++ render_ops (take (h.to_op - h.from_op) (drop h.from_op ops))

abbrev render_all : List DiffHunk → List DiffOp → Text
render_all [] ops = []
render_all (h ∷ hs) ops = render h ops ++ render_all hs ops

abbrev pub rendered : Text → List DiffHunk → List DiffOp → Text
rendered path [] ops = []
rendered path (h ∷ hs) ops =
    codes "--- a/"
    ++ path
    ++ line_feed ∷ codes "+++ b/"
    ++ path
    ++ line_feed ∷ []
    ++ render_all (h ∷ hs) ops

unfoldable pub unified_diff : Text → Text → Text → Text
unfolding render
unified_diff path old next =
    let ops = diff_ops (split_diff_lines old) (split_diff_lines next) in
    rendered path (group_hunks ops) ops
