-- ===== src/Diff/Samples.antt =====
-- A small diff (src/diff.go): tests, and the diff's theorems at it.
use collectif.Common.{String, ◌≡◌, refl, ◌↔◌, true, false, List, [], ◌∷◌, ◌++◌}
use collectif.Text.{Text, text_eq, codes, ends_with}
use collectif.Diff.Lines.{DiffLine, line_eq, split_diff_lines}
use collectif.Diff.Script.{
  DiffOp, context, removed, added, common_prefix, common_suffix, lcs_table, lcs_row, lcs_at, walk,
  diff_middle, diff_ops,
}
use collectif.Diff.Script.Sides.{Leads, diff_ops-Leads}
use collectif.Diff.Hunks.{
  changed_from, running, new_hunk, hunk_ranges, group_hunks, render, unified_diff,
}
use collectif.Diff.Hunks.Headers.{AllTrue, group_hunks-AllTrue}
use collectif.Diff.Hunks.Cover.{Shown, group_hunks-Shown}
use collectif.Diff.Hunks.Emptiness.{unified_diff-nil_iff}

abbrev old_text : Text
old_text = codes "one" ++ 10 ∷ codes "two"

abbrev new_text : Text
new_text = codes "one" ++ 10 ∷ codes "two" ++ 10 ∷ []

abbrev line : String → DiffLine
line s = record { text = codes s; no_eol = false }

abbrev open_line : String → DiffLine
open_line s = record { text = codes s; no_eol = true }

abbrev script : List DiffOp
script = context (line "one") ∷ removed (open_line "two") ∷ added (line "two") ∷ []

script_of_newline : diff_ops (split_diff_lines old_text) (split_diff_lines new_text) ≡ script
unfolding diff_ops common_prefix common_suffix diff_middle lcs_table walk lcs_at lcs_row line_eq
    split_diff_lines text_eq ends_with
script_of_newline = refl

diff_of_newline :
    unified_diff (codes "f") old_text new_text
    ≡ codes "--- a/f"
      ++ 10 ∷ codes "+++ b/f"
      ++ 10 ∷ codes "@@ -1,2 +1,2 @@"
      ++ 10 ∷ codes " one"
      ++ 10 ∷ codes "-two"
      ++ 10 ∷ 92 ∷ codes " No newline at end of file"
      ++ 10 ∷ codes "+two"
      ++ 10 ∷ []
unfolding unified_diff diff_ops common_prefix common_suffix diff_middle lcs_table walk lcs_at
    lcs_row line_eq split_diff_lines text_eq ends_with group_hunks changed_from running new_hunk
    hunk_ranges render
diff_of_newline = refl

diff_ops-Leads_example :
    Leads
      (diff_ops (split_diff_lines old_text) (split_diff_lines new_text))
      (split_diff_lines old_text)
      (split_diff_lines new_text)
diff_ops-Leads_example = diff_ops-Leads (split_diff_lines old_text) (split_diff_lines new_text)

group_hunks-AllTrue_example : AllTrue script (group_hunks script)
group_hunks-AllTrue_example = group_hunks-AllTrue script

group_hunks-Shown_example : Shown 1 (group_hunks script)
group_hunks-Shown_example = group_hunks-Shown script 1 (removed (open_line "two")) refl refl

unified_diff-nil_iff_example :
    (unified_diff (codes "f") old_text new_text ≡ []) ↔ (old_text ≡ new_text)
unified_diff-nil_iff_example = unified_diff-nil_iff (codes "f") old_text new_text
