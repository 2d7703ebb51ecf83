-- ===== src/Tools/Samples.antt =====
-- Globs and paths (src/tools_fs.go): tests, and a theorem at one of them.
use collectif.Common.{
  ◌≤◌, ◌≡◌, ◌≢◌, refl, ◌↔◌, true, false, none, some, arith, List, [], ◌∷◌, ◌++◌, ◌+◌,
}
use collectif.Tools.ReadLines.{read_lines}
use collectif.Tools.ReadLines.Range.{read_lines-asked_lines, read_lines-none_iff}
use collectif.Tools.EditPlan.{EditArgs, Files, refused, planned, ambiguous, edit_plan, edit_preview}
use collectif.Tools.EditPlan.Single.{IsEdited, edit_plan-single}
use collectif.Text.{Text, codes, text_eq}
use collectif.Tools.PathMatch.{file_path_match}
use collectif.Tools.CleanPath.{clean_path, dir_path}
use collectif.Tools.Glob.{base_name, match_glob, has_stars}
use collectif.Tools.Glob.Reading.{Reads, match_glob_iff}

top_level : match_glob (codes "**/*.go") (codes "main.go") ≡ true
unfolding match_glob
top_level = refl

nested_name : match_glob (codes "*.go") (codes "src/api/main.go") ≡ true
unfolding match_glob file_path_match
nested_name = refl

ends_in_slashes : base_name (codes "src/api//") ≡ codes "api"
unfolding base_name
ends_in_slashes = refl

no_name : base_name [] ≡ codes "."
unfolding base_name
no_name = refl

only_slashes : base_name (codes "//") ≡ codes "/"
unfolding base_name
only_slashes = refl

other_folder : match_glob (codes "src/*.go") (codes "src/api/main.go") ≡ false
unfolding match_glob file_path_match
other_folder = refl

climbing : match_glob (codes "../**") (codes "../x") ≡ false
unfolding match_glob
climbing = refl

class_and_range : file_path_match (codes "[^a-c]?\\*") (codes "xy*") ≡ true
unfolding file_path_match
class_and_range = refl

malformed : file_path_match (codes "a[") (codes "a[") ≡ false
unfolding file_path_match
malformed = refl

cleaned : clean_path (codes "a/./b//../../../c") ≡ codes "../c"
unfolding clean_path text_eq
cleaned = refl

folder_of : dir_path (codes "src/api/main.go") ≡ codes "src/api"
unfolding dir_path clean_path text_eq
folder_of = refl

match_glob_iff_example :
    (match_glob (codes "**/*.go") (codes "src/main.go") ≡ true)
    ↔ Reads (codes "**/*.go") (codes "src/main.go")
unfolding has_stars
match_glob_iff_example = match_glob_iff (codes "**/*.go") (codes "src/main.go") refl refl

abbrev one_file : Files
one_file = record {
  contained_path = λ p. some (codes "/root/" ++ p);
  read_file = λ p. some (codes "a b a");
}

abbrev rename_b : EditArgs
rename_b = record {
  path = codes "x";
  old_string = codes "b";
  new_string = codes "c";
  replace_all = false;
}

rename_planned :
    edit_plan one_file rename_b ≡ planned (codes "/root/x") (codes "a b a") (codes "a c a")
unfolding edit_plan text_eq
rename_planned = refl

twice : edit_plan one_file (record rename_b { old_string = codes "a" }) ≡ refused (ambiguous 2)
unfolding edit_plan text_eq
twice = refl

all_places :
    edit_plan one_file (record rename_b { old_string = codes "a"; replace_all = true })
    ≡ planned (codes "/root/x") (codes "a b a") (codes "c b c")
unfolding edit_plan text_eq
all_places = refl

edit_plan-single_example :
    (one_file.contained_path (codes "x") ≡ some (codes "/root/x"))
    × (one_file.read_file (codes "/root/x") ≡ some (codes "a b a"))
    × IsEdited (codes "b") (codes "c") (codes "a b a") (codes "a c a")
    × (edit_preview one_file rename_b ≢ [])
edit_plan-single_example =
    edit_plan-single one_file rename_b (codes "/root/x") (codes "a b a") (codes "a c a") refl
      rename_planned

abbrev three_lines : List Text
three_lines = codes "a" ∷ codes "b" ∷ codes "c" ∷ []

wrapped_sum : read_lines 2 9223372036854775807 three_lines ≡ none
unfolding read_lines
wrapped_sum = refl

no_wrap : read_lines 1 9223372036854775807 three_lines ≡ some three_lines
unfolding read_lines
no_wrap = refl

read_lines-asked_lines_example : read_lines 2 1 three_lines ≡ some (codes "b" ∷ [])
read_lines-asked_lines_example = read_lines-asked_lines 2 1 three_lines (omega arith)

read_lines-none_iff_example :
    (read_lines 2 9223372036854775807 three_lines ≡ none)
    ↔ ((1 ≤ 9223372036854775807) × (9223372036854775808 ≤ 1 + 9223372036854775807))
read_lines-none_iff_example =
    read_lines-none_iff 2 9223372036854775807 three_lines (omega arith) (omega arith)
