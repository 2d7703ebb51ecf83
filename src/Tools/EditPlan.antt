-- ===== src/Tools/EditPlan.antt =====
-- What the edit tool would do (src/tools_fs.go: editPlan, and the tool's Preview). containedPath and
-- the reading of a file are an interface; an error's text is a constructor of its own.
pub mod Single
use collectif.Common.{
  ℕ, zero, suc, ◌+◌, ◌-◌, Bool, true, false, ◌&&◌, ◌||◌, not, Option, none, some, List, [], ◌∷◌,
  ◌++◌, ltb, ◌==◌, if◌then◌else◌, length, drop,
}
use collectif.Text.{Text, text_eq}
use collectif.Diff.Hunks.{unified_diff}

-- The arguments of a call, `""` and false where they are missing or of another type.
pub record EditArgs : Type 0 where
  pub path : Text
  pub old_string : Text
  pub new_string : Text
  pub replace_all : Bool

-- What is called of the file system: `containedPath(root, path)` and `os.ReadFile`.
pub record Files : Type 0 where
  pub contained_path : Text → Option Text
  pub read_file : Text → Option Text

pub data Refusal : Type 0 where
  path_required old_string_required nothing_to_change not_contained unreadable not_found : Refusal
  ambiguous : ℕ → Refusal

pub data Plan : Type 0 where
  refused : Refusal → Plan
  planned : Text → Text → Text → Plan

unfoldable pub has_prefix : Text → Text → Bool
has_prefix [] s = true
has_prefix (a ∷ p) [] = false
has_prefix (a ∷ p) (c ∷ s) = (a == c) && has_prefix p s

-- strings.Count, of a text that is not empty: occurrences that do not overlap. `skip` is how much of
-- the last one is still ahead.
unfoldable pub count_from : ℕ → Text → Text → ℕ
unfolding has_prefix
count_from skip old [] = 0
count_from (suc k) old (c ∷ s) = count_from k old s
count_from zero old (c ∷ s) = elim (has_prefix old (c ∷ s)) [
  | true ↦ suc (count_from (length old - 1) old s)
  | false ↦ count_from zero old s
]

-- strings.ReplaceAll, of such a text.
unfoldable pub replace_from : ℕ → Text → Text → Text → Text
unfolding has_prefix
replace_from skip old new [] = []
replace_from (suc k) old new (c ∷ s) = replace_from k old new s
replace_from zero old new (c ∷ s) = elim (has_prefix old (c ∷ s)) [
  | true ↦ new ++ replace_from (length old - 1) old new s
  | false ↦ c ∷ replace_from zero old new s
]

-- strings.Replace(body, old, new, 1)
unfoldable pub replace_first : Text → Text → Text → Text
unfolding has_prefix
replace_first old new [] = []
replace_first old new (c ∷ s) = elim (has_prefix old (c ∷ s)) [
  | true ↦ new ++ drop (length old) (c ∷ s)
  | false ↦ c ∷ replace_first old new s
]

abbrev pub is_blank : Text → Bool
is_blank [] = true
is_blank (c ∷ s) = false

abbrev pub replaced : EditArgs → Text → Text
replaced args body =
    if args.replace_all
    then replace_from 0 args.old_string args.new_string body
    else replace_first args.old_string args.new_string body

abbrev pub plan_counted : ℕ → EditArgs → Text → Text → Plan
plan_counted n args abs body =
    if n == 0
    then refused not_found
    else if ltb 1 n && not args.replace_all
    then refused (ambiguous n)
    else planned abs body (replaced args body)

abbrev pub plan_body : EditArgs → Text → Option Text → Plan
plan_body args abs none = refused unreadable
plan_body args abs (some body) = plan_counted (count_from 0 args.old_string body) args abs body

abbrev pub plan_at : Files → EditArgs → Option Text → Plan
plan_at files args none = refused not_contained
plan_at files args (some abs) = plan_body args abs (files.read_file abs)

unfoldable pub edit_plan : Files → EditArgs → Plan
unfolding text_eq count_from replace_from replace_first
edit_plan files args =
    if is_blank args.path
    then refused path_required
    else if is_blank args.old_string
    then refused old_string_required
    else if text_eq args.new_string args.old_string
    then refused nothing_to_change
    else plan_at files args (files.contained_path args.path)

abbrev pub diff_of : Text → Plan → Text
diff_of path (refused why) = []
diff_of path (planned abs body next) = unified_diff path body next

unfoldable pub edit_preview : Files → EditArgs → Text
unfolding edit_plan
edit_preview files args = diff_of args.path (edit_plan files args)
