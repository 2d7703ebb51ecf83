-- ===== src/Policy/Always/Dotted.antt =====
-- The rule proposed for a folder whose name begins with two dots (src/policy.go: proposeAlwaysRule;
-- src/tools_fs.go: matchGlob).
use collectif.Common.{◌≡◌, refl, Bool, false, [], ◌∷◌, ◌++◌}
use collectif.Text.{Text, text_eq, is_space}
use collectif.Text.Laws.{IsTrimmed}
use collectif.Tools.PathMatch.{slash}
use collectif.Tools.CleanPath.{clean_path}
use collectif.Tools.Glob.{contains_slash, match_glob}
use collectif.Policy.Decide.{rule_applies}
use collectif.Policy.Always.{propose_always_rule}
use collectif.Policy.Always.Folder.{
  IsNamed, IsPathTool, propose_always_rule-below, rule_applies-below,
}

abbrev pub dotted : Text → Text
dotted rest = b'.' ∷ b'.' ∷ rest

dotted-IsNamed :
    (rest : Text) → clean_path (dotted rest ++ slash ∷ []) ≡ dotted rest → IsNamed (dotted rest)
unfolding text_eq is_space
dotted-IsNamed rest clean = record { given = refl; apart = refl; clean = clean; first = refl }

match_glob-dotted : (p other : Text) → match_glob (dotted p) other ≡ false
unfolding match_glob
match_glob-dotted p other = refl

-- For a path in a folder whose name is clean and begins with two dots, be it outside the root or, as
-- `..data` is, inside it, the rule that the answer "always" proposes applies to no path at all, as a
-- rule that allows or as one that denies. The path is one name behind the folder and is trimmed; the
-- tool's name is not empty, is trimmed, has no `(`, and is that of a tool of paths.
pub rule_applies-dotted :
    (allows : Bool) (tool rest name other : Text)
    → IsPathTool tool
    → clean_path (dotted rest ++ slash ∷ []) ≡ dotted rest
    → contains_slash name ≡ false
    → IsTrimmed (dotted rest ++ slash ∷ name)
    → rule_applies match_glob allows tool other
        (propose_always_rule tool (dotted rest ++ slash ∷ name))
      ≡ false
rule_applies-dotted allows tool rest name other t clean flat trimmed =
    let f = dotted-IsNamed rest clean in
    rw
      (
        propose_always_rule-below tool (dotted rest) name t f flat trimmed,
        rule_applies-below allows tool (dotted rest) other t f,
      )
      (match_glob-dotted _ other)
