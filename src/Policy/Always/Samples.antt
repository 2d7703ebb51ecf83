-- ===== src/Policy/Always/Samples.antt =====
-- Proposed rules (src/policy.go: proposeAlwaysRule): tests, and the theorems at them.
use collectif.Common.{◌≡◌, refl, ◌↔◌, true, false, arith, ◌∷◌, ◌++◌}
use collectif.Text.{Text, codes, text_eq, is_space, trim_space}
use collectif.Tools.PathMatch.{slash}
use collectif.Tools.CleanPath.{clean_path, dir_path}
use collectif.Tools.Glob.{contains_slash, match_glob, not_newline}
use collectif.Tools.Glob.Runs.{AllPass}
use collectif.Policy.Command.{is_command_subject}
use collectif.Policy.Decide.{rule_applies}
use collectif.Policy.Always.{propose_always_rule}
use collectif.Policy.Always.Folder.{IsFolder, IsPathTool, rule_applies-propose_always_rule_iff}
use collectif.Policy.Always.Dotted.{rule_applies-dotted}
use collectif.Policy.Always.Program.{bash, propose_always_rule-word}

for_folder :
    propose_always_rule (codes "write") (codes " src/api/main.go") ≡ codes "write(src/api/**)"
unfolding propose_always_rule trim_space is_space dir_path clean_path text_eq is_command_subject
for_folder = refl

for_top : propose_always_rule (codes "write") (codes "main.go") ≡ codes "write(**)"
unfolding propose_always_rule trim_space is_space dir_path clean_path text_eq is_command_subject
for_top = refl

for_command : propose_always_rule (codes "bash") (codes "git push -f") ≡ codes "bash(git *)"
unfolding propose_always_rule trim_space is_space is_command_subject
for_command = refl

abbrev api : Text
api = codes "src/api"

api-IsFolder : IsFolder api
unfolding clean_path text_eq is_space
api-IsFolder = record {
  given = refl;
  apart = refl;
  plain = omega arith;
  inside = refl;
  clean = refl;
  first = refl;
}

write-IsPathTool : IsPathTool (codes "write")
unfolding is_space is_command_subject
write-IsPathTool = record {
  given = refl;
  trimmed = record { first = refl; final = refl };
  whole = omega arith;
  of_paths = refl;
}

rule_applies-propose_always_rule_iff_example :
    (rule_applies match_glob true
        (codes "write")
        (codes "src/api/v2/x.go")
        (propose_always_rule (codes "write") (api ++ slash ∷ codes "main.go"))
      ≡ true)
    ↔ ((below_dir : Text) × (codes "src/api/v2/x.go" ≡ api ++ slash ∷ below_dir)
        × AllPass not_newline below_dir)
unfolding is_space contains_slash
rule_applies-propose_always_rule_iff_example =
    rule_applies-propose_always_rule_iff (codes "write") api (codes "main.go")
      (codes "src/api/v2/x.go") write-IsPathTool api-IsFolder refl
      (record { first = refl; final = refl })

propose_always_rule-word_example :
    rule_applies match_glob true bash (codes "ls") (propose_always_rule bash (codes "ls")) ≡ false
unfolding is_space
propose_always_rule-word_example =
    propose_always_rule-word match_glob true b'l' (codes "s") (refl, (refl, tt))

rule_applies-dotted_example :
    rule_applies match_glob true
      (codes "write")
      (codes "..data/main.go")
      (propose_always_rule (codes "write") (codes "..data/main.go"))
    ≡ false
unfolding clean_path text_eq is_space contains_slash
rule_applies-dotted_example =
    rule_applies-dotted true (codes "write") (codes "data") (codes "main.go")
      (codes "..data/main.go") write-IsPathTool refl refl (record { first = refl; final = refl })
