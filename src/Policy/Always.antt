-- ===== src/Policy/Always.antt =====
-- The rule that the answer "always" proposes (src/policy.go: proposeAlwaysRule). The tool and the
-- subject are texts.
pub mod Folder
pub mod Dotted
pub mod Program
mod Samples
use collectif.Common.{ℕ, Bool, true, false, ◌||◌, List, [], ◌∷◌, ◌++◌, ◌==◌, if◌then◌else◌}
use collectif.Text.{Text, codes, text_eq, is_space, trim_space}
use collectif.Tools.PathMatch.{slash}
use collectif.Tools.CleanPath.{dot, dir_path}
use collectif.Policy.Command.{is_command_subject}

abbrev pub is_blank : Text → Bool
is_blank [] = true
is_blank (c ∷ s) = false

-- strings.Fields(s)[0], of a text that does not begin with a space.
unfoldable pub first_word : Text → Text
first_word [] = []
first_word (c ∷ s) = let rest = first_word s in if is_space c then [] else c ∷ rest

-- fmt.Sprintf("%s(%s)", tool, pattern)
abbrev pub rule_of : Text → Text → Text
rule_of tool pattern = tool ++ b'(' ∷ (pattern ++ b')' ∷ [])

-- `%s *`
abbrev pub any_arguments : Text → Text
any_arguments program = program ++ b' ' ∷ b'*' ∷ []

abbrev pub everything : Text
everything = b'*' ∷ b'*' ∷ []

abbrev pub is_top : Text → Bool
is_top dir = text_eq dir dot || (text_eq dir (slash ∷ []) || is_blank dir)

-- The pattern for a directory.
unfoldable pub below : Text → Text
unfolding text_eq
below dir = if is_top dir then everything else dir ++ slash ∷ everything

abbrev propose_trimmed : Text → Text → Text
propose_trimmed tool subject =
    if is_blank tool || is_blank subject
    then []
    else if is_command_subject tool
    then rule_of tool (any_arguments (first_word subject))
    else rule_of tool (below (dir_path subject))

unfoldable pub propose_always_rule : Text → Text → Text
unfolding first_word below dir_path
propose_always_rule tool subject = propose_trimmed tool (trim_space subject)
