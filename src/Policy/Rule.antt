-- ===== src/Policy/Rule.antt =====
-- Rules of the form tool(pattern) (src/policy.go: parsePolicyRule, invalidRules).
pub mod Parse
use collectif.Common.{
  ℕ, suc, ◌+◌, ◌-◌, Bool, true, false, not, ◌||◌, Option, none, some, List, [], ◌∷◌, ◌++◌,
  if◌then◌else◌, length, take, drop,
}
use collectif.Text.{Text, codes, trim_space, index_of, ends_with}

-- `s[from:to]`
abbrev pub slice : ℕ → ℕ → Text → Text
slice from to s = take (to - from) (drop from s)

abbrev is_blank : Text → Bool
is_blank [] = true
is_blank (_ ∷ _) = false

abbrev pub open_paren : ℕ
open_paren = 40

abbrev pub close_paren : ℕ
close_paren = 41

abbrev both_given : Text → Text → Option (Text × Text)
both_given tool pattern = if is_blank tool || is_blank pattern then none else some (tool, pattern)

-- The rest of the function, once "(" is found or not.
abbrev split_rule : Option ℕ → Text → Option (Text × Text)
split_rule none rule = some (rule, codes "*")
split_rule (some at) rule =
    if not (ends_with close_paren rule)
    then none
    else both_given (trim_space (take at rule)) (trim_space (slice (at + 1) (length rule - 1) rule))

abbrev parse_trimmed : Text → Option (Text × Text)
parse_trimmed rule = if is_blank rule then none else split_rule (index_of open_paren rule) rule

-- The tool and the pattern, or `none` where the source returns false.
unfoldable pub parse_policy_rule : Text → Option (Text × Text)
parse_policy_rule rule = parse_trimmed (trim_space rule)
