-- ===== src/Policy/Decide.antt =====
-- Evaluating rules (src/policy.go: decide, firstMatch, matchPolicyPattern, mergePolicy,
-- concatRules). Matching a path against a glob, matchGlob of src/tools_fs.go, is a parameter.
pub mod Verdicts
pub mod Paths
use collectif.Common.{
  Bool, true, false, ◌&&◌, not, Option, none, some, List, [], ◌∷◌, ◌++◌, if◌then◌else◌,
}
use collectif.Text.{Text, text_eq}
use collectif.Notebook.Cells.{PolicyRules}
use collectif.Policy.Rule.{parse_policy_rule}
use collectif.Policy.Command.{is_command_subject, match_command_pattern, shell_chaining}

pub data Verdict : Type 0 where
  deny allow ask : Verdict

-- A verdict with the rule that gave it, empty where none did.
pub record PolicyDecision : Type 0 where
  pub verdict : Verdict
  pub rule : Text

abbrev decided : Option Text → Option Text → Option Text → PolicyDecision
decided (some rule) allowed asked = record { verdict = deny; rule = rule }
decided none (some rule) asked = record { verdict = allow; rule = rule }
decided none none (some rule) = record { verdict = ask; rule = rule }
decided none none none = record { verdict = ask; rule = [] }

module _ (match_glob : Text → Text → Bool) where
  unfoldable pub match_policy_pattern : Text → Text → Text → Bool
  match_policy_pattern tool pattern subject =
      if is_command_subject tool
      then match_command_pattern pattern subject
      else match_glob pattern subject

  abbrev parsed_applies : Option (Text × Text) → Bool → Text → Text → Bool
  parsed_applies none loosening tool subject = false
  parsed_applies (some (rule_tool, pattern)) loosening tool subject =
      if not (text_eq rule_tool tool)
      then false
      else if loosening && (is_command_subject tool && shell_chaining subject)
      then false
      else match_policy_pattern tool pattern subject

  -- One round of the loop of `firstMatch`: whether it returns this rule.
  unfoldable pub rule_applies : Bool → Text → Text → Text → Bool
  rule_applies loosening tool subject rule =
      parsed_applies (parse_policy_rule rule) loosening tool subject

  unfoldable pub first_match : List Text → Text → Text → Bool → Option Text
  first_match [] tool subject loosening = none
  first_match (rule ∷ rules) tool subject loosening =
      let rest = first_match rules tool subject loosening in
      if rule_applies loosening tool subject rule then some rule else rest

  unfoldable pub decide : PolicyRules → Text → Text → PolicyDecision
  unfolding first_match
  decide r tool subject =
      decided (first_match r.deny tool subject false) (first_match r.allow tool subject true)
        (first_match r.ask tool subject false)

-- The two shortcuts of `concatRules` aside, the rules of one list before those of the other.
unfoldable pub concat_rules : List Text → List Text → List Text
concat_rules [] b = b
concat_rules (x ∷ a) [] = x ∷ a
concat_rules (x ∷ a) (y ∷ b) = ([] ++ (x ∷ a)) ++ (y ∷ b)

unfoldable pub merge_policy : PolicyRules → PolicyRules → PolicyRules
unfolding concat_rules
merge_policy global notebook = record {
  deny = concat_rules global.deny notebook.deny;
  allow = concat_rules notebook.allow global.allow;
  ask = concat_rules notebook.ask global.ask;
}
