-- ===== src/Policy/File.antt =====
-- The rules file (src/policy.go: defaultPolicyRules, invalidRules, loadPolicyRules, appendAllowRule).
pub mod Appending
mod Samples
use collectif.Common.{
  Bool, true, false, ◌||◌, Option, none, some, List, [], ◌∷◌, ◌++◌, if◌then◌else◌,
}
use collectif.Text.{Text, codes, text_eq, trim_space}
use collectif.Notebook.Cells.{PolicyRules}
use collectif.Policy.Rule.{parse_policy_rule}

unfoldable pub default_policy_rules : PolicyRules
default_policy_rules = record {
  deny =
      codes "read(**/.env)"
      ∷ codes "read(**/.env.*)"
      ∷ codes "read(**/.git/config)"
      ∷ codes "read(**/id_rsa)"
      ∷ codes "read(**/id_ed25519)"
      ∷ codes "read(**/*.pem)"
      ∷ [];
  allow = codes "read(**)" ∷ codes "glob(**)" ∷ codes "grep(**)" ∷ [];
  ask = codes "write(**)" ∷ codes "edit(**)" ∷ codes "bash(*)" ∷ [];
}

abbrev pub parses : Option (Text × Text) → Bool
parses none = false
parses (some _) = true

-- The first rule of a list that does not parse.
unfoldable pub first_invalid : List Text → Option Text
first_invalid [] = none
first_invalid (rule ∷ rules) =
    let rest = first_invalid rules in if parses (parse_policy_rule rule) then rest else some rule

abbrev or_empty : Option Text → Text
or_empty none = []
or_empty (some rule) = rule

unfoldable pub invalid_rules : PolicyRules → Text
unfolding first_invalid
invalid_rules r = or_empty (first_invalid (r.deny ++ (r.allow ++ r.ask)))

-- What stands at the path of the rules file, if there is such a path.
pub data RulesFile : Type 0 where
  no_path missing unreadable : RulesFile
  holds : Text → RulesFile

-- encoding/json at the type policyRules: Unmarshal, and MarshalIndent.
pub record RulesCodec : Type 0 where
  pub read_rules : Text → Option PolicyRules
  pub show_rules : PolicyRules → Text

abbrev or_default : Option PolicyRules → PolicyRules
or_default none = default_policy_rules
or_default (some r) = r

-- Why nothing was appended.
pub data RuleFileError : Type 0 where
  blank_rule bad_rule no_config_dir mkdir_failed write_failed : RuleFileError

abbrev pub contains_rule : List Text → Text → Bool
contains_rule [] rule = false
contains_rule (x ∷ xs) rule = text_eq x rule || contains_rule xs rule

abbrev pub is_blank : Text → Bool
is_blank [] = true
is_blank (c ∷ s) = false

-- How the two calls that change the disk went: os.WriteFile, where it fails, leaves some file.
pub data DiskOutcome : Type 0 where
  written no_directory : DiskOutcome
  failed : RulesFile → DiskOutcome

module _ (codec : RulesCodec) where
  unfoldable pub load_policy_rules : RulesFile → PolicyRules
  load_policy_rules (holds text) = or_default (codec.read_rules text)
  load_policy_rules no_path = default_policy_rules
  load_policy_rules missing = default_policy_rules
  load_policy_rules unreadable = default_policy_rules

  abbrev pub saved : DiskOutcome → PolicyRules → RulesFile → RulesFile × Option RuleFileError
  saved written r file = (holds (codec.show_rules r ++ 10 ∷ []), none)
  saved no_directory r file = (file, some mkdir_failed)
  saved (failed left) r file = (left, some write_failed)

  abbrev pub added : DiskOutcome → PolicyRules → Text → RulesFile → RulesFile × Option RuleFileError
  added outcome current rule file =
      if contains_rule current.allow rule
      then (file, none)
      else saved outcome (record current { allow = current.allow ++ rule ∷ [] }) file

  abbrev pub appended : DiskOutcome → Text → RulesFile → RulesFile × Option RuleFileError
  appended outcome rule no_path = (no_path, some no_config_dir)
  appended outcome rule file = added outcome (load_policy_rules file) rule file

  -- The file afterwards, and the error.
  unfoldable pub append_allow_rule :
      DiskOutcome → Text → RulesFile → RulesFile × Option RuleFileError
  unfolding load_policy_rules
  append_allow_rule outcome rule file =
      if is_blank (trim_space rule)
      then (file, some blank_rule)
      else if parses (parse_policy_rule rule)
      then appended outcome rule file
      else (file, some bad_rule)
