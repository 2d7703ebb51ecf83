-- ===== src/Policy/Decide/Paths.antt =====
-- Rules about paths, with the path matcher of the file tools (src/policy.go: decide, firstMatch;
-- src/tools_fs.go: matchGlob).
use collectif.Common.{◌≡◌, refl, inl, Bool, true, false, ◌||◌, some, List, ◌++◌, ◌∷◌, arith}
use collectif.Text.{Text}
use collectif.Text.Laws.{text_eq_iff}
use collectif.Notebook.Cells.{PolicyRules}
use collectif.Tools.Glob.{has_stars, climbs, match_glob}
use collectif.Tools.Glob.Reading.{Reads, match_glob_iff}
use collectif.Policy.Rule.{parse_policy_rule}
use collectif.Policy.Command.{is_command_subject}
use collectif.Policy.Decide.{deny, decide, merge_policy, match_policy_pattern, rule_applies}
use collectif.Policy.Decide.Verdicts.{
  some_applies, some_applies-append, decide-deny_iff, merge_policy-deny_iff,
}

||-last : (a : Bool) → (a || true) ≡ true
||-last a = ground arith

some_applies-within :
    (tool subject : Text) (loosening : Bool) (before behind : List Text) (rule : Text)
    → rule_applies match_glob loosening tool subject rule ≡ true
    → some_applies match_glob tool subject loosening (before ++ rule ∷ behind) ≡ true
unfolding some_applies
some_applies-within tool subject loosening before behind rule h =
    rw (some_applies-append match_glob tool subject loosening before (rule ∷ behind), h)
      (||-last (some_applies match_glob tool subject loosening before))

-- A rule about paths applies to the paths that its pattern reads as.
pub rule_applies-path :
    (tool subject rule pattern : Text)
    → parse_policy_rule rule ≡ some (tool, pattern)
    → is_command_subject tool ≡ false
    → match_glob pattern subject ≡ true
    → rule_applies match_glob false tool subject rule ≡ true
unfolding rule_applies match_policy_pattern
rule_applies-path tool subject rule pattern e path matched =
    rw (e, (text_eq_iff tool tool).1 refl, path, matched) refl

-- Where the machine's rules hold a deny rule with a pattern that has `**` in it, which begins with
-- neither a slash nor two dots, then under the merged rules a tool of paths is denied every path that the pattern reads
-- as, whatever the notebook's own rules and the other rules say.
pub decide-Reads :
    (global own : PolicyRules) (tool subject rule pattern : Text) (before behind : List Text)
    → global.deny ≡ before ++ rule ∷ behind
    → parse_policy_rule rule ≡ some (tool, pattern)
    → is_command_subject tool ≡ false
    → has_stars pattern ≡ true
    → climbs pattern ≡ false
    → Reads pattern subject
    → (decide match_glob (merge_policy global own) tool subject).verdict ≡ deny
decide-Reads global own tool subject rule pattern before behind held e path stars inside reads =
    let matched = (match_glob_iff pattern subject stars inside).1 reads in
    let applies = rule_applies-path tool subject rule pattern e path matched in
    let applied : some_applies match_glob tool subject false global.deny ≡ true =
      rw held (some_applies-within tool subject false before behind rule applies) in
    (merge_policy-deny_iff match_glob tool subject global own).1
      (inl ((decide-deny_iff match_glob tool subject global).1 applied))
