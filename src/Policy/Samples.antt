-- ===== src/Policy/Samples.antt =====
-- Rules, commands and questions (src/policy.go): tests, and the engine's theorems at them.
use collectif.Common.{
  ◌≡◌, refl, ◌≢◌, ◌⊎◌, ◌↔◌, inl, inr, Bool, true, false, none, some, [], ◌∷◌, arith,
}
use collectif.Text.{Text, codes, text_eq, trim_space, index_of, ends_with}
use collectif.Notebook.Cells.{PolicyRules}
use collectif.Policy.Rule.{parse_policy_rule}
use collectif.Policy.Command.{match_command_pattern, is_command_subject, shell_chaining}
use collectif.Policy.Command.Match.{Matches, match_command_pattern_iff, match_command_pattern-wide}
use collectif.Policy.Decide.{
  deny, allow, ask, PolicyDecision, decide, merge_policy, rule_applies, match_policy_pattern,
}
use collectif.Policy.Decide.Verdicts.{
  Decision, test_of, decide-Decision, decide-chained, merge_policy-deny_iff,
}
use collectif.Policy.Question.{
  Answer, approve, refuse, always, Waited, answered, draining, ended, Question, opened, late,
  take_up, send, put_back, receive, miss, Reach, here, next,
}
use collectif.Policy.Question.Claims.{answer-stands, stranded-Step}

parse_read : parse_policy_rule (codes " read( **/.env )") ≡ some (codes "read", codes "**/.env")
unfolding parse_policy_rule trim_space index_of ends_with
parse_read = refl

parse_bare : parse_policy_rule (codes "bash") ≡ some (codes "bash", codes "*")
unfolding parse_policy_rule trim_space index_of ends_with
parse_bare = refl

parse_unclosed : parse_policy_rule (codes "bash(ls") ≡ none
unfolding parse_policy_rule trim_space index_of ends_with
parse_unclosed = refl

match_command_pattern_iff_example :
    (match_command_pattern (codes "rm -rf *") (codes "rm -rf /home") ≡ true)
    ↔ Matches (codes "rm -rf *") (codes "rm -rf /home")
match_command_pattern_iff_example =
    match_command_pattern_iff (codes "rm -rf *") (codes "rm -rf /home") (omega arith)

remove_matches : match_command_pattern (codes "rm -rf *") (codes "rm -rf /home") ≡ true
unfolding match_command_pattern
remove_matches = refl

match_command_pattern-wide_example : match_command_pattern (codes "rm é") (codes "rm é") ≡ false
match_command_pattern-wide_example =
    match_command_pattern-wide (codes "rm é") (codes "rm é") (omega arith)
      (inr (inr (inr (inl (omega arith))))) (omega arith)

-- A matcher of paths that knows one pattern.
abbrev everything : Text → Text → Bool
everything pattern subject = text_eq pattern (codes "**")

abbrev rules : PolicyRules
rules = record {
  deny = codes "bash(rm *)" ∷ [];
  allow = codes "read(**)" ∷ codes "bash(git diff*)" ∷ [];
  ask = codes "write(**)" ∷ [];
}

decide_allow :
    decide everything rules (codes "bash") (codes "git diff")
    ≡ record { verdict = allow; rule = codes "bash(git diff*)" }
unfolding decide rule_applies match_policy_pattern match_command_pattern is_command_subject
    shell_chaining parse_policy_rule trim_space index_of ends_with
decide_allow = refl

decide-Decision_example :
    Decision
      (test_of everything (codes "read") (codes "a.go"))
      rules
      (decide everything rules (codes "read") (codes "a.go"))
decide-Decision_example = decide-Decision everything (codes "read") (codes "a.go") rules

decide-chained_example :
    (decide everything rules (codes "bash") (codes "git diff; ls")).verdict ≢ allow
unfolding is_command_subject shell_chaining
decide-chained_example =
    decide-chained everything (codes "bash") (codes "git diff; ls") rules refl refl

merge_policy-deny_iff_example :
    ((decide everything (merge_policy rules rules) (codes "bash") (codes "rm x")).verdict ≡ deny)
    ↔ (((decide everything rules (codes "bash") (codes "rm x")).verdict ≡ deny)
        ⊎ ((decide everything rules (codes "bash") (codes "rm x")).verdict ≡ deny))
merge_policy-deny_iff_example =
    merge_policy-deny_iff everything (codes "bash") (codes "rm x") rules rules

-- A handler takes the question, and sends its answer.
abbrev taken : Question
taken = record opened { registered = false; held = refuse ∷ [] }

abbrev sent : Question
sent = record taken { held = []; channel = some refuse }

abbrev over : Question
over = record sent { channel = none; waiter = ended (answered refuse) }

taken-Reach : Reach opened taken
taken-Reach = next here (take_up refuse refl refl)

sent-Reach : Reach opened sent
sent-Reach = next taken-Reach (send refuse [] [] refl refl refl)

over-Reach : Reach sent over
over-Reach = next here (receive refuse refl refl refl)

answer-stands_example : answered refuse ≡ answered refuse
answer-stands_example =
    answer-stands {q = sent} {q' = over} refuse (answered refuse) sent-Reach refl over-Reach refl

-- The timer fires first: the run takes the question back.
abbrev timed_out : Question
timed_out = record opened { registered = false; waiter = ended Waited.expired }

-- The timer fires while a handler of an "always" has the question, whose rule it cannot write.
abbrev stranded : Question
stranded = record opened { waiter = draining }

stranded-Reach : Reach opened stranded
stranded-Reach =
    next (next (next here (take_up always refl refl)) (miss Waited.expired late refl refl refl))
      (put_back [] [] refl refl)

stranded-Step_example :
    (a : Answer) × (record stranded { registered = false; held = approve ∷ [] }
      ≡ record stranded { registered = false; held = a ∷ [] })
stranded-Step_example =
    stranded-Step {q = stranded} {q' = record stranded { registered = false; held = approve ∷ [] }}
      stranded-Reach (refl, refl) (take_up approve refl refl)

abbrev asked : PolicyDecision
asked = record { verdict = ask; rule = codes "write(**)" }
