-- ===== src/Policy/File/Appending.antt =====
-- What appendAllowRule leaves in the rules file (src/policy.go: appendAllowRule, loadPolicyRules).
use collectif.Common.{
  ◌≡◌, refl, ◌⊎◌, inl, inr, true, Bool-cases, none, some, List, [], ◌∷◌, ◌++◌, arith,
}
use collectif.Text.{Text, trim_space}
use collectif.Text.Laws.{text_eq_iff}
use collectif.Notebook.Cells.{PolicyRules}
use collectif.Policy.Rule.{parse_policy_rule}
use collectif.Policy.File.{
  is_blank, parses, RulesFile, no_path, missing, unreadable, holds, RulesCodec, load_policy_rules,
  contains_rule, DiskOutcome, written, no_directory, failed, saved, added, appended,
  append_allow_rule,
}

-- encoding/json reads back what it has written, with a newline behind it.
abbrev pub IsReadBack : RulesCodec → Type 0
IsReadBack codec = (r : PolicyRules) → codec.read_rules (codec.show_rules r ++ 10 ∷ []) ≡ some r

contains_rule-last :
    (rules : List Text) (rule : Text) → contains_rule (rules ++ rule ∷ []) rule ≡ true
contains_rule-last [] rule = ground (arith, (text_eq_iff rule rule).1 refl)
contains_rule-last (x ∷ xs) rule = ground (arith, contains_rule-last xs rule)

-- The rules in force before and after a rule was added: it is among the allow rules, which have grown
-- by it alone or not at all, and the others stay.
pub record HasGained (rule : Text) (r r' : PolicyRules) : Type 0 where
  pub held : contains_rule r'.allow rule ≡ true
  pub allowed : (r'.allow ≡ r.allow) ⊎ (r'.allow ≡ r.allow ++ rule ∷ [])
  pub denied : r'.deny ≡ r.deny
  pub asked : r'.ask ≡ r.ask

module _ (codec : RulesCodec) (reads_back : IsReadBack codec) where
  saved-HasGained :
      (outcome : DiskOutcome) (r : PolicyRules) (rule : Text) (file : RulesFile)
      → (saved codec outcome (record r { allow = r.allow ++ rule ∷ [] }) file).1 ≡ none
      → HasGained rule r (
          load_policy_rules codec
            (saved codec outcome (record r { allow = r.allow ++ rule ∷ [] }) file).0)
  unfolding load_policy_rules
  saved-HasGained no_directory r rule file done = absurd (cc)
  saved-HasGained (failed left) r rule file done = absurd (cc)
  saved-HasGained written r rule file done =
      rw (reads_back (record r { allow = r.allow ++ rule ∷ [] })) (record {
        held = contains_rule-last r.allow rule;
        allowed = inr refl;
        denied = refl;
        asked = refl;
      })

  added-HasGained :
      (outcome : DiskOutcome) (r : PolicyRules) (rule : Text) (file : RulesFile)
      → r ≡ load_policy_rules codec file
      → (added codec outcome r rule file).1 ≡ none
      → HasGained rule r (load_policy_rules codec (added codec outcome r rule file).0)
  added-HasGained outcome r rule file e done = elim (Bool-cases (contains_rule r.allow rule)) [
    | inl known ↦
        rw (known, ← e) (record { held = known; allowed = inl refl; denied = refl; asked = refl })
    | inr new ↦ rw new (saved-HasGained outcome r rule file (rw new at done))
  ]

  appended-HasGained :
      (outcome : DiskOutcome) (rule : Text) (file : RulesFile)
      → (appended codec outcome rule file).1 ≡ none
      → HasGained rule
          (load_policy_rules codec file)
          (load_policy_rules codec (appended codec outcome rule file).0)
  appended-HasGained outcome rule no_path done = absurd (cc)
  appended-HasGained outcome rule missing done =
      added-HasGained outcome (load_policy_rules codec missing) rule missing refl done
  appended-HasGained outcome rule unreadable done =
      added-HasGained outcome (load_policy_rules codec unreadable) rule unreadable refl done
  appended-HasGained outcome rule (holds text) done =
      added-HasGained outcome (load_policy_rules codec (holds text)) rule (holds text) refl done

  -- Where appendAllowRule reports no error, the rules in force afterwards allow by the rule, and are
  -- otherwise those that were in force before. With encoding/json reading back what it writes.
  pub append_allow_rule-HasGained :
      (outcome : DiskOutcome) (rule : Text) (file : RulesFile)
      → (append_allow_rule codec outcome rule file).1 ≡ none
      → HasGained rule
          (load_policy_rules codec file)
          (load_policy_rules codec (append_allow_rule codec outcome rule file).0)
  unfolding append_allow_rule
  append_allow_rule-HasGained outcome rule file done =
      elim (Bool-cases (is_blank (trim_space rule))) [
        | inl blank ↦ absurd (cc (rw blank at done))
        | inr given ↦ elim (Bool-cases (parses (parse_policy_rule rule))) [
          | inl good ↦
              rw (given, good) (appended-HasGained outcome rule file (rw (given, good) at done))
          | inr bad ↦ absurd (cc (rw (given, bad) at done))
        ]
      ]
