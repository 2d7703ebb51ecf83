-- ===== src/Policy/Decide/Verdicts.antt =====
-- What a decision says (src/policy.go: decide, firstMatch, mergePolicy).
use collectif.Common.{
  ◌≡◌, refl, sym, ap, ◌∙◌, ◌≢◌, ◌⊎◌, ◌↔◌, inl, inr, Bool, true, false, ◌||◌, Bool-cases,
  Option-cases, Option, none, some, List, [], ◌∷◌, ◌++◌, arith,
}
use mathlib.Core.List.{append-nil}
use collectif.Text.{Text}
use collectif.Notebook.Cells.{PolicyRules}
use collectif.Policy.Rule.{parse_policy_rule}
use collectif.Policy.Command.{is_command_subject, shell_chaining}
use collectif.Policy.Decide.{
  deny, allow, ask, PolicyDecision, rule_applies, first_match, decided, decide, concat_rules,
  merge_policy,
}

abbrev pub AllFail : (Text → Bool) → List Text → Type 0
AllFail test [] = Unit
AllFail test (x ∷ xs) = (test x ≡ false) × AllFail test xs

-- The first rule of a list that passes a test: all in front of it fail.
pub record IsLeading (test : Text → Bool) (rules : List Text) (rule : Text) : Type 0 where
  pub before : List Text
  pub behind : List Text
  pub whole : rules ≡ before ++ rule ∷ behind
  pub passes : test rule ≡ true
  pub others : AllFail test before

-- The decision on a call: the deny rules go first, then the allow rules, which no chained command
-- passes, then the ask rules; a call that no rule fits is asked about, and names no rule.
pub data Decision (test : Bool → Text → Bool) (r : PolicyRules) : PolicyDecision → Type 0 where
  denied :
      (rule : Text) (d : PolicyDecision)
      → IsLeading (test false) r.deny rule
      → d ≡ record { verdict = deny; rule = rule }
      → Decision test r d
  allowed :
      (rule : Text) (d : PolicyDecision)
      → AllFail (test false) r.deny
      → IsLeading (test true) r.allow rule
      → d ≡ record { verdict = allow; rule = rule }
      → Decision test r d
  asked :
      (rule : Text) (d : PolicyDecision)
      → AllFail (test false) r.deny
      → AllFail (test true) r.allow
      → IsLeading (test false) r.ask rule
      → d ≡ record { verdict = ask; rule = rule }
      → Decision test r d
  unmatched :
      (d : PolicyDecision)
      → AllFail (test false) r.deny
      → AllFail (test true) r.allow
      → AllFail (test false) r.ask
      → d ≡ record { verdict = ask; rule = [] }
      → Decision test r d

denied_by : (o a k : Option Text) → (decided o a k).verdict ≡ deny → (rule : Text) × (o ≡ some rule)
denied_by (some rule) a k h = (rule, refl)
denied_by none (some rule) k h = absurd (cc)
denied_by none none (some rule) h = absurd (cc)
denied_by none none none h = absurd (cc)

module _ (match_glob : Text → Text → Bool) (tool subject : Text) where
  abbrev pub test_of : Bool → Text → Bool
  test_of loosening = rule_applies match_glob loosening tool subject

  abbrev first_of_rules : Bool → List Text → Option Text
  first_of_rules loosening rules = first_match match_glob rules tool subject loosening

  first_match_cases :
      (loosening : Bool) (rules : List Text)
      → ((first_of_rules loosening rules ≡ none) × AllFail (test_of loosening) rules)
        ⊎ ((rule : Text) × (first_of_rules loosening rules ≡ some rule)
            × IsLeading (test_of loosening) rules rule)
  unfolding first_match
  first_match_cases loosening [] = inl (refl, tt)
  first_match_cases loosening (x ∷ xs) = elim (Bool-cases (test_of loosening x)) [
    | inl e ↦
        inr (x, rw e, record { before = []; behind = xs; whole = refl; passes = e; others = tt })
    | inr e ↦ elim (first_match_cases loosening xs) [
      | inl (none_found, fail) ↦ inl (rw e none_found, (e, fail))
      | inr (rule, found, first) ↦ inr (
        rule,
        rw e found,
        record {
          before = x ∷ first.before;
          behind = first.behind;
          whole = ap (◌∷◌ x) first.whole;
          passes = first.passes;
          others = (e, first.others);
        },
      )
    ]
  ]

  -- A decision is the verdict of the first list, in the order deny, allow, ask, that has a rule
  -- which applies to the call, and names the first such rule of that list; where no list has one,
  -- the verdict is to ask, with no rule.
  pub decide-Decision : (r : PolicyRules) → Decision test_of r (decide match_glob r tool subject)
  unfolding decide
  decide-Decision r = elim (first_match_cases false r.deny) [
    | inr (rule, found, first) ↦ denied rule _ first (rw found)
    | inl (no_deny, deny_fails) ↦ elim (first_match_cases true r.allow) [
      | inr (rule, found, first) ↦ allowed rule _ deny_fails first (rw (no_deny, found))
      | inl (no_allow, allow_fails) ↦ elim (first_match_cases false r.ask) [
        | inr (rule, found, first) ↦
            asked rule _ deny_fails allow_fails first (rw (no_deny, no_allow, found))
        | inl (no_ask, ask_fails) ↦
            unmatched _ deny_fails allow_fails ask_fails (rw (no_deny, no_allow, no_ask))
      ]
    ]
  ]

  chained-fails :
      (rule : Text)
      → is_command_subject tool ≡ true
      → shell_chaining subject ≡ true
      → test_of true rule ≡ false
  unfolding rule_applies
  chained-fails rule command chained = elim (Option-cases (parse_policy_rule rule)) [
    | inl e ↦ rw e
    | inr ((rule_tool, pattern), e) ↦ rw (e, command, chained) (ground arith)
  ]

  -- A chained command is never allowed by a rule, whatever the rules are.
  pub decide-chained :
      (r : PolicyRules)
      → is_command_subject tool ≡ true
      → shell_chaining subject ≡ true
      → (decide match_glob r tool subject).verdict ≢ allow
  decide-chained r command chained is_allowed = refute (decide-Decision r)
    where
      refute : Decision test_of r (decide match_glob r tool subject) → ⊥
      refute (denied rule d first e) = cc
      refute (allowed rule d fails first e) = cc (chained-fails rule command chained, first.passes)
      refute (asked rule d fails fails' first e) = cc
      refute (unmatched d fails fails' fails'' e) = cc

  unfoldable pub some_applies : Bool → List Text → Bool
  some_applies loosening [] = false
  some_applies loosening (x ∷ xs) = test_of loosening x || some_applies loosening xs

  first_match-some_applies :
      (loosening : Bool) (rules : List Text)
      → (some_applies loosening rules ≡ true)
        ↔ ((rule : Text) × (first_of_rules loosening rules ≡ some rule))
  unfolding some_applies first_match
  first_match-some_applies loosening [] = (λ h. absurd (cc), λ (rule, h). cc)
  first_match-some_applies loosening (x ∷ xs) = elim (Bool-cases (test_of loosening x)) [
    | inl e ↦ rw e (λ _. (x, refl), λ _. refl)
    | inr e ↦ rw e (first_match-some_applies loosening xs)
  ]

  pub some_applies-append :
      (loosening : Bool) (xs ys : List Text)
      → some_applies loosening (xs ++ ys) ≡ (some_applies loosening xs || some_applies loosening ys)
  unfolding some_applies
  some_applies-append loosening [] ys = refl
  some_applies-append loosening (x ∷ xs) ys = ground (arith, some_applies-append loosening xs ys)

  -- A call is denied exactly where a deny rule applies to it.
  pub decide-deny_iff :
      (r : PolicyRules)
      → ((decide match_glob r tool subject).verdict ≡ deny) ↔ (some_applies false r.deny ≡ true)
  unfolding decide
  decide-deny_iff r = (
    λ h. (first_match-some_applies false r.deny).1 (denied_by _ _ _ h),
    λ h. let (rule, found) = (first_match-some_applies false r.deny).0 h in rw found,
  )

||-cases : (a b : Bool) → (a || b) ≡ true → (a ≡ true) ⊎ (b ≡ true)
||-cases true b h = inl refl
||-cases false b h = inr h

||-true : (a b : Bool) → (a ≡ true) ⊎ (b ≡ true) → (a || b) ≡ true
||-true a b h = ground arith

concat_rules-append : (a b : List Text) → concat_rules a b ≡ a ++ b
unfolding concat_rules
concat_rules-append [] b = refl
concat_rules-append (x ∷ a) [] = sym (append-nil (x ∷ a))
concat_rules-append (x ∷ a) (y ∷ b) = refl

deny-merge_policy :
    (global notebook : PolicyRules)
    → (merge_policy global notebook).deny ≡ global.deny ++ notebook.deny
unfolding merge_policy
deny-merge_policy global notebook = concat_rules-append global.deny notebook.deny

module _ (match_glob : Text → Text → Bool) (tool subject : Text)
    (global notebook : PolicyRules) where
  -- Under the merged rules a call is denied exactly where the machine's rules or the notebook's own
  -- deny it, so that a notebook's rules can add denials and cannot take one away.
  pub merge_policy-deny_iff :
      ((decide match_glob (merge_policy global notebook) tool subject).verdict ≡ deny) ↔ (
        ((decide match_glob global tool subject).verdict ≡ deny)
        ⊎ ((decide match_glob notebook tool subject).verdict ≡ deny))
  merge_policy-deny_iff =
      let whole = decide-deny_iff match_glob tool subject (merge_policy global notebook) in
      let ours = decide-deny_iff match_glob tool subject global in
      let theirs = decide-deny_iff match_glob tool subject notebook in
      (
        λ h. elim (||-cases (applies global.deny) (applies notebook.deny) (merged ∙ whole.0 h)) [
          | inl e ↦ inl (ours.1 e)
          | inr e ↦ inr (theirs.1 e)
        ],
        λ h. whole.1 (
            sym merged ∙ elim h [
              | inl e ↦ ||-true _ _ (inl (ours.0 e))
              | inr e ↦ ||-true _ _ (inr (theirs.0 e))
            ]),
      )
    where
      applies : List Text → Bool
      applies = some_applies match_glob tool subject false

      merged :
          (applies global.deny || applies notebook.deny)
          ≡ some_applies match_glob tool subject false (merge_policy global notebook).deny
      merged = sym (
          ap applies (deny-merge_policy global notebook)
          ∙ some_applies-append match_glob tool subject false global.deny notebook.deny)
