-- ===== src/Policy/Rule/Parse.antt =====
-- Reading a rule (src/policy.go: parsePolicyRule).
use collectif.Common.{
  ℕ, zero, suc, ◌+◌, ◌-◌, ◌≤◌, ◌≡◌, refl, sym, ap, true, false, some, List, [], ◌∷◌, ◌++◌, arith,
  length, take, drop, length-append,
}
use mathlib.Core.List.{reverse-append, append_assoc}
use collectif.Text.{Text, is_space, index_of, ends_with}
use collectif.Text.Laws.{
  StartsBare, IsTrimmed, trim_space-trimmed, Lacks, index_of-append, ends_with-append,
}
use collectif.Policy.Rule.{slice, is_blank, open_paren, close_paren, parse_policy_rule}

take-append {ℓ} : {A : Type ℓ} (s t : List A) → take (length s) (s ++ t) ≡ s
take-append [] t = refl
take-append (x ∷ s) t = ap (◌∷◌ x) (take-append s t)

drop-past {ℓ} :
    {A : Type ℓ} (n : ℕ) (s : List A) (a : A) (t : List A)
    → n ≡ length s + 1
    → drop n (s ++ a ∷ t) ≡ t
drop-past zero s a t h = absurd (omega arith)
drop-past (suc n) [] a t h = let e : n ≡ 0 = omega arith in rw e
drop-past (suc n) (x ∷ s) a t h = drop-past n s a t (omega arith)

-- The text of a rule.
abbrev pub rule_text : Text → Text → Text
rule_text tool pattern = tool ++ open_paren ∷ (pattern ++ close_paren ∷ [])

abbrev IsGiven : Text → Type 0
IsGiven s = is_blank s ≡ false

StartsBare-append : (s t : Text) → IsGiven s → StartsBare s → StartsBare (s ++ t)
StartsBare-append [] t g h = absurd (cc)
StartsBare-append (c ∷ s) t g h = h

rule_text-IsTrimmed :
    (tool pattern : Text) → IsGiven tool → IsTrimmed tool → IsTrimmed (rule_text tool pattern)
unfolding is_space
rule_text-IsTrimmed tool pattern g t = record {
  first = StartsBare-append tool _ g t.first;
  final =
      rw
        (
          sym (append_assoc tool (open_paren ∷ pattern) (close_paren ∷ [])),
          reverse-append (tool ++ open_paren ∷ pattern) (close_paren ∷ []),
        )
        refl;
}

-- The pieces that the function cuts out of a rule's text.
slice-pattern :
    (tool pattern : Text)
    → slice (length tool + 1) (length (rule_text tool pattern) - 1) (rule_text tool pattern)
      ≡ pattern
slice-pattern tool pattern =
    rw (drop-past (length tool + 1) tool open_paren (pattern ++ close_paren ∷ []) refl, slice_width)
      (take-append pattern (close_paren ∷ []))
  where
    slice_width : length (rule_text tool pattern) - 1 - (length tool + 1) ≡ length pattern
    slice_width = omega (
      arith,
      length-append tool (open_paren ∷ (pattern ++ close_paren ∷ [])),
      length-append pattern (close_paren ∷ []),
    )

rule_text-closed : (tool pattern : Text) → ends_with close_paren (rule_text tool pattern) ≡ true
rule_text-closed tool pattern =
    rw (sym (append_assoc tool (open_paren ∷ pattern) (close_paren ∷ [])))
      (ends_with-append close_paren (tool ++ open_paren ∷ pattern))

-- Reading back the text of a rule gives its tool and its pattern.
pub parse_policy_rule-rule_text :
    (tool pattern : Text)
    → IsGiven tool
    → IsTrimmed tool
    → Lacks open_paren tool
    → IsGiven pattern
    → IsTrimmed pattern
    → parse_policy_rule (rule_text tool pattern) ≡ some (tool, pattern)
unfolding parse_policy_rule
parse_policy_rule-rule_text [] pattern given trimmed lacks given' trimmed' = absurd (cc)
parse_policy_rule-rule_text (c ∷ tool) pattern given trimmed lacks given' trimmed' =
    rw
      (
        trim_space-trimmed (rule_text (c ∷ tool) pattern)
            (rule_text-IsTrimmed (c ∷ tool) pattern given trimmed),
        index_of-append open_paren (c ∷ tool) (pattern ++ close_paren ∷ []) lacks,
        rule_text-closed (c ∷ tool) pattern,
        slice-pattern (c ∷ tool) pattern,
        take-append (c ∷ tool) (open_paren ∷ (pattern ++ close_paren ∷ [])),
        trim_space-trimmed (c ∷ tool) trimmed,
        trim_space-trimmed pattern trimmed',
        given',
      )
      refl

ends_with-length : (b : ℕ) (s : Text) → ends_with b s ≡ true → 1 ≤ length s
unfolding ends_with
ends_with-length b [] h = absurd (cc)
ends_with-length b (c ∷ s) h = omega arith

-- The slice of a pattern lies within the rule, so that cutting it out cannot panic.
pub slice_in_range :
    (rule : Text) (at : ℕ)
    → index_of open_paren rule ≡ some at
    → ends_with close_paren rule ≡ true
    → (at + 1 ≤ length rule - 1) × (length rule - 1 ≤ length rule)
unfolding index_of ends_with
slice_in_range [] at f e = absurd (cc)
slice_in_range (c ∷ []) at f e = ground arith
slice_in_range (c ∷ d ∷ s) zero f e = omega arith
slice_in_range (c ∷ d ∷ s) (suc at) f e = ground (arith, slice_in_range (d ∷ s) at)
