-- ===== src/Policy/Always/Program.antt =====
-- What the rule proposed for a command covers (src/policy.go: proposeAlwaysRule).
use collectif.Common.{
  ℕ, ◌≡◌, refl, Bool, true, false, ◌&&◌, Bool-cases, inl, inr, [], ◌∷◌, ◌++◌, arith, ◌==◌,
  if◌then◌else◌,
}
use mathlib.Core.List.{reverse, reverse-cons, reverse-append}
use collectif.Text.{Text, codes, is_space, utf8, utf8_char, contains_char}
use collectif.Text.Laws.{IsTrimmed, StartsBare, trim_space-trimmed}
use collectif.Policy.Rule.Parse.{rule_text, parse_policy_rule-rule_text}
use collectif.Policy.Command.{
  command_glob, match_command_pattern, is_command_subject, shell_chaining,
}
use collectif.Policy.Command.Match.{Matches, empty, leave, take, one, same, match_pieces→Matches}
use collectif.Policy.Decide.{match_policy_pattern, rule_applies}
use collectif.Policy.Always.{any_arguments, first_word, propose_always_rule}

-- A text without a space.
abbrev pub IsWord : Text → Type 0
IsWord [] = Unit
IsWord (c ∷ s) = (is_space c ≡ false) × IsWord s

abbrev pub bash : Text
bash = codes "bash"

-- A pattern with a space in it matches only texts with a space.
contains_char-Matches :
    {p s : Text} → Matches p s → contains_char b' ' p ≡ true → contains_char b' ' s ≡ true
unfolding contains_char
contains_char-Matches empty h = h
contains_char-Matches (leave star e m) h = contains_char-Matches m (ground arith)
contains_char-Matches (take star c e m) h = ground (arith, contains_char-Matches m h)
contains_char-Matches (one mark c e m) h = ground (arith, contains_char-Matches m)
contains_char-Matches (same c e e' m) h = elim (Bool-cases (c == b' ')) [
  | inl here ↦ rw here refl
  | inr there ↦ ground (arith, contains_char-Matches m)
]

contains_char-append :
    (b : ℕ) (s t : Text) → contains_char b t ≡ true → contains_char b (s ++ t) ≡ true
unfolding contains_char
contains_char-append b [] t h = h
contains_char-append b (c ∷ s) t h = ground (arith, contains_char-append b s t h)

contains_char-any_arguments : (w : Text) → contains_char b' ' (utf8 (any_arguments w)) ≡ true
unfolding utf8 contains_char
contains_char-any_arguments [] = refl
contains_char-any_arguments (c ∷ w) =
    contains_char-append b' ' (utf8_char c) (utf8 (any_arguments w)) (contains_char-any_arguments w)

contains_char-word : (w : Text) → IsWord w → contains_char b' ' w ≡ false
unfolding contains_char is_space
contains_char-word [] word = refl
contains_char-word (c ∷ w) (h, word) = ground (arith, contains_char-word w word)

match_command_pattern-word :
    (p w : Text) → IsWord w → match_command_pattern (any_arguments p) w ≡ false
unfolding match_command_pattern command_glob
match_command_pattern-word p w word =
    elim (Bool-cases (match_command_pattern (any_arguments p) w)) [
      | inl h ↦
          let reading : Matches (utf8 (any_arguments p)) w =
            match_pieces→Matches (utf8 (any_arguments p)) w h in
          absurd (
            cc (
              contains_char-Matches reading (contains_char-any_arguments p),
              contains_char-word w word,
            ))
      | inr h ↦ h
    ]

first_word-word : (w : Text) → IsWord w → first_word w ≡ w
unfolding first_word
first_word-word [] word = refl
first_word-word (c ∷ w) (h, word) = rw (h, first_word-word w word) refl

StartsBare-snoc : (s : Text) (c : ℕ) → StartsBare s → is_space c ≡ false → StartsBare (s ++ c ∷ [])
StartsBare-snoc [] c h bare = bare
StartsBare-snoc (d ∷ s) c h bare = h

StartsBare-reverse : (w : Text) → IsWord w → StartsBare (reverse w)
StartsBare-reverse [] word = tt
StartsBare-reverse (c ∷ w) (h, word) =
    rw (reverse-cons c w) (StartsBare-snoc (reverse w) c (StartsBare-reverse w word) h)

any_arguments-IsTrimmed : (c : ℕ) (w : Text) → IsWord (c ∷ w) → IsTrimmed (any_arguments (c ∷ w))
unfolding is_space
any_arguments-IsTrimmed c w (h, word) = record {
  first = h;
  final = rw (reverse-append (c ∷ w) (b' ' ∷ b'*' ∷ [])) refl;
}

bash-IsTrimmed : IsTrimmed bash
unfolding is_space
bash-IsTrimmed = record { first = refl; final = refl }

propose_always_rule-bash :
    (c : ℕ) (w : Text)
    → IsWord (c ∷ w)
    → propose_always_rule bash (c ∷ w) ≡ rule_text bash (any_arguments (c ∷ w))
unfolding propose_always_rule is_command_subject
propose_always_rule-bash c w (h, word) =
    rw
      (
        trim_space-trimmed (c ∷ w)
            (record { first = h; final = StartsBare-reverse (c ∷ w) (h, word) }),
        first_word-word (c ∷ w) (h, word),
      )
      refl

both_false : (b : Bool) → (if b then false else false) ≡ false
both_false true = refl
both_false false = refl

-- The rule that the answer "always" proposes for a command of one word does not apply to that
-- command: its pattern wants a space behind the word.
pub propose_always_rule-word :
    (match_glob : Text → Text → Bool) (loosening : Bool) (c : ℕ) (w : Text)
    → IsWord (c ∷ w)
    → rule_applies match_glob loosening bash (c ∷ w) (propose_always_rule bash (c ∷ w)) ≡ false
unfolding rule_applies match_policy_pattern is_command_subject
propose_always_rule-word match_glob loosening c w word =
    rw
      (
        propose_always_rule-bash c w word,
        parse_policy_rule-rule_text bash (any_arguments (c ∷ w)) refl bash-IsTrimmed (omega arith)
            refl (any_arguments-IsTrimmed c w word),
        match_command_pattern-word (c ∷ w) (c ∷ w) word,
      )
      (both_false (loosening && shell_chaining (c ∷ w)))
