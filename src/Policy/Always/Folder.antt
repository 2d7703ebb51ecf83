-- ===== src/Policy/Always/Folder.antt =====
-- What the rule proposed for a path covers (src/policy.go: proposeAlwaysRule, matchPolicyPattern).
use collectif.Common.{
  ℕ, ◌≡◌, ◌≢◌, refl, sym, ap, ◌∙◌, ◌↔◌, ◌&&◌, Bool, true, false, [], ◌∷◌, ◌++◌, arith, ◌==◌,
}
use mathlib.Core.List.{reverse-append, append-nil}
use collectif.Text.{Text, is_space}
use collectif.Text.Laws.{text_eq_iff, IsTrimmed, StartsBare, Lacks, trim_space-trimmed}
use collectif.Tools.PathMatch.{slash}
use collectif.Tools.CleanPath.{clean_path, up_to_slash, dir_path}
use collectif.Tools.Glob.{not_newline, has_stars, climbs, contains_slash, match_glob}
use collectif.Tools.Glob.Runs.{AllPass}
use collectif.Tools.Glob.Reading.{
  Reads, empty, no_folders, some_folders, any, within, single, same, match_glob_iff,
}
use collectif.Policy.Rule.Parse.{rule_text, parse_policy_rule-rule_text}
use collectif.Policy.Command.{is_command_subject}
use collectif.Policy.Decide.{match_policy_pattern, rule_applies}
use collectif.Policy.Always.{is_blank, everything, is_top, below, propose_always_rule}

-- A path without the two characters that a pattern reads as more than themselves.
abbrev pub IsPlain : Text → Type 0
IsPlain [] = Unit
IsPlain (c ∷ s) = (c ≢ b'*') × (c ≢ b'?') × IsPlain s

Reads-literal :
    (c : ℕ) (p s : Text)
    → c ≢ b'*'
    → c ≢ b'?'
    → Reads (c ∷ p) s
    → (t : Text) × (s ≡ c ∷ t) × Reads p t
Reads-literal c p s no_star no_mark (no_folders m) = absurd (no_star refl)
Reads-literal c p s no_star no_mark (some_folders run all e m) = absurd (no_star refl)
Reads-literal c p s no_star no_mark (any run apart all e m) = absurd (no_star refl)
Reads-literal c p s no_star no_mark (within run alone all e m) = absurd (no_star refl)
Reads-literal c p s no_star no_mark (single d h m) = absurd (no_mark refl)
Reads-literal c p s no_star no_mark (same {s = t} d h h' m) = (t, refl, m)

Reads-prefix :
    (dir p s : Text) → IsPlain dir → Reads (dir ++ p) s → (t : Text) × (s ≡ dir ++ t) × Reads p t
Reads-prefix [] p s plain m = (s, refl, m)
Reads-prefix (c ∷ dir) p s (no_star, no_mark, plain) m =
    let (t, e, m') = Reads-literal c (dir ++ p) s no_star no_mark m in
    let (t', e', m'') = Reads-prefix dir p t plain m' in (t', e ∙ ap (◌∷◌ c) e', m'')

prefix-Reads : (dir p t : Text) → IsPlain dir → Reads p t → Reads (dir ++ p) (dir ++ t)
prefix-Reads [] p t plain m = m
prefix-Reads (c ∷ dir) p t (no_star, no_mark, plain) m =
    same c no_star no_mark (prefix-Reads dir p t plain m)

Reads-nil : (s : Text) → Reads [] s → s ≡ []
Reads-nil s empty = refl

AllPass-nil : (s run : Text) → AllPass not_newline run → s ≡ run ++ [] → AllPass not_newline s
AllPass-nil s run all e = rw (e, append-nil run) all

Reads-everything : (s : Text) → Reads everything s → AllPass not_newline s
Reads-everything s (any {s = t} run apart all e m) = AllPass-nil s run all (rw (← Reads-nil t m) e)
Reads-everything s (within run alone all e m) = absurd (cc)
Reads-everything s (same c no_star no_mark m) = absurd (no_star refl)

everything-Reads : (s : Text) → AllPass not_newline s → Reads everything s
everything-Reads s all = any s refl all (sym (append-nil s)) empty

-- The pattern below a directory.
abbrev pub pattern_below : Text → Text
pattern_below dir = dir ++ slash ∷ everything

pattern_below-Reads :
    (dir s : Text)
    → IsPlain dir
    → Reads (pattern_below dir) s ↔ ((t : Text) × (s ≡ dir ++ slash ∷ t) × AllPass not_newline t)
pattern_below-Reads dir s plain = (
  λ m.
      let (t, e, m') = Reads-prefix dir (slash ∷ everything) s plain m in
      let (t', e', m'') = Reads-literal slash everything t (omega arith) (omega arith) m' in
      (t', e ∙ ap (◌++◌ dir) e', Reads-everything t' m''),
  λ (t, e, all). rw e (
      prefix-Reads dir (slash ∷ everything) (slash ∷ t) plain
        (same slash (omega arith) (omega arith) (everything-Reads t all))),
)

has_stars-append : (dir : Text) → has_stars (pattern_below dir) ≡ true
unfolding has_stars
has_stars-append [] = refl
has_stars-append (c ∷ []) = ground (arith, has_stars-append [])
has_stars-append (c ∷ d ∷ dir) = ground (arith, has_stars-append (d ∷ dir))

climbs-append :
    (dir : Text) → is_blank dir ≡ false → climbs dir ≡ false → climbs (pattern_below dir) ≡ false
climbs-append [] given h = absurd (cc)
climbs-append (c ∷ []) given h = ground arith
climbs-append (c ∷ d ∷ dir) given h = h

is_blank-append : (s t : Text) → is_blank s ≡ false → is_blank (s ++ t) ≡ false
is_blank-append [] t h = absurd (cc)
is_blank-append (c ∷ s) t h = refl

-- The directory of a path is what stands in front of its last slash, if that is clean.
up_to_slash-name : (name : Text) → contains_slash name ≡ false → up_to_slash name ≡ []
unfolding contains_slash up_to_slash
up_to_slash-name [] h = refl
up_to_slash-name (c ∷ s) h =
    let other : (c == slash) ≡ false = ground arith in
    rw (up_to_slash-name s (ground arith), other) refl

up_to_slash-append :
    (dir name : Text)
    → contains_slash name ≡ false
    → up_to_slash (dir ++ slash ∷ name) ≡ dir ++ slash ∷ []
unfolding up_to_slash
up_to_slash-append [] name h = rw (up_to_slash-name name h) refl
up_to_slash-append (c ∷ []) name h = rw (up_to_slash-append [] name h) refl
up_to_slash-append (c ∷ d ∷ dir) name h = rw (up_to_slash-append (d ∷ dir) name h) refl

pattern_below-IsTrimmed :
    (dir : Text) → is_blank dir ≡ false → StartsBare dir → IsTrimmed (pattern_below dir)
unfolding is_space
pattern_below-IsTrimmed [] given first = absurd (cc)
pattern_below-IsTrimmed (c ∷ dir) given first = record {
  first = first;
  final = rw (reverse-append (c ∷ dir) (slash ∷ everything)) refl;
}

-- A directory that the rule of a path in it can be about: clean, not the top one, not absolute and not
-- beginning with two dots.
pub record IsFolder (dir : Text) : Type 0 where
  pub given : is_blank dir ≡ false
  pub apart : is_top dir ≡ false
  pub plain : IsPlain dir
  pub inside : climbs dir ≡ false
  pub clean : clean_path (dir ++ slash ∷ []) ≡ dir
  pub first : StartsBare dir

-- The part of it that the wording of the rule rests on.
pub record IsNamed (dir : Text) : Type 0 where
  pub given : is_blank dir ≡ false
  pub apart : is_top dir ≡ false
  pub clean : clean_path (dir ++ slash ∷ []) ≡ dir
  pub first : StartsBare dir

IsFolder-IsNamed : (dir : Text) → IsFolder dir → IsNamed dir
IsFolder-IsNamed dir f = record {
  given = f.given;
  apart = f.apart;
  clean = f.clean;
  first = f.first;
}

-- The name of a tool of paths.
pub record IsPathTool (tool : Text) : Type 0 where
  pub given : is_blank tool ≡ false
  pub trimmed : IsTrimmed tool
  pub whole : Lacks b'(' tool
  pub of_paths : is_command_subject tool ≡ false

pub propose_always_rule-below :
    (tool dir name : Text)
    → IsPathTool tool
    → IsNamed dir
    → contains_slash name ≡ false
    → IsTrimmed (dir ++ slash ∷ name)
    → propose_always_rule tool (dir ++ slash ∷ name) ≡ rule_text tool (pattern_below dir)
unfolding propose_always_rule dir_path below
propose_always_rule-below tool dir name t f flat trimmed =
    rw
      (
        trim_space-trimmed (dir ++ slash ∷ name) trimmed,
        t.given,
        is_blank-append dir (slash ∷ name) f.given,
        t.of_paths,
        up_to_slash-append dir name flat,
        f.clean,
        f.apart,
      )
      refl

and_false : (b : Bool) → (b && false) ≡ false
and_false true = refl
and_false false = refl

pub rule_applies-below :
    (allows : Bool) (tool dir other : Text)
    → IsPathTool tool
    → IsNamed dir
    → rule_applies match_glob allows tool other (rule_text tool (pattern_below dir))
      ≡ match_glob (pattern_below dir) other
unfolding rule_applies match_policy_pattern
rule_applies-below allows tool dir other t f =
    rw
      (
        parse_policy_rule-rule_text tool (pattern_below dir) t.given t.trimmed t.whole
            (is_blank-append dir (slash ∷ everything) f.given)
            (pattern_below-IsTrimmed dir f.given f.first),
        (text_eq_iff tool tool).1 refl,
        t.of_paths,
        and_false allows,
      )
      refl

-- For a path in a folder, the rule that the answer "always" proposes allows the calls of the same tool
-- on the paths below that folder, and on no other path. The conditions: the folder's name is not empty,
-- is its own clean form, is not that of the top, is not absolute and does not begin with two dots (so
-- neither `../x` nor a folder such as `..data` in the root), does not begin with a space, and has no
-- `*` and no `?`; the path is one name behind the folder and is trimmed; the tool's name is not empty,
-- is trimmed, has no `(`, and is that of a tool of paths, not of commands. The names below hold no
-- newline.
pub rule_applies-propose_always_rule_iff :
    (tool dir name other : Text)
    → IsPathTool tool
    → IsFolder dir
    → contains_slash name ≡ false
    → IsTrimmed (dir ++ slash ∷ name)
    → (rule_applies match_glob true tool other (propose_always_rule tool (dir ++ slash ∷ name))
        ≡ true)
      ↔ ((below_dir : Text) × (other ≡ dir ++ slash ∷ below_dir) × AllPass not_newline below_dir)
rule_applies-propose_always_rule_iff tool dir name other t f flat trimmed =
    let same_rule =
      propose_always_rule-below tool dir name t (IsFolder-IsNamed dir f) flat trimmed in
    let matcher =
      match_glob_iff (pattern_below dir) other (has_stars-append dir)
        (climbs-append dir f.given f.inside) in
    let reading = pattern_below-Reads dir other f.plain in
    rw (same_rule, rule_applies-below true tool dir other t (IsFolder-IsNamed dir f))
      (λ h. reading.0 (matcher.0 h), λ r. matcher.1 (reading.1 r))
