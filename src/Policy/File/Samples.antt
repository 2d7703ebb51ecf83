-- ===== src/Policy/File/Samples.antt =====
-- The rules file and the shipped rules (src/policy.go): tests, and the theorems at them.
use collectif.Common.{
  ℕ, zero, suc, ap, ◌∙◌, ◌≡◌, refl, Option, none, some, List, [], ◌∷◌, ◌++◌, arith,
}
use collectif.Text.{Text, codes, text_eq, trim_space, is_space, index_of, ends_with}
use collectif.Notebook.Cells.{PolicyRules}
use collectif.Tools.Glob.{has_stars, match_glob}
use collectif.Tools.Glob.Reading.{Reads, empty, some_folders, same}
use collectif.Policy.Rule.{parse_policy_rule}
use collectif.Policy.Command.{is_command_subject}
use collectif.Policy.Decide.{deny, decide, merge_policy}
use collectif.Policy.Decide.Paths.{decide-Reads}
use collectif.Policy.File.{
  default_policy_rules, invalid_rules, missing, RulesCodec, load_policy_rules, written,
  append_allow_rule,
}
use collectif.Policy.File.Appending.{IsReadBack, HasGained, append_allow_rule-HasGained}

-- A notebook that would allow everything.
abbrev lax : PolicyRules
lax = record { deny = []; allow = codes "read" ∷ []; ask = [] }

env-Reads : Reads (codes "**/.env") (codes "src/.env")
env-Reads =
    some_folders (codes "src") (refl, (refl, (refl, tt))) refl
      (same b'.' (omega arith) (omega arith) (
        same b'e' (omega arith) (omega arith)
          (same b'n' (omega arith) (omega arith) (same b'v' (omega arith) (omega arith) empty))))

decide-Reads_example :
    (decide match_glob
      (merge_policy default_policy_rules lax)
      (codes "read")
      (codes "src/.env")).verdict
    ≡ deny
unfolding default_policy_rules parse_policy_rule trim_space is_space index_of ends_with
    is_command_subject has_stars
decide-Reads_example =
    decide-Reads default_policy_rules lax (codes "read") (codes "src/.env") (codes "read(**/.env)")
      (codes "**/.env") []
      (codes "read(**/.env.*)"
        ∷ codes "read(**/.git/config)"
        ∷ codes "read(**/id_rsa)"
        ∷ codes "read(**/id_ed25519)"
        ∷ codes "read(**/*.pem)"
        ∷ [])
      refl refl refl refl refl env-Reads

-- The first rule that does not parse, and the empty rule, which is reported as none.
first_bad :
    invalid_rules (record { deny = codes "read" ∷ []; allow = codes "edit(" ∷ []; ask = [] })
    ≡ codes "edit("
unfolding invalid_rules parse_policy_rule trim_space is_space index_of ends_with
first_bad = refl

-- A stand-in for JSON: 2 and a character puts it in front of a text, 1 begins a text of a list and
-- 0 begins a list, each read from the end.
abbrev put_text : Text → Text → Text
put_text [] rest = 1 ∷ rest
put_text (c ∷ s) rest = 2 ∷ c ∷ put_text s rest

abbrev put_list : List Text → Text → Text
put_list [] rest = 0 ∷ rest
put_list (t ∷ ts) rest = put_text t (put_list ts rest)

abbrev begin_text : List (List Text) → List (List Text)
begin_text [] = []
begin_text (l ∷ ls) = ([] ∷ l) ∷ ls

abbrev put_char : ℕ → List (List Text) → List (List Text)
put_char c ((t ∷ l) ∷ ls) = ((c ∷ t) ∷ l) ∷ ls
put_char c _ = []

abbrev read_lists : Text → List (List Text)
read_lists (zero ∷ s) = [] ∷ read_lists s
read_lists (suc zero ∷ s) = begin_text (read_lists s)
read_lists (suc (suc zero) ∷ c ∷ s) = put_char c (read_lists s)
read_lists _ = []

abbrev of_lists : List (List Text) → Option PolicyRules
of_lists (d ∷ a ∷ k ∷ []) = some (record { deny = d; allow = a; ask = k })
of_lists _ = none

put_text-append : (t rest more : Text) → put_text t rest ++ more ≡ put_text t (rest ++ more)
put_text-append [] rest more = refl
put_text-append (c ∷ t) rest more = ap (λ x. 2 ∷ c ∷ x) (put_text-append t rest more)

put_list-append :
    (ts : List Text) (rest more : Text) → put_list ts rest ++ more ≡ put_list ts (rest ++ more)
put_list-append [] rest more = refl
put_list-append (t ∷ ts) rest more =
    put_text-append t (put_list ts rest) more ∙ ap (put_text t) (put_list-append ts rest more)

read_lists-put_text :
    (t rest : Text) (l : List Text) (ls : List (List Text))
    → read_lists rest ≡ l ∷ ls
    → read_lists (put_text t rest) ≡ (t ∷ l) ∷ ls
read_lists-put_text [] rest l ls h = ap begin_text h
read_lists-put_text (c ∷ t) rest l ls h = ap (put_char c) (read_lists-put_text t rest l ls h)

read_lists-put_list :
    (ts : List Text) (rest : Text) → read_lists (put_list ts rest) ≡ ts ∷ read_lists rest
read_lists-put_list [] rest = refl
read_lists-put_list (t ∷ ts) rest =
    read_lists-put_text t (put_list ts rest) ts (read_lists rest) (read_lists-put_list ts rest)

abbrev lists_codec : RulesCodec
lists_codec = record {
  read_rules = λ s. of_lists (read_lists s);
  show_rules = λ r. put_list r.deny (put_list r.allow (put_list r.ask []));
}

lists_codec-IsReadBack : IsReadBack lists_codec
lists_codec-IsReadBack r =
    rw
      (
        put_list-append r.deny (put_list r.allow (put_list r.ask [])) (10 ∷ []),
        put_list-append r.allow (put_list r.ask []) (10 ∷ []),
        put_list-append r.ask [] (10 ∷ []),
        read_lists-put_list r.deny (put_list r.allow (put_list r.ask (10 ∷ []))),
        read_lists-put_list r.allow (put_list r.ask (10 ∷ [])),
        read_lists-put_list r.ask (10 ∷ []),
      )
      refl

append_allow_rule-HasGained_example :
    HasGained (codes "write(src/**)") (load_policy_rules lists_codec missing) (
      load_policy_rules lists_codec
        (append_allow_rule lists_codec written (codes "write(src/**)") missing).0)
unfolding append_allow_rule default_policy_rules parse_policy_rule trim_space is_space index_of
    ends_with text_eq
append_allow_rule-HasGained_example =
    append_allow_rule-HasGained lists_codec lists_codec-IsReadBack written (codes "write(src/**)")
      missing refl
