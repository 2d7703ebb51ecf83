-- ===== src/Tools/EditPlan/Single.antt =====
-- An edit of one place (src/tools_fs.go: editPlan without replace_all).
use collectif.Common.{
  ℕ, zero, suc, ◌-◌, ◌≤◌, ◌≡◌, ◌≢◌, refl, sym, ap, ◌∙◌, true, false, Bool-cases, Option, none, some,
  ltb, inl, inr, [], ◌∷◌, ◌++◌, arith, ◌==◌, length, drop, take, take-append, drop-append,
  length-append,
}
use collectif.Text.{Text, text_eq}
use collectif.Text.Laws.{text_eq_iff}
use collectif.Diff.Hunks.Emptiness.{unified_diff-nil_iff}
use collectif.Tools.EditPlan.{
  EditArgs, Files, Plan, refused, planned, has_prefix, count_from, replace_first, is_blank,
  plan_counted, plan_body, plan_at, edit_plan, edit_preview,
}

has_prefix-split : (p s : Text) → has_prefix p s ≡ true → s ≡ p ++ drop (length p) s
unfolding has_prefix
has_prefix-split [] s h = refl
has_prefix-split (a ∷ p) [] h = absurd (ground arith)
has_prefix-split (a ∷ p) (c ∷ s) h =
    let here : a ≡ c = ground arith in rw here (ap (◌∷◌ c) (has_prefix-split p s (ground arith)))

count_from-skip : (k : ℕ) (old s : Text) → count_from k old s ≡ count_from 0 old (drop k s)
unfolding count_from
count_from-skip zero old s = refl
count_from-skip (suc k) old [] = refl
count_from-skip (suc k) old (c ∷ s) = count_from-skip k old s

-- A text with the one occurrence of `old` replaced by `new`: no occurrence begins before the one that
-- is replaced, and none stands behind it.
pub record IsEdited (old new body next : Text) : Type 0 where
  pub before : Text
  pub behind : Text
  pub found : body ≡ before ++ (old ++ behind)
  pub replaced_by : next ≡ before ++ (new ++ behind)
  pub earliest : (pre post : Text) → body ≡ pre ++ (old ++ post) → length before ≤ length pre
  pub none_behind : (pre post : Text) → behind ≢ pre ++ (old ++ post)

has_prefix-append : (p t : Text) → has_prefix p (p ++ t) ≡ true
unfolding has_prefix
has_prefix-append [] t = refl
has_prefix-append (a ∷ p) t = ground (arith, has_prefix-append p t)

abbrev first_of : Text → ℕ
first_of [] = 0
first_of (c ∷ s) = c

-- An occurrence is not at the front of a text without that prefix, so it is in the rest.
occurs_later :
    (old : Text) (c : ℕ) (s pre post : Text)
    → has_prefix old (c ∷ s) ≡ false
    → c ∷ s ≡ pre ++ (old ++ post)
    → (pre' : Text) × (pre ≡ c ∷ pre') × (s ≡ pre' ++ (old ++ post))
occurs_later old c s [] post no_prefix h =
    absurd (cc (sym no_prefix ∙ ap (has_prefix old) h ∙ has_prefix-append old post))
occurs_later old c s (x ∷ pre) post no_prefix h =
    (pre, ap (λ y. y ∷ pre) (sym (ap first_of h)), ap (drop 1) h)

count_from-here :
    (old : Text) (c : ℕ) (s : Text)
    → has_prefix old (c ∷ s) ≡ true
    → count_from 0 old (c ∷ s) ≡ suc (count_from (length old - 1) old s)
unfolding count_from
count_from-here old c s e = rw (count_from, e) refl

count_from-later :
    (old : Text) (c : ℕ) (s : Text)
    → has_prefix old (c ∷ s) ≡ false
    → count_from 0 old (c ∷ s) ≡ count_from 0 old s
unfolding count_from
count_from-later old c s e = rw (count_from, e) refl

replace_first-here :
    (old new : Text) (c : ℕ) (s : Text)
    → has_prefix old (c ∷ s) ≡ true
    → replace_first old new (c ∷ s) ≡ new ++ drop (length old) (c ∷ s)
unfolding replace_first
replace_first-here old new c s e = rw (replace_first, e) refl

replace_first-later :
    (old new : Text) (c : ℕ) (s : Text)
    → has_prefix old (c ∷ s) ≡ false
    → replace_first old new (c ∷ s) ≡ c ∷ replace_first old new s
unfolding replace_first
replace_first-later old new c s e = rw (replace_first, e) refl

-- Where none is counted, none occurs.
uncounted-none :
    (a : ℕ) (old s pre post : Text) → count_from 0 (a ∷ old) s ≡ 0 → s ≢ pre ++ ((a ∷ old) ++ post)
uncounted-none a old [] [] post none_counted h = absurd (cc)
uncounted-none a old [] (x ∷ pre) post none_counted h = absurd (cc)
uncounted-none a old (c ∷ s) pre post none_counted h =
    elim (Bool-cases (has_prefix (a ∷ old) (c ∷ s))) [
      | inl e ↦ absurd (omega (arith, count_from-here (a ∷ old) c s e, none_counted))
      | inr e ↦
          let (pre', at, rest) = occurs_later (a ∷ old) c s pre post e h in
          uncounted-none a old s pre' post (sym (count_from-later (a ∷ old) c s e) ∙ none_counted)
            rest
    ]

IsEdited-cons :
    (old new body next : Text) (c : ℕ)
    → has_prefix old (c ∷ body) ≡ false
    → IsEdited old new body next
    → IsEdited old new (c ∷ body) (c ∷ next)
IsEdited-cons old new body next c no_prefix e = record {
  before = c ∷ e.before;
  behind = e.behind;
  found = ap (◌∷◌ c) e.found;
  replaced_by = ap (◌∷◌ c) e.replaced_by;
  earliest = λ pre post h.
      let (pre', at, rest) = occurs_later old c body pre post no_prefix h in
      omega (arith, e.earliest pre' post rest, ap length at);
  none_behind = e.none_behind;
}

replace_first-IsEdited :
    (a : ℕ) (old new body : Text)
    → count_from 0 (a ∷ old) body ≡ 1
    → IsEdited (a ∷ old) new body (replace_first (a ∷ old) new body)
replace_first-IsEdited a old new [] h = absurd (unfold count_from in ground arith)
replace_first-IsEdited a old new (c ∷ s) h = elim (Bool-cases (has_prefix (a ∷ old) (c ∷ s))) [
  | inl e ↦
      let width : length (a ∷ old) - 1 ≡ length old = omega arith in
      let no_more : count_from 0 (a ∷ old) (drop (length old) s) ≡ 0 =
        sym (count_from-skip (length old) (a ∷ old) s)
        ∙ sym (ap (λ k. count_from k (a ∷ old) s) width)
        ∙ omega (arith, count_from-here (a ∷ old) c s e) in
      record {
        before = [];
        behind = drop (length old) s;
        found = has_prefix-split (a ∷ old) (c ∷ s) e;
        replaced_by = replace_first-here (a ∷ old) new c s e;
        earliest = λ pre post occurs. omega arith;
        none_behind = λ pre post. uncounted-none a old (drop (length old) s) pre post no_more;
      }
  | inr e ↦ rw (replace_first-later (a ∷ old) new c s e) (
      IsEdited-cons (a ∷ old) new s (replace_first (a ∷ old) new s) c e
        (replace_first-IsEdited a old new s (sym (count_from-later (a ∷ old) c s e) ∙ h)))
]

IsEdited-once :
    (old new body : Text)
    → is_blank old ≡ false
    → count_from 0 old body ≡ 1
    → IsEdited old new body (replace_first old new body)
IsEdited-once [] new body given once = absurd (cc)
IsEdited-once (a ∷ old) new body given once = replace_first-IsEdited a old new body once

-- An edit that changes a text to another string changes it.
front-same : (p x y : Text) → p ++ x ≡ p ++ y → x ≡ y
front-same p x y h = sym (drop-append p x) ∙ ap (drop (length p)) h ∙ drop-append p y

back-same : (x y q : Text) → x ++ q ≡ y ++ q → x ≡ y
back-same x y q h =
    let size : length x ≡ length y =
      omega (arith, length-append x q, length-append y q, ap length h) in
    sym (take-append x q)
    ∙ ap (take (length x)) h
    ∙ ap (λ n. take n (y ++ q)) size
    ∙ take-append y q

IsEdited-changes : (old new body next : Text) → IsEdited old new body next → old ≢ new → body ≢ next
IsEdited-changes old new body next e other same = other (
    back-same old new e.behind (
      front-same e.before (old ++ e.behind) (new ++ e.behind) (sym e.found ∙ same ∙ e.replaced_by)))

abbrev parts : Plan → Text × Text × Text
parts (refused why) = ([], [], [])
parts (planned abs body next) = (abs, body, next)

-- What a plan for one place stands for.
record IsCounted (args : EditArgs) (abs : Text) (body : Text) (n : ℕ) (abs' body' next : Text)
    : Type 0 where
  pub once : n ≡ 1
  pub at : abs ≡ abs'
  pub of : body ≡ body'
  pub gives : next ≡ replace_first args.old_string args.new_string body

plan_counted-IsCounted :
    (n : ℕ) (args : EditArgs) (abs body abs' body' next : Text)
    → args.replace_all ≡ false
    → plan_counted n args abs body ≡ planned abs' body' next
    → IsCounted args abs body n abs' body' next
plan_counted-IsCounted n args abs body abs' body' next one h = elim (Bool-cases (n == 0)) [
  | inl e ↦ absurd (cc (rw e at h))
  | inr e ↦ elim (Bool-cases (ltb 1 n)) [
    | inl more ↦ absurd (cc (rw (e, more, one) at h))
    | inr less ↦
        let same : planned abs body (replace_first args.old_string args.new_string body)
            ≡ planned abs' body' next =
          rw (e, less, one) at h in
        record {
          once = ground arith;
          at = ap (λ x. (parts x).0) same;
          of = ap (λ x. (parts x).1) same;
          gives = sym (ap (λ x. (parts x).2) same);
        }
  ]
]

-- A plan comes of the file that the path names.
record IsPlanned (files : Files) (args : EditArgs) (found : Option Text) (abs body next : Text)
    : Type 0 where
  pub contained : found ≡ some abs
  pub read : files.read_file abs ≡ some body
  pub once : count_from 0 args.old_string body ≡ 1
  pub gives : next ≡ replace_first args.old_string args.new_string body

plan_body-IsPlanned :
    (files : Files) (args : EditArgs) (at : Text) (o : Option Text) (abs body next : Text)
    → o ≡ files.read_file at
    → args.replace_all ≡ false
    → plan_body args at o ≡ planned abs body next
    → IsPlanned files args (some at) abs body next
plan_body-IsPlanned files args at none abs body next read one h = absurd (cc)
plan_body-IsPlanned files args at (some text) abs body next read one h =
    let c =
      plan_counted-IsCounted (count_from 0 args.old_string text) args at text abs body next one h in
    record {
      contained = ap some c.at;
      read = ap files.read_file (sym c.at) ∙ sym read ∙ ap some c.of;
      once = ap (count_from 0 args.old_string) (sym c.of) ∙ c.once;
      gives = c.gives ∙ ap (replace_first args.old_string args.new_string) c.of;
    }

plan_at-IsPlanned :
    (files : Files) (args : EditArgs) (o : Option Text) (abs body next : Text)
    → args.replace_all ≡ false
    → plan_at files args o ≡ planned abs body next
    → IsPlanned files args o abs body next
plan_at-IsPlanned files args none abs body next one h = absurd (cc)
plan_at-IsPlanned files args (some at) abs body next one h =
    plan_body-IsPlanned files args at (files.read_file at) abs body next refl one h

record Guards (files : Files) (args : EditArgs) (abs body next : Text) : Type 0 where
  pub old_given : is_blank args.old_string ≡ false
  pub other : args.new_string ≢ args.old_string
  pub rest : plan_at files args (files.contained_path args.path) ≡ planned abs body next

edit_plan-Guards :
    (files : Files) (args : EditArgs) (abs body next : Text)
    → edit_plan files args ≡ planned abs body next
    → Guards files args abs body next
unfolding edit_plan
edit_plan-Guards files args abs body next h = elim (Bool-cases (is_blank args.path)) [
  | inl e ↦ absurd (cc (rw e at h))
  | inr path ↦ elim (Bool-cases (is_blank args.old_string)) [
    | inl e ↦ absurd (cc (rw (path, e) at h))
    | inr old ↦ elim (Bool-cases (text_eq args.new_string args.old_string)) [
      | inl e ↦ absurd (cc (rw (path, old, e) at h))
      | inr differ ↦ record {
        old_given = old;
        other = λ same. cc ((text_eq_iff args.new_string args.old_string).1 same);
        rest = rw (path, old, differ) at h;
      }
    ]
  ]
]

-- Where an edit without replace_all is planned, its path is contained and its file was read, the text
-- looked for stands in the file, the plan puts the new text in the place of its first occurrence and
-- keeps everything around it, no further occurrence stands behind that place (only one that overlaps
-- the first can be there), and the preview of the call is not empty.
pub edit_plan-single :
    (files : Files) (args : EditArgs) (abs body next : Text)
    → args.replace_all ≡ false
    → edit_plan files args ≡ planned abs body next
    → (files.contained_path args.path ≡ some abs)
      × (files.read_file abs ≡ some body)
      × IsEdited args.old_string args.new_string body next
      × (edit_preview files args ≢ [])
unfolding edit_preview
edit_plan-single files args abs body next one h =
    let g = edit_plan-Guards files args abs body next h in
    let p =
      plan_at-IsPlanned files args (files.contained_path args.path) abs body next one g.rest in
    let edited : IsEdited args.old_string args.new_string body next =
      rw p.gives (IsEdited-once args.old_string args.new_string body g.old_given p.once) in
    let changed : body ≢ next =
      IsEdited-changes args.old_string args.new_string body next edited
        (λ same. g.other (sym same)) in
    (
      p.contained,
      p.read,
      edited,
      rw h (λ empty. changed ((unified_diff-nil_iff args.path body next).0 empty)),
    )
