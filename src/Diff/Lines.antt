-- ===== src/Diff/Lines.antt =====
-- Lines that know whether they end the text without a newline (src/diff.go: diffLine, splitDiffLines).
use collectif.Common.{
  ℕ, zero, suc, ◌-◌, ◌==◌, ◌≡◌, refl, sym, ap, ◌∙◌, ◌↔◌, Bool, true, false, ◌&&◌, not, Bool-cases,
  inl, inr, List, [], ◌∷◌, ◌++◌, map, length, take, arith, ==_iff, if◌then◌else◌, &&-true,
}
use mathlib.Core.List.{append-nil}
use collectif.Text.{Text, text_eq, ends_with}
use collectif.Text.Laws.{text_eq_iff}

abbrev pub line_feed : ℕ
line_feed = 10

pub record DiffLine : Type 0 where
  pub text : Text
  pub no_eol : Bool

abbrev same_bool : Bool → Bool → Bool
same_bool true b = b
same_bool false b = not b

-- `a[i] == b[j]` on lines.
unfoldable pub line_eq : DiffLine → DiffLine → Bool
line_eq a b = text_eq a.text b.text && same_bool a.no_eol b.no_eol

abbrev cons_head : ℕ → List Text → List Text
cons_head c [] = (c ∷ []) ∷ []
cons_head c (l ∷ ls) = (c ∷ l) ∷ ls

-- strings.Split by a newline.
unfoldable split_text : Text → List Text
split_text [] = [] ∷ []
split_text (c ∷ s) =
    let rest = split_text s in if c == line_feed then [] ∷ rest else cons_head c rest

-- `out[len(out)-1].noEOL = noEOL`
unfoldable mark_last : Bool → List DiffLine → List DiffLine
mark_last b [] = []
mark_last b (l ∷ []) = record l { no_eol = b } ∷ []
mark_last b (l ∷ m ∷ ls) = l ∷ mark_last b (m ∷ ls)

abbrev plain : Text → DiffLine
plain t = record { text = t; no_eol = false }

abbrev lines_of : Bool → Text → List DiffLine
lines_of true s = mark_last true (map plain (split_text s))
lines_of false s = mark_last false (map plain (split_text (take (length s - 1) s)))

unfoldable pub split_diff_lines : Text → List DiffLine
unfolding split_text mark_last
split_diff_lines [] = []
split_diff_lines (c ∷ s) = lines_of (not (ends_with line_feed (c ∷ s))) (c ∷ s)

-- The text that lines stand for.
abbrev pub line_end : Bool → Text
line_end true = []
line_end false = line_feed ∷ []

unfoldable pub join_lines : List DiffLine → Text
join_lines [] = []
join_lines (l ∷ ls) = l.text ++ line_end l.no_eol ++ join_lines ls

same_bool_iff : (a b : Bool) → (same_bool a b ≡ true) ↔ (a ≡ b)
same_bool_iff true b = ground arith
same_bool_iff false b = ground arith

line_eq_sound : (a b : DiffLine) → line_eq a b ≡ true → a ≡ b
unfolding line_eq
line_eq_sound a b h =
    let (t, e) = &&-true (text_eq a.text b.text) (same_bool a.no_eol b.no_eol) h in
    ap (λ x. record a { text = x }) ((text_eq_iff a.text b.text).0 t)
    ∙ ap (λ x. record b { no_eol = x }) ((same_bool_iff a.no_eol b.no_eol).0 e)

line_eq_refl : (a : DiffLine) → line_eq a a ≡ true
unfolding line_eq
line_eq_refl a = rw ((text_eq_iff a.text a.text).1 refl) ((same_bool_iff a.no_eol a.no_eol).1 refl)

pub line_eq_iff : (a b : DiffLine) → (line_eq a b ≡ true) ↔ (a ≡ b)
line_eq_iff a b = (line_eq_sound a b, λ e. ap (line_eq a) (sym e) ∙ line_eq_refl a)

split_text-cons : (s : Text) → (l : Text) × (ls : List Text) × (split_text s ≡ l ∷ ls)
unfolding split_text
split_text-cons [] = ([], [], refl)
split_text-cons (c ∷ s) =
    let (l, ls, e) = split_text-cons s in
    elim (Bool-cases (c == line_feed)) [
      | inl nl ↦ ([], split_text s, rw nl refl)
      | inr other ↦ (c ∷ l, ls, rw (other, e) refl)
    ]

abbrev joined : Bool → List Text → Text
joined b parts = join_lines (mark_last b (map plain parts))

joined-nil :
    (b : Bool) (l : Text) (ls : List Text) → joined b ([] ∷ l ∷ ls) ≡ line_feed ∷ joined b (l ∷ ls)
unfolding join_lines mark_last
joined-nil b l ls = refl

joined-cons_head :
    (b : Bool) (c : ℕ) (l : Text) (ls : List Text) → joined b ((c ∷ l) ∷ ls) ≡ c ∷ joined b (l ∷ ls)
unfolding join_lines mark_last
joined-cons_head b c l [] = refl
joined-cons_head b c l (m ∷ ls) = refl

joined-split_text : (b : Bool) (s : Text) → joined b (split_text s) ≡ s ++ line_end b
unfolding split_text
joined-split_text b [] = unfold join_lines mark_last in append-nil (line_end b)
joined-split_text b (c ∷ s) =
    let (l, ls, e) = split_text-cons s in
    let rest : joined b (l ∷ ls) ≡ s ++ line_end b =
      ap (joined b) (sym e) ∙ joined-split_text b s in
    elim (Bool-cases (c == line_feed)) [
      | inl nl ↦
          rw (nl, e)
            (joined-nil b l ls
              ∙ ap (◌∷◌ line_feed) rest
              ∙ ap (λ d. d ∷ s ++ line_end b) (sym ((==_iff c line_feed).0 nl)))
      | inr other ↦ rw (other, e) (joined-cons_head b c l ls ∙ ap (◌∷◌ c) rest)
    ]

drop_newline :
    (n : ℕ) (s : Text)
    → length s ≡ suc n
    → ends_with line_feed s ≡ true
    → take n s ++ line_feed ∷ [] ≡ s
unfolding ends_with
drop_newline n [] k h = absurd (omega (arith, k))
drop_newline zero (c ∷ []) k h = ap (λ d. d ∷ []) (sym ((==_iff c line_feed).0 h))
drop_newline (suc n) (c ∷ []) k h = absurd (omega (arith, k))
drop_newline zero (c ∷ d ∷ s) k h = absurd (omega (arith, k))
drop_newline (suc n) (c ∷ d ∷ s) k h = ap (◌∷◌ c) (drop_newline n (d ∷ s) (omega (arith, k)) h)

join_lines-lines_of :
    (b : Bool) (s : Text) → ends_with line_feed s ≡ not b → join_lines (lines_of b s) ≡ s
join_lines-lines_of true s h = joined-split_text true s ∙ append-nil s
join_lines-lines_of false [] h = absurd (unfold ends_with in cc)
join_lines-lines_of false (c ∷ s) h =
    joined-split_text false (take (length (c ∷ s) - 1) (c ∷ s))
    ∙ drop_newline (length (c ∷ s) - 1) (c ∷ s) (omega arith) h

not-not : (b : Bool) → b ≡ not (not b)
not-not true = refl
not-not false = refl

-- Putting the lines of a text together gives the text, its last newline included or not as it was.
pub join_lines-split_diff_lines : (s : Text) → join_lines (split_diff_lines s) ≡ s
unfolding split_diff_lines
join_lines-split_diff_lines [] = unfold join_lines in refl
join_lines-split_diff_lines (c ∷ s) =
    join_lines-lines_of (not (ends_with line_feed (c ∷ s))) (c ∷ s)
      (not-not (ends_with line_feed (c ∷ s)))
