-- ===== src/Tools/Glob/Runs.antt =====
-- What the runs of a compiled glob match (src/tools_fs.go: the `*` and `.*` that globToRegexp
-- writes): a part of the text whose characters all pass, and then what follows.
use collectif.Common.{
  ℕ, ◌≡◌, refl, ap, Bool, true, Bool-cases, ◌&&◌, inl, inr, [], ◌∷◌, ◌++◌, arith, ◌==◌,
}
use collectif.Text.{Text}
use collectif.Tools.PathMatch.{slash, star_where}
use collectif.Tools.Glob.{not_newline, after_slash}

abbrev pub AllPass : (ℕ → Bool) → Text → Type 0
AllPass passes [] = Unit
AllPass passes (c ∷ s) = (passes c ≡ true) × AllPass passes s

-- A text is a run of passing characters, `between`, and a rest that `k` takes.
abbrev pub SplitsBy : (ℕ → Bool) → Text → (Text → Bool) → Text → Type 0
SplitsBy passes between k s =
    (run : Text) × (rest : Text) × (s ≡ run ++ (between ++ rest))
    × AllPass passes run
    × (k rest ≡ true)

SplitsBy-cons :
    (passes : ℕ → Bool) (between : Text) (k : Text → Bool) (c : ℕ) (s : Text)
    → passes c ≡ true
    → SplitsBy passes between k s
    → SplitsBy passes between k (c ∷ s)
SplitsBy-cons passes between k c s h (run, rest, e, all, taken) =
    (c ∷ run, rest, ap (◌∷◌ c) e, (h, all), taken)

pub star_where-split :
    (passes : ℕ → Bool) (k : Text → Bool) (s : Text)
    → star_where passes k s ≡ true
    → SplitsBy passes [] k s
unfolding star_where
star_where-split passes k [] h = ([], [], refl, tt, h)
star_where-split passes k (c ∷ s) h = elim (Bool-cases (k (c ∷ s))) [
  | inl e ↦ ([], c ∷ s, refl, tt, e)
  | inr e ↦
      SplitsBy-cons passes [] k c s (ground arith) (star_where-split passes k s (ground arith))
]

star_where-here :
    (passes : ℕ → Bool) (k : Text → Bool) (s : Text) → k s ≡ true → star_where passes k s ≡ true
unfolding star_where
star_where-here passes k [] h = h
star_where-here passes k (c ∷ s) h = ground arith

pub star_where-join :
    (passes : ℕ → Bool) (k : Text → Bool) (run rest : Text)
    → AllPass passes run
    → k rest ≡ true
    → star_where passes k (run ++ rest) ≡ true
unfolding star_where
star_where-join passes k [] rest all h = star_where-here passes k rest h
star_where-join passes k (c ∷ run) rest (p, all) h =
    ground (arith, star_where-join passes k run rest all h)

pub after_slash-split :
    (k : Text → Bool) (s : Text) → after_slash k s ≡ true → SplitsBy not_newline (slash ∷ []) k s
unfolding after_slash
after_slash-split k [] h = absurd (ground arith)
after_slash-split k (c ∷ s) h = elim (Bool-cases ((c == slash) && k s)) [
  | inl e ↦ ([], s, ap (λ x. x ∷ s) (ground arith), tt, ground arith)
  | inr e ↦
      SplitsBy-cons not_newline (slash ∷ []) k c s (ground arith)
        (after_slash-split k s (ground arith))
]

pub after_slash-join :
    (k : Text → Bool) (run rest : Text)
    → AllPass not_newline run
    → k rest ≡ true
    → after_slash k (run ++ slash ∷ rest) ≡ true
unfolding after_slash
after_slash-join k [] rest all h = ground arith
after_slash-join k (c ∷ run) rest (p, all) h = ground (arith, after_slash-join k run rest all h)
