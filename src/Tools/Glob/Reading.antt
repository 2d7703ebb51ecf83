-- ===== src/Tools/Glob/Reading.antt =====
-- What a glob with `**` matches (src/tools_fs.go: matchGlob, globToRegexp).
use collectif.Common.{
  ℕ, ◌≡◌, ◌≢◌, refl, ◌↔◌, ◌⊎◌, Bool, true, false, Bool-cases, inl, inr, [], ◌∷◌, ◌++◌, ◌&&◌, arith,
  ◌==◌,
}
use collectif.Text.{Text}
use collectif.Tools.PathMatch.{slash, not_slash}
use collectif.Tools.Glob.{
  folders, any_path, segment, one, char, glob_piece, glob_pieces, not_newline, after_slash,
  match_globs, has_stars, climbs, match_glob,
}
use collectif.Tools.Glob.Runs.{
  AllPass, star_where-split, star_where-join, after_slash-split, after_slash-join,
}

abbrev pub begins : ℕ → Text → Bool
begins b [] = false
begins b (c ∷ s) = c == b

-- A character that is read by itself: not the first of two stars.
abbrev pub IsAlone : ℕ → Text → Type 0
IsAlone c p = ((c == b'*') && begins b'*' p) ≡ false

-- The reading of a pattern: `**/` is nothing, or any path (of no newline) with a slash at its end;
-- another `**` is any path; `*` is a run without a slash; `?` is a character that is no slash; and any
-- other character is itself.
pub data Reads : Text → Text → Type 0 where
  empty : Reads [] []
  no_folders : {p s : Text} → Reads p s → Reads (b'*' ∷ b'*' ∷ slash ∷ p) s
  some_folders :
      {p s t : Text} (run : Text)
      → AllPass not_newline run
      → t ≡ run ++ slash ∷ s
      → Reads p s
      → Reads (b'*' ∷ b'*' ∷ slash ∷ p) t
  any :
      {p s t : Text} (run : Text)
      → begins slash p ≡ false
      → AllPass not_newline run
      → t ≡ run ++ s
      → Reads p s
      → Reads (b'*' ∷ b'*' ∷ p) t
  within :
      {p s t : Text} (run : Text)
      → IsAlone b'*' p
      → AllPass not_slash run
      → t ≡ run ++ s
      → Reads p s
      → Reads (b'*' ∷ p) t
  single : {p s : Text} (c : ℕ) → not_slash c ≡ true → Reads p s → Reads (b'?' ∷ p) (c ∷ s)
  same : {p s : Text} (c : ℕ) → c ≢ b'*' → c ≢ b'?' → Reads p s → Reads (c ∷ p) (c ∷ s)

-- How a pattern is cut into pieces.
glob_pieces-any :
    (p : Text) → begins slash p ≡ false → glob_pieces (b'*' ∷ b'*' ∷ p) ≡ any_path ∷ glob_pieces p
unfolding glob_pieces
glob_pieces-any [] h = refl
glob_pieces-any (e ∷ p) h = rw (glob_pieces, h) refl

glob_pieces-folders : (p : Text) → glob_pieces (b'*' ∷ b'*' ∷ slash ∷ p) ≡ folders ∷ glob_pieces p
unfolding glob_pieces
glob_pieces-folders p = refl

glob_pieces-alone :
    (c : ℕ) (p : Text) → IsAlone c p → glob_pieces (c ∷ p) ≡ glob_piece c ∷ glob_pieces p
unfolding glob_pieces
glob_pieces-alone c [] h = refl
glob_pieces-alone c (d ∷ []) h = rw (glob_pieces, h) refl
glob_pieces-alone c (d ∷ e ∷ p) h = rw (glob_pieces, h) refl

abbrev Sound : Text → Type 0
Sound p = (s : Text) → match_globs (glob_pieces p) s ≡ true → Reads p s

folders-Reads :
    (p : Text)
    → Sound p
    → (s : Text) → match_globs (folders ∷ glob_pieces p) s ≡ true
    → Reads (b'*' ∷ b'*' ∷ slash ∷ p) s
unfolding match_globs
folders-Reads p sound s h = elim (Bool-cases (match_globs (glob_pieces p) s)) [
  | inl here ↦ no_folders (sound s here)
  | inr none ↦
      let (run, rest, e, all, taken) =
        after_slash-split (match_globs (glob_pieces p)) s (ground arith) in
      some_folders run all e (sound rest taken)
]

any-Reads :
    (p : Text)
    → begins slash p ≡ false
    → Sound p
    → (s : Text) → match_globs (any_path ∷ glob_pieces p) s ≡ true
    → Reads (b'*' ∷ b'*' ∷ p) s
unfolding match_globs
any-Reads p apart sound s h =
    let (run, rest, e, all, taken) =
      star_where-split not_newline (match_globs (glob_pieces p)) s h in
    any run apart all e (sound rest taken)

segment-Reads :
    (p : Text)
    → IsAlone b'*' p
    → Sound p
    → (s : Text) → match_globs (segment ∷ glob_pieces p) s ≡ true
    → Reads (b'*' ∷ p) s
unfolding match_globs
segment-Reads p apart sound s h =
    let (run, rest, e, all, taken) = star_where-split not_slash (match_globs (glob_pieces p)) s h in
    within run apart all e (sound rest taken)

one-Reads :
    (p : Text)
    → Sound p
    → (s : Text) → match_globs (one ∷ glob_pieces p) s ≡ true
    → Reads (b'?' ∷ p) s
unfolding match_globs
one-Reads p sound [] h = absurd (ground arith)
one-Reads p sound (c ∷ s) h = single c (ground arith) (sound s (ground arith))

char-Reads :
    (c : ℕ) (p : Text)
    → c ≢ b'*'
    → c ≢ b'?'
    → Sound p
    → (s : Text) → match_globs (char c ∷ glob_pieces p) s ≡ true
    → Reads (c ∷ p) s
unfolding match_globs
char-Reads c p no_star no_mark sound [] h = absurd (ground arith)
char-Reads c p no_star no_mark sound (d ∷ s) h =
    let here : c ≡ d = ground arith in rw (← here) (same c no_star no_mark (sound s (ground arith)))

glob_piece-cases :
    (c : ℕ)
    → ((c ≡ b'*') × (glob_piece c ≡ segment))
      ⊎ (((c ≡ b'?') × (glob_piece c ≡ one)) ⊎ ((c ≢ b'*') × (c ≢ b'?') × (glob_piece c ≡ char c)))
unfolding glob_piece
glob_piece-cases c = elim (Bool-cases (c == b'*')) [
  | inl e ↦ inl (ground arith, rw e refl)
  | inr e ↦ inr (elim (Bool-cases (c == b'?')) [
    | inl e' ↦ inl (ground arith, rw (e, e') refl)
    | inr e' ↦ inr (ground arith, ground arith, rw (e, e') refl)
  ])
]

alone-Reads :
    (c : ℕ) (p : Text)
    → IsAlone c p
    → Sound p
    → (s : Text) → match_globs (glob_piece c ∷ glob_pieces p) s ≡ true
    → Reads (c ∷ p) s
alone-Reads c p apart sound s h = elim (glob_piece-cases c) [
  | inl (star, e) ↦
      let next : begins b'*' p ≡ false = ground arith in
      rw star (segment-Reads p next sound s (rw (← e) h))
  | inr (inl (mark, e)) ↦ rw mark (one-Reads p sound s (rw (← e) h))
  | inr (inr (no_star, no_mark, e)) ↦ char-Reads c p no_star no_mark sound s (rw (← e) h)
]

stars-Reads :
    (c d : ℕ) (p : Text)
    → ((c == b'*') && (d == b'*')) ≡ true
    → begins slash p ≡ false
    → Sound p
    → (s : Text) → match_globs (any_path ∷ glob_pieces p) s ≡ true
    → Reads (c ∷ d ∷ p) s
stars-Reads c d p stars apart sound s h =
    let first : c ≡ b'*' = ground arith in
    let second : d ≡ b'*' = ground arith in rw (first, second) (any-Reads p apart sound s h)

stars_slash-Reads :
    (c d e : ℕ) (p : Text)
    → ((c == b'*') && (d == b'*')) ≡ true
    → (e == slash) ≡ true
    → Sound p
    → (s : Text) → match_globs (folders ∷ glob_pieces p) s ≡ true
    → Reads (c ∷ d ∷ e ∷ p) s
stars_slash-Reads c d e p stars cut sound s h =
    let first : c ≡ b'*' = ground arith in
    let second : d ≡ b'*' = ground arith in
    let third : e ≡ slash = ground arith in rw (first, second, third) (folders-Reads p sound s h)

match_globs→Reads : (p : Text) → Sound p
unfolding glob_pieces match_globs
match_globs→Reads [] [] h = empty
match_globs→Reads [] (c ∷ s) h = absurd (cc)
match_globs→Reads (c ∷ []) s h = alone-Reads c [] (ground arith) (match_globs→Reads []) s h
match_globs→Reads (c ∷ d ∷ []) s h = elim (Bool-cases ((c == b'*') && (d == b'*'))) [
  | inl e ↦ stars-Reads c d [] e refl (match_globs→Reads []) s (ground arith)
  | inr e ↦ alone-Reads c (d ∷ []) e (match_globs→Reads (d ∷ [])) s (ground arith)
]
match_globs→Reads (c ∷ d ∷ e ∷ p) s h = elim (Bool-cases ((c == b'*') && (d == b'*'))) [
  | inl stars ↦ elim (Bool-cases (e == slash)) [
    | inl cut ↦ stars_slash-Reads c d e p stars cut (match_globs→Reads p) s (ground arith)
    | inr apart ↦ stars-Reads c d (e ∷ p) stars apart (match_globs→Reads (e ∷ p)) s (ground arith)
  ]
  | inr alone ↦ alone-Reads c (d ∷ e ∷ p) alone (match_globs→Reads (d ∷ e ∷ p)) s (ground arith)
]

Reads→match_globs : {p s : Text} → Reads p s → match_globs (glob_pieces p) s ≡ true
unfolding match_globs glob_piece
Reads→match_globs empty = unfold glob_pieces in refl
Reads→match_globs (no_folders {p = p} m) =
    rw (glob_pieces-folders p) (ground (arith, Reads→match_globs m))
Reads→match_globs (some_folders {p = p} {s = s} run all e m) =
    let later : after_slash (match_globs (glob_pieces p)) (run ++ slash ∷ s) ≡ true =
      after_slash-join (match_globs (glob_pieces p)) run s all (Reads→match_globs m) in
    rw (glob_pieces-folders p, e) (ground arith)
Reads→match_globs (any {p = p} {s = s} run apart all e m) =
    rw (glob_pieces-any p apart, e)
      (star_where-join not_newline (match_globs (glob_pieces p)) run s all (Reads→match_globs m))
Reads→match_globs (within {p = p} {s = s} run apart all e m) =
    rw (glob_pieces-alone b'*' p apart, e)
      (star_where-join not_slash (match_globs (glob_pieces p)) run s all (Reads→match_globs m))
Reads→match_globs (single {p = p} c h m) =
    rw (glob_pieces-alone b'?' p refl) (ground (arith, Reads→match_globs m))
Reads→match_globs (same {p = p} c no_star no_mark m) =
    rw (glob_pieces-alone c p (ground arith)) (ground (arith, Reads→match_globs m))

-- A pattern that holds `**`, that does not begin with a slash or with two dots, matches a path exactly
-- where the reading of the pattern does.
pub match_glob_iff :
    (pattern name : Text)
    → has_stars pattern ≡ true
    → climbs pattern ≡ false
    → (match_glob pattern name ≡ true) ↔ Reads pattern name
unfolding match_glob
match_glob_iff [] name stars inside = absurd (unfold has_stars in ground arith)
match_glob_iff (c ∷ p) name stars inside =
    rw (inside, stars) (match_globs→Reads (c ∷ p) name, Reads→match_globs)
