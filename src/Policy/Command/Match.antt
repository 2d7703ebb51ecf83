-- ===== src/Policy/Command/Match.antt =====
-- What a command pattern matches (src/policy.go: matchCommandPattern).
use collectif.Common.{
  ℕ, suc, ◌≤◌, ◌<◌, ◌≡◌, refl, ap, ◌↔◌, ◌≢◌, ◌⊎◌, true, false, Bool-cases, inl, inr, List, [], ◌∷◌,
  ◌++◌, map, arith, ◌==◌, ltb, length, length-append,
}
use collectif.Text.{Text, utf8, utf8_char}
use collectif.Text.Laws.{length-utf8_char, length-utf8_char_wide, utf8_char-ascii}
use collectif.Policy.Command.{
  Piece, any_run, any_one, literal, piece, command_glob, match_pieces, match_command_pattern,
}

-- The documented reading of a pattern: `*` is any run of characters, `?` is any character, and
-- any other character is itself.
pub data Matches : Text → Text → Type 0 where
  empty : Matches [] []
  leave : {p s : Text} (star : ℕ) → star ≡ b'*' → Matches p s → Matches (star ∷ p) s
  take : {p s : Text} (star c : ℕ) → star ≡ b'*' → Matches (star ∷ p) s → Matches (star ∷ p) (c ∷ s)
  one : {p s : Text} (mark c : ℕ) → mark ≡ b'?' → Matches p s → Matches (mark ∷ p) (c ∷ s)
  same : {p s : Text} (c : ℕ) → c ≢ b'*' → c ≢ b'?' → Matches p s → Matches (c ∷ p) (c ∷ s)

abbrev pub IsAscii : Text → Type 0
IsAscii [] = Unit
IsAscii (c ∷ s) = (c < 128) × IsAscii s

utf8-ascii : (s : Text) → IsAscii s → utf8 s ≡ s
unfolding utf8
utf8-ascii [] h = refl
utf8-ascii (c ∷ s) (h, hs) = rw (utf8_char-ascii c h, utf8-ascii s hs)

piece-cases :
    (c : ℕ)
    → ((c ≡ b'*') × (piece c ≡ any_run))
      ⊎ (((c ≡ b'?') × (piece c ≡ any_one)) ⊎ ((c ≢ b'*') × (c ≢ b'?') × (piece c ≡ literal c)))
unfolding piece
piece-cases c = elim (Bool-cases (c == b'*')) [
  | inl e ↦ inl (ground arith, rw e)
  | inr e ↦ inr (elim (Bool-cases (c == b'?')) [
    | inl e' ↦ inl (ground arith, rw (e, e'))
    | inr e' ↦ inr (ground arith, ground arith, rw (e, e'))
  ])
]

pub match_pieces→Matches : (p s : Text) → match_pieces (map piece p) s ≡ true → Matches p s
unfolding match_pieces
match_pieces→Matches [] [] h = empty
match_pieces→Matches [] (c ∷ s) h = absurd (cc)
match_pieces→Matches (a ∷ p) [] h = elim (piece-cases a) [
  | inl (star, e) ↦ leave a star (match_pieces→Matches p [] (ground arith))
  | inr (inl (mark, e)) ↦ absurd (ground arith)
  | inr (inr (_, _, e)) ↦ absurd (ground arith)
]
match_pieces→Matches (a ∷ p) (c ∷ s) h = elim (piece-cases a) [
  | inl (star, e) ↦ elim (Bool-cases (match_pieces (map piece p) (c ∷ s))) [
    | inl here ↦ leave a star (match_pieces→Matches p (c ∷ s) here)
    | inr later ↦ take a c star (match_pieces→Matches (a ∷ p) s (rw e (ground arith)))
  ]
  | inr (inl (mark, e)) ↦ one a c mark (match_pieces→Matches p s (ground arith))
  | inr (inr (not_star, not_mark, e)) ↦
      let here : a ≡ c = ground arith in
      rw (← here) (same a not_star not_mark (match_pieces→Matches p s (ground arith)))
]

match_pieces-leave :
    (p : List Piece) (s : Text) → match_pieces p s ≡ true → match_pieces (any_run ∷ p) s ≡ true
unfolding match_pieces
match_pieces-leave p [] h = h
match_pieces-leave p (c ∷ s) h = ground arith

Matches→match_pieces : {p s : Text} → Matches p s → match_pieces (map piece p) s ≡ true
unfolding match_pieces piece
Matches→match_pieces empty = refl
Matches→match_pieces (leave {p = p} {s = s} star e m) =
    rw e (match_pieces-leave (map piece p) s (Matches→match_pieces m))
Matches→match_pieces (take star c e m) = ground (arith, Matches→match_pieces m)
Matches→match_pieces (one mark c e m) = ground (arith, Matches→match_pieces m)
Matches→match_pieces (same c e e' m) = ground (arith, Matches→match_pieces m)

-- For a pattern of ASCII characters, the compiled expression matches a command line exactly where
-- the documented reading of the pattern does.
pub match_command_pattern_iff :
    (pattern subject : Text)
    → IsAscii pattern
    → (match_command_pattern pattern subject ≡ true) ↔ Matches pattern subject
unfolding match_command_pattern
match_command_pattern_iff pattern subject ascii =
    rw (utf8-ascii pattern ascii, command_glob)
      (match_pieces→Matches pattern subject, Matches→match_pieces)

-- A pattern with no `*` and no `?`, in which some character is not ASCII.
abbrev pub Plain : Text → Type 0
Plain [] = Unit
Plain (c ∷ s) = (c ≢ b'*') × Plain s

abbrev pub HasWide : Text → Type 0
HasWide [] = ⊥
HasWide (c ∷ s) = (128 ≤ c) ⊎ HasWide s

-- The pieces of a pattern without `*` match only texts of their own number.
abbrev HasNoRun : List ℕ → Type 0
HasNoRun [] = Unit
HasNoRun (c ∷ cs) = (c ≢ b'*') × HasNoRun cs

match_pieces-length :
    (p : List ℕ) (s : Text) → HasNoRun p → match_pieces (map piece p) s ≡ true → length p ≡ length s
unfolding match_pieces
match_pieces-length [] [] n h = refl
match_pieces-length [] (c ∷ s) n h = absurd (cc)
match_pieces-length (a ∷ p) [] (n, ns) h = elim (piece-cases a) [
  | inl (star, e) ↦ absurd (n star)
  | inr (inl (mark, e)) ↦ absurd (ground arith)
  | inr (inr (_, _, e)) ↦ absurd (ground arith)
]
match_pieces-length (a ∷ p) (c ∷ s) (n, ns) h = elim (piece-cases a) [
  | inl (star, e) ↦ absurd (n star)
  | inr (inl (mark, e)) ↦ ap suc (match_pieces-length p s ns (ground arith))
  | inr (inr (_, _, e)) ↦ ap suc (match_pieces-length p s ns (ground arith))
]

HasNoRun-append : (xs ys : List ℕ) → HasNoRun xs → HasNoRun ys → HasNoRun (xs ++ ys)
HasNoRun-append [] ys hx hy = hy
HasNoRun-append (x ∷ xs) ys (h, hx) hy = (h, HasNoRun-append xs ys hx hy)

utf8_char-HasNoRun : (c : ℕ) → c ≢ b'*' → HasNoRun (utf8_char c)
unfolding utf8_char
utf8_char-HasNoRun c h = elim (Bool-cases (ltb c 128)) [
  | inl e ↦ rw e (h, tt)
  | inr e ↦ elim (Bool-cases (ltb c 2048)) [
    | inl e' ↦ rw (e, e') (omega arith)
    | inr e' ↦ elim (Bool-cases (ltb c 65536)) [
      | inl e'' ↦ rw (e, e', e'') (omega arith)
      | inr e'' ↦ rw (e, e', e'') (omega arith)
    ]
  ]
]

utf8-HasNoRun : (s : Text) → Plain s → HasNoRun (utf8 s)
unfolding utf8
utf8-HasNoRun [] h = tt
utf8-HasNoRun (c ∷ s) (h, hs) =
    HasNoRun-append (utf8_char c) (utf8 s) (utf8_char-HasNoRun c h) (utf8-HasNoRun s hs)

length-utf8 : (s : Text) → length s ≤ length (utf8 s)
unfolding utf8
length-utf8 [] = omega arith
length-utf8 (c ∷ s) =
    omega (arith, length-append (utf8_char c) (utf8 s), length-utf8_char c, length-utf8 s)

length-utf8_wide : (s : Text) → HasWide s → length s < length (utf8 s)
unfolding utf8
length-utf8_wide [] h = absurd h
length-utf8_wide (c ∷ s) (inl h) =
    omega (arith, length-append (utf8_char c) (utf8 s), length-utf8_char_wide c h, length-utf8 s)
length-utf8_wide (c ∷ s) (inr h) =
    omega (arith, length-append (utf8_char c) (utf8 s), length-utf8_char c, length-utf8_wide s h)

-- A pattern without `*` in which some character is not ASCII matches no text that is as short as
-- the pattern, so that it does not match its own text: each byte of the character is compared as a
-- character of its own.
pub match_command_pattern-wide :
    (pattern subject : Text)
    → Plain pattern
    → HasWide pattern
    → length subject ≤ length pattern
    → match_command_pattern pattern subject ≡ false
unfolding match_command_pattern
match_command_pattern-wide pattern subject plain wide short =
    elim (Bool-cases (match_pieces (map piece (utf8 pattern)) subject)) [
      | inl h ↦ absurd (
          omega (
            arith,
            match_pieces-length (utf8 pattern) subject (utf8-HasNoRun pattern plain) h,
            length-utf8_wide pattern wide,
          ))
      | inr h ↦ unfold command_glob in h
    ]
