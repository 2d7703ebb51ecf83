-- ===== src/Text/Laws.antt =====
-- Laws of the texts.
use collectif.Common.{
  ℕ, ◌≤◌, ◌<◌, ◌≡◌, refl, ap, ◌∙◌, ◌↔◌, ◌≢◌, true, false, some, [], ◌∷◌, ◌++◌, arith, length,
}
use mathlib.Core.List.{reverse, reverse-reverse}
use collectif.Text.{Text, text_eq, is_space, trim_left, trim_space, index_of, ends_with, utf8_char}

text_eq_sound : (s t : Text) → text_eq s t ≡ true → s ≡ t
unfolding text_eq
text_eq_sound [] [] h = refl
text_eq_sound [] (b ∷ t) h = absurd (cc)
text_eq_sound (a ∷ s) [] h = absurd (cc)
text_eq_sound (a ∷ s) (b ∷ t) h = ground (arith, text_eq_sound s t)

text_eq_refl : (s : Text) → text_eq s s ≡ true
unfolding text_eq
text_eq_refl [] = refl
text_eq_refl (a ∷ s) = ground (arith, text_eq_refl s)

pub text_eq_iff : (s t : Text) → (text_eq s t ≡ true) ↔ (s ≡ t)
text_eq_iff s t = (text_eq_sound s t, λ e. rw e (text_eq_refl t))

-- A text whose first character is no space.
abbrev pub StartsBare : Text → Type 0
StartsBare [] = Unit
StartsBare (c ∷ s) = is_space c ≡ false

trim_left-bare : (s : Text) → StartsBare s → trim_left s ≡ s
unfolding trim_left
trim_left-bare [] h = refl
trim_left-bare (c ∷ s) h = rw h

-- A text that neither begins nor ends with a space.
pub record IsTrimmed (s : Text) : Type 0 where
  pub first : StartsBare s
  pub final : StartsBare (reverse s)

pub trim_space-trimmed : (s : Text) → IsTrimmed s → trim_space s ≡ s
unfolding trim_space
trim_space-trimmed s t =
    ap (λ x. reverse (trim_left (reverse x))) (trim_left-bare s t.first)
    ∙ ap reverse (trim_left-bare (reverse s) t.final)
    ∙ reverse-reverse s

-- The character does not occur.
abbrev pub Lacks : ℕ → Text → Type 0
Lacks b [] = Unit
Lacks b (c ∷ s) = (c ≢ b) × Lacks b s

pub index_of-append : (b : ℕ) (s t : Text) → Lacks b s → index_of b (s ++ b ∷ t) ≡ some (length s)
unfolding index_of
index_of-append b [] t h = ground arith
index_of-append b (c ∷ s) t (h, hs) = ground (arith, index_of-append b s t hs)

pub ends_with-append : (b : ℕ) (s : Text) → ends_with b (s ++ b ∷ []) ≡ true
unfolding ends_with
ends_with-append b [] = ground arith
ends_with-append b (c ∷ []) = ground arith
ends_with-append b (c ∷ d ∷ s) = ends_with-append b (d ∷ s)

pub length-utf8_char : (c : ℕ) → 1 ≤ length (utf8_char c)
unfolding utf8_char
length-utf8_char c = ground arith

pub length-utf8_char_wide : (c : ℕ) → 128 ≤ c → 2 ≤ length (utf8_char c)
unfolding utf8_char
length-utf8_char_wide c h = ground arith

pub utf8_char-ascii : (c : ℕ) → c < 128 → utf8_char c ≡ c ∷ []
unfolding utf8_char
utf8_char-ascii c h = ground arith
