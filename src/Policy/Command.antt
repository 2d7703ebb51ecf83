-- ===== src/Policy/Command.antt =====
-- Patterns of command lines (src/policy.go: matchCommandPattern, commandGlobToRegexp, and the
-- expression shellChaining). A regular expression is modelled by what it is compiled to: the
-- anchored sequence of the pieces that the source writes.
pub mod Match
use collectif.Common.{ℕ, Bool, true, false, ◌&&◌, ◌||◌, List, [], ◌∷◌, map, ◌==◌, if◌then◌else◌}
use collectif.Text.{Text, text_eq, utf8}

-- `(?s:.*)`, `(?s:.)`, and a quoted character.
pub data Piece : Type 0 where
  any_run any_one : Piece
  literal : ℕ → Piece

unfoldable pub piece : ℕ → Piece
piece c = if c == b'*' then any_run else if c == b'?' then any_one else literal c

-- The loop goes over the bytes of the pattern, and `string(c)` makes a code point of each.
unfoldable pub command_glob : Text → List Piece
unfolding piece utf8
command_glob pattern = map piece (utf8 pattern)

-- Whether the anchored expression matches a text, whose elements are code points.
unfoldable pub match_pieces : List Piece → Text → Bool
match_pieces [] [] = true
match_pieces [] (c ∷ s) = false
match_pieces (any_run ∷ p) [] = match_pieces p []
match_pieces (any_run ∷ p) (c ∷ s) = match_pieces p (c ∷ s) || match_pieces (any_run ∷ p) s
match_pieces (any_one ∷ p) [] = false
match_pieces (any_one ∷ p) (c ∷ s) = match_pieces p s
match_pieces (literal a ∷ p) [] = false
match_pieces (literal a ∷ p) (c ∷ s) = (a == c) && match_pieces p s

unfoldable pub match_command_pattern : Text → Text → Bool
unfolding match_pieces command_glob
match_command_pattern pattern subject = match_pieces (command_glob pattern) subject

-- isCommandSubject
unfoldable pub is_command_subject : Text → Bool
unfolding text_eq
is_command_subject tool = text_eq tool (b'b' ∷ b'a' ∷ b's' ∷ b'h' ∷ [])

abbrev is_chaining : ℕ → Bool
is_chaining c =
    (c == b';') || (c == b'&') || (c == b'|') || (c == 96) || (c == 10) || (c == 13) || (c == b'>')

abbrev begins_paren : Text → Bool
begins_paren [] = false
begins_paren (c ∷ _) = c == 40

-- shellChaining.MatchString: a character of the class, or "$(".
unfoldable pub shell_chaining : Text → Bool
shell_chaining [] = false
shell_chaining (c ∷ s) = is_chaining c || ((c == b'$') && begins_paren s) || shell_chaining s
