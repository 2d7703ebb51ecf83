-- ===== src/Tools/Glob.antt =====
-- Globs of paths (src/tools_fs.go: matchGlob, globToRegexp). A regular expression is modelled by what
-- it is compiled to: the anchored sequence of the pieces that the source writes.
pub mod Runs
pub mod Reading
use collectif.Common.{ℕ, Bool, true, false, ◌&&◌, ◌||◌, not, List, [], ◌∷◌, ◌==◌, if◌then◌else◌}
use collectif.Text.{Text}
use collectif.Tools.PathMatch.{slash, not_slash, star_where, file_path_match}

-- `(?:.*/)?`, `.*`, `[^/]*`, `[^/]`, and a character, quoted where it has to be.
pub data GlobPiece : Type 0 where
  folders any_path segment one : GlobPiece
  char : ℕ → GlobPiece

unfoldable pub glob_piece : ℕ → GlobPiece
glob_piece c = if c == b'*' then segment else if c == b'?' then one else char c

unfoldable pub glob_pieces : Text → List GlobPiece
unfolding glob_piece
glob_pieces [] = []
glob_pieces (c ∷ []) = glob_piece c ∷ []
glob_pieces (c ∷ d ∷ []) = elim ((c == b'*') && (d == b'*')) [
  | true ↦ any_path ∷ []
  | false ↦ glob_piece c ∷ glob_pieces (d ∷ [])
]
glob_pieces (c ∷ d ∷ e ∷ s) = elim ((c == b'*') && (d == b'*')) [
  | true ↦ elim (e == slash) [
    | true ↦ folders ∷ glob_pieces s
    | false ↦ any_path ∷ glob_pieces (e ∷ s)
  ]
  | false ↦ glob_piece c ∷ glob_pieces (d ∷ e ∷ s)
]

-- A dot of the expression: any character but a newline.
abbrev pub not_newline : ℕ → Bool
not_newline c = not (c == 10)

-- `.*/`, and then what follows.
unfoldable pub after_slash : (Text → Bool) → Text → Bool
after_slash k [] = false
after_slash k (c ∷ s) = ((c == slash) && k s) || (not_newline c && after_slash k s)

abbrev pub next_char : (ℕ → Bool) → (Text → Bool) → Text → Bool
next_char passes k [] = false
next_char passes k (c ∷ s) = passes c && k s

unfoldable pub match_globs : List GlobPiece → Text → Bool
unfolding star_where after_slash
match_globs [] [] = true
match_globs [] (c ∷ s) = false
match_globs (folders ∷ p) s = match_globs p s || after_slash (match_globs p) s
match_globs (any_path ∷ p) s = star_where not_newline (match_globs p) s
match_globs (segment ∷ p) s = star_where not_slash (match_globs p) s
match_globs (one ∷ p) s = next_char not_slash (match_globs p) s
match_globs (char a ∷ p) s = next_char (λ c. a == c) (match_globs p) s

-- strings.Contains(pattern, "**")
unfoldable pub has_stars : Text → Bool
has_stars [] = false
has_stars (c ∷ []) = false
has_stars (c ∷ d ∷ s) = ((c == b'*') && (d == b'*')) || has_stars (d ∷ s)

unfoldable pub contains_slash : Text → Bool
contains_slash [] = false
contains_slash (c ∷ s) = (c == slash) || contains_slash s

-- filepath.IsAbs, and strings.HasPrefix(pattern, "..")
abbrev pub climbs : Text → Bool
climbs [] = false
climbs (c ∷ []) = c == slash
climbs (c ∷ d ∷ s) = (c == slash) || ((c == b'.') && (d == b'.'))

abbrev is_blank : Text → Bool
is_blank [] = true
is_blank (c ∷ s) = false

-- filepath.Base: what is behind the last slash, once the slashes at the end are off; a dot for the
-- empty path, and a slash for a path of slashes only.
unfoldable pub without_end_slashes : Text → Text
without_end_slashes [] = []
without_end_slashes (c ∷ s) =
    let rest = without_end_slashes s in if is_blank rest && (c == slash) then [] else c ∷ rest

unfoldable pub behind_last_slash : Text → Text
unfolding contains_slash
behind_last_slash [] = []
behind_last_slash (c ∷ s) =
    let rest = behind_last_slash s in if contains_slash (c ∷ s) then rest else c ∷ s

abbrev slash_if_blank : Text → Text
slash_if_blank [] = slash ∷ []
slash_if_blank (c ∷ s) = c ∷ s

unfoldable pub base_name : Text → Text
unfolding without_end_slashes behind_last_slash
base_name [] = b'.' ∷ []
base_name (c ∷ s) = slash_if_blank (behind_last_slash (without_end_slashes (c ∷ s)))

unfoldable pub match_glob : Text → Text → Bool
unfolding glob_pieces match_globs has_stars contains_slash base_name
match_glob pattern name =
    if is_blank pattern
    then true
    else if climbs pattern
    then false
    else if not (has_stars pattern)
    then file_path_match pattern name
      || (file_path_match pattern (base_name name) && not (contains_slash pattern))
    else match_globs (glob_pieces pattern) name
