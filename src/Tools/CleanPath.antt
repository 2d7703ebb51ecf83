-- ===== src/Tools/CleanPath.antt =====
-- `filepath.Clean` and `filepath.Dir` of Go's standard library, which proposeAlwaysRule of
-- src/policy.go calls: the elements of a path are put on a stack, on which ".." takes one off.
use collectif.Common.{ℕ, Bool, true, false, ◌||◌, not, List, [], ◌∷◌, ◌++◌, ◌==◌, if◌then◌else◌}
use mathlib.Core.List.{reverse}
use collectif.Text.{Text, text_eq}
use collectif.Tools.PathMatch.{slash}

abbrev pub dot : Text
dot = b'.' ∷ []

abbrev dot_dot : Text
dot_dot = b'.' ∷ b'.' ∷ []

abbrev is_blank : Text → Bool
is_blank [] = true
is_blank (c ∷ s) = false

abbrev onto_first : ℕ → List Text → List Text
onto_first c [] = (c ∷ []) ∷ []
onto_first c (e ∷ es) = (c ∷ e) ∷ es

-- What stands between the slashes.
unfoldable pub elements : Text → List Text
elements [] = [] ∷ []
elements (c ∷ s) = let rest = elements s in if c == slash then [] ∷ rest else onto_first c rest

-- ".." on the stack, of a path that begins with a slash or not.
abbrev climb : Bool → List Text → List Text
climb true [] = []
climb false [] = dot_dot ∷ []
climb rooted (e ∷ stack) = if text_eq e dot_dot then dot_dot ∷ e ∷ stack else stack

unfoldable pub put_element : Bool → List Text → Text → List Text
unfolding text_eq
put_element rooted stack e =
    if is_blank e || text_eq e dot
    then stack
    else if text_eq e dot_dot
    then climb rooted stack
    else e ∷ stack

unfoldable pub put_elements : Bool → List Text → List Text → List Text
unfolding put_element
put_elements rooted stack [] = stack
put_elements rooted stack (e ∷ es) = put_elements rooted (put_element rooted stack e) es

unfoldable pub join_elements : List Text → Text
join_elements [] = []
join_elements (e ∷ []) = e
join_elements (e ∷ f ∷ es) = e ++ slash ∷ join_elements (f ∷ es)

abbrev is_rooted : Text → Bool
is_rooted [] = false
is_rooted (c ∷ s) = c == slash

abbrev or_dot : Text → Text
or_dot [] = dot
or_dot (c ∷ s) = c ∷ s

-- filepath.Clean
unfoldable pub clean_path : Text → Text
unfolding elements put_elements join_elements
clean_path s =
    let joined = join_elements (reverse (put_elements (is_rooted s) [] (elements s))) in
    if is_rooted s then slash ∷ joined else or_dot joined

-- A path up to its last slash, and with it.
unfoldable pub up_to_slash : Text → Text
up_to_slash [] = []
up_to_slash (c ∷ s) =
    let rest = up_to_slash s in
    if not (is_blank rest) then c ∷ rest else if c == slash then c ∷ [] else []

-- filepath.Dir
unfoldable pub dir_path : Text → Text
unfolding clean_path up_to_slash
dir_path s = clean_path (up_to_slash s)
