-- ===== src/Diff/Script.antt =====
-- The edit script (src/diff.go: diffOps, diffMiddle). The table of longest common subsequences is a
-- list of rows, the row of the first line first, each made of the row below it.
pub mod Sides
use collectif.Common.{
  ℕ, zero, suc, ◌+◌, ◌-◌, ◌*◌, ◌==◌, Bool, true, false, ◌||◌, Option, none, some, List, [], ◌∷◌,
  ◌++◌, map, length, take, drop, leb, ltb, if◌then◌else◌, get_elem?,
}
use mathlib.Core.List.{reverse}
use collectif.Diff.Lines.{DiffLine, line_eq}

-- diffOp, its `op` byte as the constructor.
pub data DiffOp : Type 0 where
  context removed added : DiffLine → DiffOp

-- diffLCSBudget
abbrev pub lcs_budget : ℕ
lcs_budget = 4000000

-- How many lines two lists begin with in common: the loop on `pre`.
unfoldable pub common_prefix : List DiffLine → List DiffLine → ℕ
common_prefix [] b = 0
common_prefix (x ∷ a) [] = 0
common_prefix (x ∷ a) (y ∷ b) = let rest = common_prefix a b in if line_eq x y then suc rest else 0

-- The loop on `suf`, which stops at the common front.
unfoldable pub common_suffix : ℕ → List DiffLine → List DiffLine → ℕ
unfolding common_prefix
common_suffix pre a b = common_prefix (reverse (drop pre a)) (reverse (drop pre b))

abbrev at_or_zero : Option ℕ → ℕ
at_or_zero none = 0
at_or_zero (some n) = n

abbrev head_of : List ℕ → ℕ
head_of [] = 0
head_of (n ∷ ns) = n

abbrev tail_of : List ℕ → List ℕ
tail_of [] = []
tail_of (n ∷ ns) = ns

-- `lcs[i]` from `lcs[i+1]`, from its end.
unfoldable pub lcs_row : DiffLine → List DiffLine → List ℕ → List ℕ
lcs_row x [] below = 0 ∷ []
lcs_row x (y ∷ b) below =
    let rest = lcs_row x b (tail_of below) in
    (if line_eq x y
      then head_of (tail_of below) + 1
      else if leb (head_of rest) (head_of below)
      then head_of below
      else head_of rest)
    ∷ rest

abbrev first_row : List (List ℕ) → List ℕ
first_row [] = []
first_row (r ∷ rs) = r

unfoldable pub lcs_table : List DiffLine → List DiffLine → List (List ℕ)
unfolding lcs_row
lcs_table [] b = (map (λ _. 0) b ++ 0 ∷ []) ∷ []
lcs_table (x ∷ a) b = let rest = lcs_table a b in lcs_row x b (first_row rest) ∷ rest

abbrev row_of : Option (List ℕ) → List ℕ
row_of none = []
row_of (some r) = r

-- `lcs[i][j]`
unfoldable pub lcs_at : List (List ℕ) → ℕ → ℕ → ℕ
lcs_at t i j = at_or_zero (get_elem? (row_of (get_elem? t i)) j)

-- The walk, from the lines at `i` and `j` on.
unfoldable pub walk : List (List ℕ) → ℕ → ℕ → List DiffLine → List DiffLine → List DiffOp
unfolding lcs_at
walk t i j [] b = map added b
walk t i j (x ∷ a) [] = map removed (x ∷ a)
walk t i j (x ∷ a) (y ∷ b) = elim (line_eq x y) [
  | true ↦ context x ∷ walk t (suc i) (suc j) a b
  | false ↦ elim (leb (lcs_at t i (suc j)) (lcs_at t (suc i) j)) [
    | true ↦ removed x ∷ walk t (suc i) j a (y ∷ b)
    | false ↦ added y ∷ walk t i (suc j) (x ∷ a) b
  ]
]

unfoldable pub diff_middle : List DiffLine → List DiffLine → List DiffOp
unfolding lcs_table walk
diff_middle a b =
    if (length a == 0) || ((length b == 0) || ltb lcs_budget (length a * length b))
    then map removed a ++ map added b
    else walk (lcs_table a b) 0 0 a b

unfoldable pub diff_ops : List DiffLine → List DiffLine → List DiffOp
unfolding common_prefix common_suffix diff_middle
diff_ops a b =
    let pre = common_prefix a b in
    let suf = common_suffix pre a b in
    map context (take pre a)
    ++ diff_middle (take (length a - suf - pre) (drop pre a))
        (take (length b - suf - pre) (drop pre b))
    ++ map context (drop (length a - suf) a)
