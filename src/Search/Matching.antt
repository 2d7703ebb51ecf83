-- ===== src/Search/Matching.antt =====
-- Which documents of an index hold all words of a query (src/nb_search.go: matching, intersectSorted,
-- and the postings of a searchIndex, which add fills). Positions are below 2^31; the tokens of a text
-- are an argument.
pub mod Intersection
pub mod Postings
pub mod Documents
mod Samples
use collectif.Common.{
  ℕ, Bool, true, false, ◌&&◌, ◌||◌, String, Option, none, some, List, [], ◌∷◌, ◌++◌, length, ◌==◌,
  ltb, str_eq, if◌then◌else◌,
}
use mathlib.Core.Option

-- The loop for one element of the first list: it goes on in the second, and from where it stops `rest`
-- goes on.
unfoldable pub scan : ℕ → (List ℕ → List ℕ) → List ℕ → List ℕ
scan a rest [] = []
scan a rest (b ∷ bs) = elim (a == b) [
  | true ↦ a ∷ rest bs
  | false ↦ elim (ltb a b) [ true ↦ rest (b ∷ bs) | false ↦ scan a rest bs ]
]

unfoldable pub intersect_sorted : List ℕ → List ℕ → List ℕ
unfolding scan
intersect_sorted [] bs = []
intersect_sorted (a ∷ xs) bs = scan a (intersect_sorted xs) bs

-- `ix.Postings[t]`, nil where there is none.
unfoldable pub postings_of : List (String × List ℕ) → String → List ℕ
postings_of [] t = []
postings_of ((word, ids) ∷ ix) t =
    let rest = postings_of ix t in if str_eq word t then ids else rest

-- `ix.Postings[t] = ids`
unfoldable pub set_postings : List (String × List ℕ) → String → List ℕ → List (String × List ℕ)
set_postings [] t ids = (t, ids) ∷ []
set_postings ((word, old) ∷ ix) t ids =
    let rest = set_postings ix t ids in
    if str_eq word t then (word, ids) ∷ ix else (word, old) ∷ rest

-- `n > 0 && p[n-1] == id`
unfoldable pub ends_in : ℕ → List ℕ → Bool
ends_in id [] = false
ends_in id (a ∷ []) = a == id
ends_in id (a ∷ b ∷ xs) = ends_in id (b ∷ xs)

unfoldable pub add_token : ℕ → List (String × List ℕ) → String → List (String × List ℕ)
unfolding postings_of set_postings ends_in
add_token id ix t =
    let p = postings_of ix t in if ends_in id p then ix else set_postings ix t (p ++ id ∷ [])

unfoldable pub add_tokens : ℕ → List (String × List ℕ) → List String → List (String × List ℕ)
unfolding add_token
add_tokens id ix [] = ix
add_tokens id ix (t ∷ ts) = add_tokens id (add_token id ix t) ts

-- searchIndex: its documents, and the postings of its words.
pub record SearchIndex (D : Type 0) : Type 0 where
  pub docs : List D
  pub postings : List (String × List ℕ)

abbrev pub empty_index : {D : Type 0} → SearchIndex D
empty_index = record { docs = []; postings = [] }

-- add, of a document and the tokens of its text.
unfoldable pub add : {D : Type 0} → SearchIndex D → D × List String → SearchIndex D
unfolding add_tokens
add ix (d, tokens) = record {
  docs = ix.docs ++ d ∷ [];
  postings = add_tokens (length ix.docs) ix.postings tokens;
}

unfoldable pub add_all : {D : Type 0} → SearchIndex D → List (D × List String) → SearchIndex D
unfolding add
add_all ix [] = ix
add_all ix (d ∷ ds) = add_all (add ix d) ds

abbrev pub is_nil : List ℕ → Bool
is_nil [] = true
is_nil (x ∷ xs) = false

abbrev pub with_list : List ℕ → Option (List (List ℕ)) → Option (List (List ℕ))
with_list [] lists = none
with_list (x ∷ xs) lists = Option.map (λ ls. (x ∷ xs) ∷ ls) lists

-- The lists of the terms, `none` where one is empty.
unfoldable pub posting_lists : List (String × List ℕ) → List String → Option (List (List ℕ))
unfolding postings_of
posting_lists ix [] = some []
posting_lists ix (t ∷ ts) = with_list (postings_of ix t) (posting_lists ix ts)

-- The intersections from left to right, until one is empty.
unfoldable pub intersect_all : List ℕ → List (List ℕ) → List ℕ
unfolding intersect_sorted
intersect_all acc [] = acc
intersect_all acc (l ∷ ls) =
    let next = intersect_sorted acc l in
    elim (is_nil next) [ true ↦ [] | false ↦ intersect_all next ls ]

abbrev pub of_lists : List (List ℕ) → List ℕ
of_lists [] = []
of_lists (l ∷ ls) = intersect_all l ls

-- `sort.Slice` puts the shortest list first; it is `order`, and may leave equal lengths in any order.
module _ (order : List (List ℕ) → List (List ℕ)) where
  abbrev pub of_postings : Option (List (List ℕ)) → List ℕ
  of_postings none = []
  of_postings (some lists) = of_lists (order lists)

  -- For one term or more, as its caller has made sure.
  unfoldable pub matching : List (String × List ℕ) → List String → List ℕ
  unfolding posting_lists intersect_all
  matching ix terms = of_postings (posting_lists ix terms)
