-- ===== src/Search/Matching/Samples.antt =====
-- Postings and queries (src/nb_search.go): tests, and a theorem at them.
use collectif.Common.{ℕ, ◌≡◌, refl, String, List, [], ◌∷◌}
use mathlib.Core.List.Permᴰ
use collectif.Search.Matching.{intersect_sorted, matching, empty_index, add_all}
use collectif.Search.Matching.Intersection.{contains_id}
use collectif.Search.Matching.Postings.{tokens_at}
use collectif.Search.Matching.Documents.{has_all, matching-add_all}

common : intersect_sorted (1 ∷ 3 ∷ 4 ∷ 9 ∷ []) (0 ∷ 3 ∷ 9 ∷ 12 ∷ []) ≡ 3 ∷ 9 ∷ []
unfolding intersect_sorted
common = refl

abbrev texts : List (ℕ × List String)
texts = (7, "git" ∷ "push" ∷ []) ∷ (8, "git" ∷ []) ∷ (9, "push" ∷ "git" ∷ "push" ∷ []) ∷ []

abbrev as_they_are : List (List ℕ) → List (List ℕ)
as_they_are ls = ls

both_words :
    matching as_they_are (add_all empty_index texts).postings ("git" ∷ "push" ∷ []) ≡ 0 ∷ 2 ∷ []
unfolding matching add_all
both_words = refl

matching-add_all_example :
    contains_id 2 (matching as_they_are (add_all empty_index texts).postings ("git" ∷ "push" ∷ []))
    ≡ has_all (tokens_at texts 2) ("git" ∷ "push" ∷ [])
matching-add_all_example = matching-add_all as_they_are Permᴰ.refl texts "git" ("push" ∷ []) 2
