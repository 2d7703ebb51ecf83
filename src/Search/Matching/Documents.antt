-- ===== src/Search/Matching/Documents.antt =====
-- The documents that hold every word of a query (src/nb_search.go: matching, intersectSorted, add).
use collectif.Common.{
  ℕ, suc, ◌≤◌, ◌≡◌, refl, sym, ap, ◌∙◌, String, Bool, true, false, ◌&&◌, Bool-cases, inl, inr,
  Option, none, some, List, [], ◌∷◌, ◌++◌, arith, length,
}
use mathlib.Core.List.{Permᴰ, append-nil, append_assoc}
use mathlib.Core.List.Permᴰ.{nil, cons, swap, trans}
use collectif.Search.Matching.{
  intersect_sorted, postings_of, posting_lists, intersect_all, of_lists, is_nil, with_list,
  of_postings, matching, SearchIndex, empty_index, add_all, add,
}
use collectif.Search.Matching.Intersection.{
  IsSorted, contains_id, intersect_sorted-IsSorted, contains_id-intersect_sorted,
}
use collectif.Search.Matching.Postings.{
  AllFiled, has_token, tokens_at, IsIndexOf, empty_index-IsIndexOf, add-IsIndexOf,
}

abbrev AllSorted : List (List ℕ) → Type 0
AllSorted [] = Unit
AllSorted (l ∷ ls) = IsSorted l × AllSorted ls

-- Whether a number is in all of the lists.
unfoldable all_contain : ℕ → List (List ℕ) → Bool
all_contain v [] = true
all_contain v (l ∷ ls) = contains_id v l && all_contain v ls

contains_id-nil : (v : ℕ) (xs : List ℕ) → is_nil xs ≡ true → contains_id v xs ≡ false
unfolding contains_id
contains_id-nil v [] h = refl
contains_id-nil v (x ∷ xs) h = absurd (ground arith)

contains_id-intersect_all :
    (v : ℕ) (acc : List ℕ) (ls : List (List ℕ))
    → IsSorted acc
    → AllSorted ls
    → contains_id v (intersect_all acc ls) ≡ (contains_id v acc && all_contain v ls)
unfolding intersect_all all_contain
contains_id-intersect_all v acc [] sorted sorted' = ground arith
contains_id-intersect_all v acc (l ∷ ls) sorted (sorted', all) =
    elim (Bool-cases (is_nil (intersect_sorted acc l))) [
      | inl e ↦
          rw (intersect_all, e)
            (ground (
              arith,
              contains_id-intersect_sorted v acc l sorted sorted',
              contains_id-nil v (intersect_sorted acc l) e,
            ))
      | inr e ↦
          rw (intersect_all, e)
            (ground (
              arith,
              contains_id-intersect_all v (intersect_sorted acc l) ls
                  (intersect_sorted-IsSorted acc l sorted) all,
              contains_id-intersect_sorted v acc l sorted sorted',
            ))
    ]

all_contain-Permᴰ :
    (v : ℕ) {ls ls' : List (List ℕ)} → Permᴰ ls ls' → all_contain v ls ≡ all_contain v ls'
unfolding all_contain
all_contain-Permᴰ v nil = refl
all_contain-Permᴰ v (cons {a = a} {b = b} {l₁ = l} {l₂ = l'} e p) =
    rw e (ap (λ x. contains_id v b && x) (all_contain-Permᴰ v p))
all_contain-Permᴰ v (swap {a = a} {b = b} {a' = a'} {b' = b'} e e') = rw (e, e') (ground arith)
all_contain-Permᴰ v (trans p q) = all_contain-Permᴰ v p ∙ all_contain-Permᴰ v q

AllSorted-Permᴰ : {ls ls' : List (List ℕ)} → Permᴰ ls ls' → AllSorted ls' → AllSorted ls
AllSorted-Permᴰ nil all = all
AllSorted-Permᴰ (cons e p) (sorted, all) = (rw e sorted, AllSorted-Permᴰ p all)
AllSorted-Permᴰ (swap e e') (sorted, (sorted', all)) = (rw e sorted', (rw e' sorted, all))
AllSorted-Permᴰ (trans p q) all = AllSorted-Permᴰ p (AllSorted-Permᴰ q all)

length-Permᴰ : {ls ls' : List (List ℕ)} → Permᴰ ls ls' → length ls ≡ length ls'
length-Permᴰ nil = refl
length-Permᴰ (cons e p) = omega (arith, length-Permᴰ p)
length-Permᴰ (swap e e') = refl
length-Permᴰ (trans p q) = length-Permᴰ p ∙ length-Permᴰ q

contains_id-of_lists :
    (v : ℕ) (ls : List (List ℕ))
    → 1 ≤ length ls
    → AllSorted ls
    → contains_id v (of_lists ls) ≡ all_contain v ls
unfolding all_contain
contains_id-of_lists v [] h all = absurd (omega arith)
contains_id-of_lists v (l ∷ ls) h (sorted, all) = contains_id-intersect_all v l ls sorted all

-- Whether a document is noted under every term.
unfoldable all_noted : ℕ → List (String × List ℕ) → List String → Bool
all_noted v ix [] = true
all_noted v ix (t ∷ ts) = contains_id v (postings_of ix t) && all_noted v ix ts

-- The lists that were collected have a document in common where the test says so.
abbrev Collects : ℕ → ℕ → Option (List (List ℕ)) → Bool → Type 0
Collects v n none b = b ≡ false
Collects v n (some ls) b = (all_contain v ls ≡ b) × AllSorted ls × (length ls ≡ n)

with_list-Collects :
    (v n : ℕ) (l : List ℕ) (o : Option (List (List ℕ))) (b : Bool)
    → IsSorted l
    → Collects v n o b
    → Collects v (suc n) (with_list l o) (contains_id v l && b)
unfolding all_contain
with_list-Collects v n [] o b sorted h = unfold contains_id in refl
with_list-Collects v n (x ∷ xs) none b sorted h = ground arith
with_list-Collects v n (x ∷ xs) (some ls) b sorted (same, all, size) =
    (ap (λ c. contains_id v (x ∷ xs) && c) same, (sorted, all), ap suc size)

posting_lists-Collects :
    (v n : ℕ) (ix : List (String × List ℕ)) (ts : List String)
    → AllFiled n ix
    → Collects v (length ts) (posting_lists ix ts) (all_noted v ix ts)
unfolding posting_lists all_noted all_contain
posting_lists-Collects v n ix [] filed = (refl, tt, refl)
posting_lists-Collects v n ix (t ∷ ts) filed =
    with_list-Collects v (length ts) (postings_of ix t) (posting_lists ix ts) (all_noted v ix ts)
      (filed t).0 (posting_lists-Collects v n ix ts filed)

-- Whether a text with these tokens holds every term.
unfoldable pub has_all : List String → List String → Bool
has_all tokens [] = true
has_all tokens (t ∷ ts) = has_token tokens t && has_all tokens ts

all_noted-has_all :
    {D : Type 0} (ds : List (D × List String)) (ix : SearchIndex D) (v : ℕ) (ts : List String)
    → IsIndexOf ds ix
    → all_noted v ix.postings ts ≡ has_all (tokens_at ds v) ts
unfolding all_noted has_all
all_noted-has_all ds ix v [] h = refl
all_noted-has_all ds ix v (t ∷ ts) h =
    rw (h.noted v t) (ap (λ b. has_token (tokens_at ds v) t && b) (all_noted-has_all ds ix v ts h))

add_all-IsIndexOf :
    {D : Type 0} (ds es : List (D × List String)) (ix : SearchIndex D)
    → IsIndexOf ds ix
    → IsIndexOf (ds ++ es) (add_all ix es)
unfolding add_all
add_all-IsIndexOf ds [] ix h = rw (append-nil ds) h
add_all-IsIndexOf ds ((d, tokens) ∷ es) ix h = rw (sym (append_assoc ds ((d, tokens) ∷ []) es)) (
    add_all-IsIndexOf (ds ++ (d, tokens) ∷ []) es (add ix (d, tokens))
      (add-IsIndexOf ds ix d tokens h))

module _ (order : List (List ℕ) → List (List ℕ))
    (permutes : (ls : List (List ℕ)) → Permᴰ (order ls) ls) where
  of_postings-Collects :
      (v n : ℕ) (o : Option (List (List ℕ))) (b : Bool)
      → Collects v (suc n) o b
      → contains_id v (of_postings order o) ≡ b
  unfolding contains_id
  of_postings-Collects v n none b h = sym h
  of_postings-Collects v n (some ls) b (same, all, size) =
      contains_id-of_lists v (order ls) (omega (arith, length-Permᴰ (permutes ls)))
        (AllSorted-Permᴰ (permutes ls) all)
      ∙ all_contain-Permᴰ v (permutes ls)
      ∙ same

  -- A search for one word or more over an index that add has filled finds a document exactly where
  -- every word is among its tokens, in whichever order the lists are intersected.
  pub matching-add_all :
      {D : Type 0} (ds : List (D × List String)) (t : String) (ts : List String) (v : ℕ)
      → contains_id v (matching order (add_all empty_index ds).postings (t ∷ ts))
        ≡ has_all (tokens_at ds v) (t ∷ ts)
  unfolding matching
  matching-add_all ds t ts v =
      let built : IsIndexOf ds (add_all empty_index ds) =
        add_all-IsIndexOf [] ds empty_index empty_index-IsIndexOf in
      of_postings-Collects v (length ts) (posting_lists (add_all empty_index ds).postings (t ∷ ts))
        (all_noted v (add_all empty_index ds).postings (t ∷ ts))
        (posting_lists-Collects v (length ds) (add_all empty_index ds).postings (t ∷ ts)
          built.filed)
      ∙ all_noted-has_all ds (add_all empty_index ds) v (t ∷ ts) built
