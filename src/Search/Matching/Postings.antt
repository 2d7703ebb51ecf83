-- ===== src/Search/Matching/Postings.antt =====
-- What an index notes of its documents (src/nb_search.go: add).
use collectif.Common.{
  ℕ, zero, suc, ◌+◌, ◌≡◌, refl, sym, ap, ◌∙◌, ◌<◌, ◌≤◌, String, Bool, true, false, ◌&&◌, ◌||◌,
  Bool-cases, inl, inr, List, [], ◌∷◌, ◌++◌, arith, ◌==◌, str_eq, eq_iff, &&-true, ==_iff,
  if◌then◌else◌, length, length-append,
}
use collectif.Search.Matching.{
  postings_of, set_postings, ends_in, add_token, add_tokens, SearchIndex, empty_index, add,
}
use collectif.Search.Matching.Intersection.{AllAbove, IsSorted, contains_id}

abbrev pub AllBelow : ℕ → List ℕ → Type 0
AllBelow n [] = Unit
AllBelow n (a ∷ xs) = (a < n) × AllBelow n xs

AllBelow-raise : (m n : ℕ) (xs : List ℕ) → m ≤ n → AllBelow m xs → AllBelow n xs
AllBelow-raise m n [] h all = tt
AllBelow-raise m n (a ∷ xs) h (h', all) = (omega arith, AllBelow-raise m n xs h all)

-- The last of an ascending list is its largest.
AllBelow-lower :
    (n : ℕ) (xs : List ℕ) → IsSorted xs → AllBelow (suc n) xs → ends_in n xs ≡ false → AllBelow n xs
unfolding ends_in
AllBelow-lower n [] sorted all e = tt
AllBelow-lower n (a ∷ []) sorted (h, all) e = (ground arith, tt)
AllBelow-lower n (a ∷ b ∷ xs) ((h, least), sorted) (h', all) e =
    let (h'', all') = AllBelow-lower n (b ∷ xs) sorted all e in (omega arith, (h'', all'))

AllAbove-snoc : (a n : ℕ) (xs : List ℕ) → a < n → AllAbove a xs → AllAbove a (xs ++ n ∷ [])
AllAbove-snoc a n [] h all = (h, tt)
AllAbove-snoc a n (b ∷ xs) h (h', all) = (h', AllAbove-snoc a n xs h all)

IsSorted-snoc : (n : ℕ) (xs : List ℕ) → IsSorted xs → AllBelow n xs → IsSorted (xs ++ n ∷ [])
IsSorted-snoc n [] sorted all = (tt, tt)
IsSorted-snoc n (a ∷ xs) (least, sorted) (h, all) =
    (AllAbove-snoc a n xs h least, IsSorted-snoc n xs sorted all)

AllBelow-snoc : (n : ℕ) (xs : List ℕ) → AllBelow n xs → AllBelow (suc n) (xs ++ n ∷ [])
AllBelow-snoc n [] all = (omega arith, tt)
AllBelow-snoc n (a ∷ xs) (h, all) = (omega arith, AllBelow-snoc n xs all)

contains_id-ends_in :
    (n v : ℕ) (xs : List ℕ) → ends_in n xs ≡ true → n ≡ v → contains_id v xs ≡ true
unfolding ends_in contains_id
contains_id-ends_in n v [] h e = absurd (ground arith)
contains_id-ends_in n v (a ∷ []) h e = ground arith
contains_id-ends_in n v (a ∷ b ∷ xs) h e = ground (arith, contains_id-ends_in n v (b ∷ xs) h e)

contains_id-snoc :
    (n v : ℕ) (xs : List ℕ) → contains_id v (xs ++ n ∷ []) ≡ (contains_id v xs || (n == v))
unfolding contains_id
contains_id-snoc n v [] = ground arith
contains_id-snoc n v (a ∷ xs) = ground (arith, contains_id-snoc n v xs)

str_eq-other : (w t u : String) → str_eq w t ≡ false → str_eq w u ≡ true → str_eq t u ≡ false
str_eq-other w t u e f = elim (Bool-cases (str_eq t u)) [
  | inl same ↦ absurd (ground (arith, eq_iff w t, eq_iff w u, eq_iff t u))
  | inr other ↦ other
]

postings_of-set_postings :
    (ix : List (String × List ℕ)) (t u : String) (ids : List ℕ)
    → postings_of (set_postings ix t ids) u ≡ (if str_eq t u then ids else postings_of ix u)
unfolding postings_of set_postings
postings_of-set_postings [] t u ids = refl
postings_of-set_postings ((w, old) ∷ ix) t u ids = elim (Bool-cases (str_eq w t)) [
  | inl e ↦
      let same : w ≡ t = (eq_iff w t).0 e in
      elim (Bool-cases (str_eq t u)) [ inl f ↦ rw (e, same, f) refl | inr f ↦ rw (e, same, f) refl ]
  | inr e ↦ elim (Bool-cases (str_eq w u)) [
    | inl f ↦ let other : str_eq t u ≡ false = str_eq-other w t u e f in rw (e, f, other) refl
    | inr f ↦ rw (e, f) (postings_of-set_postings ix t u ids)
  ]
]

-- The postings of an index of `n` documents: ascending, and all below `n`.
abbrev pub AllFiled : ℕ → List (String × List ℕ) → Type 0
AllFiled n ix = (u : String) → IsSorted (postings_of ix u) × AllBelow n (postings_of ix u)

if-holds {ℓ κ} :
    {A : Type ℓ} (b : Bool) (P : A → Type κ) (x y : A) → P x → P y → P (if b then x else y)
if-holds true P x y h h' = h
if-holds false P x y h h' = h'

add_token-AllFiled :
    (n : ℕ) (ix : List (String × List ℕ)) (t : String)
    → AllFiled (suc n) ix
    → AllFiled (suc n) (add_token n ix t)
unfolding add_token
add_token-AllFiled n ix t filed u = elim (Bool-cases (ends_in n (postings_of ix t))) [
  | inl e ↦ rw e (filed u)
  | inr e ↦
      let below = AllBelow-lower n (postings_of ix t) (filed t).0 (filed t).1 e in
      rw (e, postings_of-set_postings ix t u (postings_of ix t ++ n ∷ []))
        (if-holds (str_eq t u) (λ p. IsSorted p × AllBelow (suc n) p) (postings_of ix t ++ n ∷ [])
          (postings_of ix u)
          (
            IsSorted-snoc n (postings_of ix t) (filed t).0 below,
            AllBelow-snoc n (postings_of ix t) below,
          )
          (filed u))
]

add_tokens-AllFiled :
    (n : ℕ) (ix : List (String × List ℕ)) (ts : List String)
    → AllFiled (suc n) ix
    → AllFiled (suc n) (add_tokens n ix ts)
unfolding add_tokens
add_tokens-AllFiled n ix [] filed = filed
add_tokens-AllFiled n ix (t ∷ ts) filed =
    add_tokens-AllFiled n (add_token n ix t) ts (add_token-AllFiled n ix t filed)

-- Whether a token is among those of a text.
unfoldable pub has_token : List String → String → Bool
has_token [] u = false
has_token (t ∷ ts) u = str_eq t u || has_token ts u

absorbed : (a b : Bool) → (b ≡ true → a ≡ true) → a ≡ (a || b)
absorbed true b h = refl
absorbed false true h = h refl
absorbed false false h = refl

unchanged : (a : Bool) → a ≡ (a || false)
unchanged true = refl
unchanged false = refl

contains_id-add_token :
    (n v : ℕ) (ix : List (String × List ℕ)) (t u : String)
    → contains_id v (postings_of (add_token n ix t) u)
      ≡ (contains_id v (postings_of ix u) || (str_eq t u && (n == v)))
unfolding add_token
contains_id-add_token n v ix t u = elim (Bool-cases (ends_in n (postings_of ix t))) [
  | inl e ↦ rw e (
      absorbed (contains_id v (postings_of ix u)) (str_eq t u && (n == v)) (λ both.
        let same : t ≡ u = (eq_iff t u).0 (&&-true (str_eq t u) (n == v) both).0 in
        rw (← same) (
          contains_id-ends_in n v (postings_of ix t) e
            ((==_iff n v).0 (&&-true (str_eq t u) (n == v) both).1))))
  | inr e ↦
      rw (e, postings_of-set_postings ix t u (postings_of ix t ++ n ∷ []))
        (elim (Bool-cases (str_eq t u)) [
          | inl f ↦
              let same : t ≡ u = (eq_iff t u).0 f in
              rw (f, ← same) (contains_id-snoc n v (postings_of ix t))
          | inr f ↦ rw f (unchanged (contains_id v (postings_of ix u)))
        ])
]

contains_id-add_tokens :
    (n v : ℕ) (ix : List (String × List ℕ)) (ts : List String) (u : String)
    → contains_id v (postings_of (add_tokens n ix ts) u)
      ≡ (contains_id v (postings_of ix u) || (has_token ts u && (n == v)))
unfolding add_tokens has_token
contains_id-add_tokens n v ix [] u = unchanged (contains_id v (postings_of ix u))
contains_id-add_tokens n v ix (t ∷ ts) u =
    ground
      (arith, contains_id-add_tokens n v (add_token n ix t) ts u, contains_id-add_token n v ix t u)

-- What a built index knows: its postings are filed, and a document is noted under a word exactly where
-- the word is among its tokens.
abbrev pub tokens_at : {D : Type 0} → List (D × List String) → ℕ → List String
tokens_at [] i = []
tokens_at ((d, tokens) ∷ ds) zero = tokens
tokens_at ((d, tokens) ∷ ds) (suc i) = tokens_at ds i

pub record IsIndexOf {D : Type 0} (ds : List (D × List String)) (ix : SearchIndex D) : Type 0 where
  pub counted : length ix.docs ≡ length ds
  pub filed : AllFiled (length ds) ix.postings
  pub noted :
      (v : ℕ) (u : String)
      → contains_id v (postings_of ix.postings u) ≡ has_token (tokens_at ds v) u

pub empty_index-IsIndexOf : {D : Type 0} → IsIndexOf {D = D} [] empty_index
unfolding postings_of contains_id has_token
empty_index-IsIndexOf = record { counted = refl; filed = λ u. (tt, tt); noted = λ v u. refl }

tokens_at-snoc :
    {D : Type 0} (ds : List (D × List String)) (d : D) (tokens : List String) (v : ℕ) (u : String)
    → has_token (tokens_at (ds ++ (d, tokens) ∷ []) v) u
      ≡ (has_token (tokens_at ds v) u || (has_token tokens u && (length ds == v)))
unfolding has_token
tokens_at-snoc [] d tokens zero u = ground arith
tokens_at-snoc [] d tokens (suc v) u = ground arith
tokens_at-snoc ((d', tokens') ∷ ds) d tokens zero u = ground arith
tokens_at-snoc ((d', tokens') ∷ ds) d tokens (suc v) u =
    ground (arith, tokens_at-snoc ds d tokens v u)

AllFiled-raise : (n : ℕ) (ix : List (String × List ℕ)) → AllFiled n ix → AllFiled (suc n) ix
AllFiled-raise n ix filed u =
    ((filed u).0, AllBelow-raise n (suc n) (postings_of ix u) (omega arith) (filed u).1)

pub add-IsIndexOf :
    {D : Type 0} (ds : List (D × List String)) (ix : SearchIndex D) (d : D) (tokens : List String)
    → IsIndexOf ds ix
    → IsIndexOf (ds ++ (d, tokens) ∷ []) (add ix (d, tokens))
unfolding add
add-IsIndexOf ds ix d tokens h = record {
  counted =
      length-append ix.docs (d ∷ [])
      ∙ ap (λ n. n + 1) h.counted
      ∙ sym (length-append ds ((d, tokens) ∷ []));
  filed =
      rw (length-append ds ((d, tokens) ∷ []), h.counted, one_more)
        (add_tokens-AllFiled (length ds) ix.postings tokens
          (AllFiled-raise (length ds) ix.postings h.filed));
  noted = λ v u.
      contains_id-add_tokens (length ix.docs) v ix.postings tokens u
      ∙ rw (h.counted, h.noted v u) (sym (tokens_at-snoc ds d tokens v u));
}
  where
    one_more : length ds + 1 ≡ suc (length ds)
    one_more = omega arith
