-- ===== src/Search/Matching/Intersection.antt =====
-- The intersection of two sorted lists (src/nb_search.go: intersectSorted).
use collectif.Common.{
  ℕ, ◌≡◌, refl, ◌<◌, ◌≤◌, Bool, true, false, ◌&&◌, ◌||◌, Bool-cases, inl, inr, List, [], ◌∷◌, arith,
  ◌==◌, ltb,
}
use collectif.Search.Matching.{scan, intersect_sorted}

abbrev pub AllAbove : ℕ → List ℕ → Type 0
AllAbove a [] = Unit
AllAbove a (b ∷ bs) = (a < b) × AllAbove a bs

-- Strictly ascending.
abbrev pub IsSorted : List ℕ → Type 0
IsSorted [] = Unit
IsSorted (a ∷ xs) = AllAbove a xs × IsSorted xs

unfoldable pub contains_id : ℕ → List ℕ → Bool
contains_id v [] = false
contains_id v (a ∷ xs) = (a == v) || contains_id v xs

AllAbove-lower : (a b : ℕ) (bs : List ℕ) → a < b → AllAbove b bs → AllAbove a bs
AllAbove-lower a b [] h all = tt
AllAbove-lower a b (c ∷ bs) h (h', all) = (omega arith, AllAbove-lower a b bs h all)

contains_id-above : (v a : ℕ) (bs : List ℕ) → v ≤ a → AllAbove a bs → contains_id v bs ≡ false
unfolding contains_id
contains_id-above v a [] e all = refl
contains_id-above v a (b ∷ bs) e (h, all) = ground (arith, contains_id-above v a bs e all)

scan-same :
    (a b : ℕ) (rest : List ℕ → List ℕ) (bs : List ℕ)
    → (a == b) ≡ true
    → scan a rest (b ∷ bs) ≡ a ∷ rest bs
unfolding scan
scan-same a b rest bs e = rw (scan, e) refl

scan-lower :
    (a b : ℕ) (rest : List ℕ → List ℕ) (bs : List ℕ)
    → (a == b) ≡ false
    → ltb a b ≡ true
    → scan a rest (b ∷ bs) ≡ rest (b ∷ bs)
unfolding scan
scan-lower a b rest bs e lt = rw (scan, e, lt) refl

scan-higher :
    (a b : ℕ) (rest : List ℕ → List ℕ) (bs : List ℕ)
    → (a == b) ≡ false
    → ltb a b ≡ false
    → scan a rest (b ∷ bs) ≡ scan a rest bs
unfolding scan
scan-higher a b rest bs e ge = rw (scan, e, ge) refl

-- What the intersection keeps above a bound, and ascending.
AllAbove-scan :
    (z a : ℕ) (bs : List ℕ) (rest : List ℕ → List ℕ)
    → z < a
    → ((cs : List ℕ) → AllAbove z (rest cs))
    → AllAbove z (scan a rest bs)
unfolding scan
AllAbove-scan z a [] rest h all = tt
AllAbove-scan z a (b ∷ bs) rest h all = elim (Bool-cases (a == b)) [
  | inl e ↦ rw (scan-same a b rest bs e) (h, all bs)
  | inr e ↦ elim (Bool-cases (ltb a b)) [
    | inl lt ↦ rw (scan-lower a b rest bs e lt) (all (b ∷ bs))
    | inr ge ↦ rw (scan-higher a b rest bs e ge) (AllAbove-scan z a bs rest h all)
  ]
]

AllAbove-intersect_sorted :
    (z : ℕ) (xs bs : List ℕ) → AllAbove z xs → AllAbove z (intersect_sorted xs bs)
unfolding intersect_sorted
AllAbove-intersect_sorted z [] bs all = tt
AllAbove-intersect_sorted z (a ∷ xs) bs (h, all) =
    AllAbove-scan z a bs (intersect_sorted xs) h (λ cs. AllAbove-intersect_sorted z xs cs all)

scan-IsSorted :
    (a : ℕ) (bs : List ℕ) (rest : List ℕ → List ℕ)
    → ((cs : List ℕ) → AllAbove a (rest cs))
    → ((cs : List ℕ) → IsSorted (rest cs))
    → IsSorted (scan a rest bs)
unfolding scan
scan-IsSorted a [] rest all sorted = tt
scan-IsSorted a (b ∷ bs) rest all sorted = elim (Bool-cases (a == b)) [
  | inl e ↦ rw (scan-same a b rest bs e) (all bs, sorted bs)
  | inr e ↦ elim (Bool-cases (ltb a b)) [
    | inl lt ↦ rw (scan-lower a b rest bs e lt) (sorted (b ∷ bs))
    | inr ge ↦ rw (scan-higher a b rest bs e ge) (scan-IsSorted a bs rest all sorted)
  ]
]

pub intersect_sorted-IsSorted : (xs bs : List ℕ) → IsSorted xs → IsSorted (intersect_sorted xs bs)
unfolding intersect_sorted
intersect_sorted-IsSorted [] bs sorted = tt
intersect_sorted-IsSorted (a ∷ xs) bs (least, sorted) =
    scan-IsSorted a bs (intersect_sorted xs) (λ cs. AllAbove-intersect_sorted a xs cs least)
      (λ cs. intersect_sorted-IsSorted xs cs sorted)

contains_id-scan :
    (v a : ℕ) (xs bs : List ℕ) (rest : List ℕ → List ℕ)
    → AllAbove a xs
    → IsSorted bs
    → ((cs : List ℕ)
        → IsSorted cs
        → contains_id v (rest cs) ≡ (contains_id v xs && contains_id v cs))
    → contains_id v (scan a rest bs) ≡ (contains_id v (a ∷ xs) && contains_id v bs)
unfolding scan contains_id
contains_id-scan v a xs [] rest above sorted h = ground arith
contains_id-scan v a xs (b ∷ bs) rest above (least, sorted) h = elim (Bool-cases (a == b)) [
  | inl e ↦ rw (scan-same a b rest bs e) (ground (arith, h bs sorted))
  | inr e ↦ elim (Bool-cases (ltb a b)) [
    | inl lt ↦ rw (scan-lower a b rest bs e lt) (elim (Bool-cases (a == v)) [
      | inl here ↦
          let gone : contains_id v (b ∷ bs) ≡ false =
            contains_id-above v a (b ∷ bs) (ground arith)
              (ground arith, AllAbove-lower a b bs (ground arith) least) in
          ground (arith, h (b ∷ bs) (least, sorted))
      | inr there ↦ ground (arith, h (b ∷ bs) (least, sorted))
    ])
    | inr ge ↦ rw (scan-higher a b rest bs e ge) (elim (Bool-cases (b == v)) [
      | inl here ↦
          let gone : contains_id v xs ≡ false = contains_id-above v a xs (ground arith) above in
          ground (arith, contains_id-scan v a xs bs rest above sorted h)
      | inr there ↦ ground (arith, contains_id-scan v a xs bs rest above sorted h)
    ])
  ]
]

-- The intersection of two ascending lists has exactly what both have.
pub contains_id-intersect_sorted :
    (v : ℕ) (xs bs : List ℕ)
    → IsSorted xs
    → IsSorted bs
    → contains_id v (intersect_sorted xs bs) ≡ (contains_id v xs && contains_id v bs)
unfolding intersect_sorted contains_id
contains_id-intersect_sorted v [] bs sorted sorted' = refl
contains_id-intersect_sorted v (a ∷ xs) bs (least, sorted) sorted' =
    contains_id-scan v a xs bs (intersect_sorted xs) least sorted'
      (λ cs h. contains_id-intersect_sorted v xs cs sorted h)
