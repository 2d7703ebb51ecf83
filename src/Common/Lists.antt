-- ===== src/Common/Lists.antt =====
-- Lists measured and indexed by native numbers, under the library's names.
use Prim.Native.Nat.{ℕ, zero, suc, ◌+◌, ◌-◌, ◌≤◌}
use mathlib.Core.Path.{◌≡◌, refl, sym, ap, ◌∙◌}
use mathlib.Core.List.{
  List, [], ◌∷◌, ◌++◌, map, Perm, reverse, reverse-cons, reverse-append, reverse-reverse,
}
use mathlib.Core.List.Perm
use mathlib.Core.Option.{Option, none, some}
use native.Mathlib.Omega.{arith}

module _ {ℓ} {A : Type ℓ} where
  abbrev pub length : List A → ℕ
  length [] = 0
  length (x ∷ xs) = suc (length xs)

  abbrev pub get_elem? : List A → ℕ → Option A
  get_elem? [] i = none
  get_elem? (x ∷ xs) zero = some x
  get_elem? (x ∷ xs) (suc i) = get_elem? xs i

  abbrev pub take : ℕ → List A → List A
  take zero xs = []
  take (suc n) [] = []
  take (suc n) (x ∷ xs) = x ∷ take n xs

  abbrev pub drop : ℕ → List A → List A
  drop zero xs = xs
  drop (suc n) [] = []
  drop (suc n) (x ∷ xs) = drop n xs

  pub length-append : (xs ys : List A) → length (xs ++ ys) ≡ length xs + length ys
  length-append [] ys = omega arith
  length-append (x ∷ xs) ys = omega (arith, length-append xs ys)

  pub take-append : (xs ys : List A) → take (length xs) (xs ++ ys) ≡ xs
  take-append [] ys = refl
  take-append (x ∷ xs) ys = ap (◌∷◌ x) (take-append xs ys)

  pub drop-append : (xs ys : List A) → drop (length xs) (xs ++ ys) ≡ ys
  drop-append [] ys = refl
  drop-append (x ∷ xs) ys = drop-append xs ys

  pub take-append-drop : (n : ℕ) (xs : List A) → take n xs ++ drop n xs ≡ xs
  take-append-drop zero xs = refl
  take-append-drop (suc n) [] = refl
  take-append-drop (suc n) (x ∷ xs) = ap (◌∷◌ x) (take-append-drop n xs)

  pub length-take : (n : ℕ) (xs : List A) → n ≤ length xs → length (take n xs) ≡ n
  length-take zero xs h = refl
  length-take (suc n) [] h = ground arith
  length-take (suc n) (x ∷ xs) h = ap suc (length-take n xs (omega arith))

  pub length-drop : (n : ℕ) (xs : List A) → length (drop n xs) ≡ length xs - n
  length-drop zero xs = omega arith
  length-drop (suc n) [] = omega arith
  length-drop (suc n) (x ∷ xs) = omega (arith, length-drop n xs)

  pub take-nil : (n : ℕ) → take n [] ≡ []
  take-nil zero = refl
  take-nil (suc n) = refl

  pub drop-nil : (n : ℕ) → drop n [] ≡ []
  drop-nil zero = refl
  drop-nil (suc n) = refl

  pub drop-drop : (m n : ℕ) (xs : List A) → drop n (drop m xs) ≡ drop (m + n) xs
  drop-drop zero n xs = ap (λ k. drop k xs) (omega arith)
  drop-drop (suc m) n [] = drop-nil n ∙ sym (drop-nil (suc m + n))
  drop-drop (suc m) n (x ∷ xs) =
      let shift : suc (m + n) ≡ suc m + n = omega arith in
      drop-drop m n xs ∙ ap (λ k. drop k (x ∷ xs)) shift

  pub length-reverse : (xs : List A) → length (reverse xs) ≡ length xs
  length-reverse [] = refl
  length-reverse (x ∷ xs) =
      ap length (reverse-cons x xs)
      ∙ length-append (reverse xs) (x ∷ [])
      ∙ omega (arith, length-reverse xs)

  -- The last elements of a list, counted from its end.
  pub drop-reverse : (n : ℕ) (xs : List A) → drop (length xs - n) xs ≡ reverse (take n (reverse xs))
  drop-reverse n xs =
      let front : List A = reverse (drop n (reverse xs)) in
      let back : List A = reverse (take n (reverse xs)) in
      let split : front ++ back ≡ xs =
        sym (reverse-append (take n (reverse xs)) (drop n (reverse xs)))
        ∙ ap reverse (take-append-drop n (reverse xs))
        ∙ reverse-reverse xs in
      let size : length xs - n ≡ length front = omega (
        arith,
        length-reverse (drop n (reverse xs)),
        length-drop n (reverse xs),
        length-reverse xs,
      ) in
      ap (λ k. drop k xs) size ∙ ap (drop (length front)) (sym split) ∙ drop-append front back

  -- `s[i] = f(s[i])`; out of bounds nothing changes.
  abbrev pub modify : List A → ℕ → (A → A) → List A
  modify [] i f = []
  modify (x ∷ xs) zero f = f x ∷ xs
  modify (x ∷ xs) (suc i) f = x ∷ modify xs i f

  -- The slice with a value put in at an index: what `append`, `copy` and a store do together.
  abbrev pub insert_at : ℕ → A → List A → List A
  insert_at zero a xs = a ∷ xs
  insert_at (suc i) a [] = a ∷ []
  insert_at (suc i) a (x ∷ xs) = x ∷ insert_at i a xs

  -- `append(s[:i], s[i+1:]...)`
  abbrev pub erase_idx : List A → ℕ → List A
  erase_idx [] i = []
  erase_idx (x ∷ xs) zero = xs
  erase_idx (x ∷ xs) (suc i) = x ∷ erase_idx xs i

module _ {ℓ} {A : Type ℓ} where
  pub insert_at-perm : (i : ℕ) (a : A) (xs : List A) → Perm (insert_at i a xs) (a ∷ xs)
  insert_at-perm zero a xs = Perm.refl (a ∷ xs)
  insert_at-perm (suc i) a [] = Perm.refl (a ∷ [])
  insert_at-perm (suc i) a (x ∷ xs) =
      Perm.trans (Perm.cons x (insert_at-perm i a xs)) (Perm.swap a x xs)

  pub erase_idx-perm :
      (xs : List A) (i : ℕ) (a : A) → get_elem? xs i ≡ some a → Perm (a ∷ erase_idx xs i) xs
  erase_idx-perm [] i a h = absurd (ground arith)
  erase_idx-perm (x ∷ xs) zero a h = ground (arith, Perm.refl (x ∷ xs))
  erase_idx-perm (x ∷ xs) (suc i) a h =
      Perm.trans (Perm.swap x a (erase_idx xs i)) (Perm.cons x (erase_idx-perm xs i a h))

  pub length-modify : (xs : List A) (i : ℕ) (f : A → A) → length (modify xs i f) ≡ length xs
  length-modify [] i f = refl
  length-modify (x ∷ xs) zero f = refl
  length-modify (x ∷ xs) (suc i) f = ap suc (length-modify xs i f)

  pub get_elem?-modify :
      (xs : List A) (i : ℕ) (f : A → A) (a : A)
      → get_elem? xs i ≡ some a
      → get_elem? (modify xs i f) i ≡ some (f a)
  get_elem?-modify [] i f a h = absurd (ground arith)
  get_elem?-modify (x ∷ xs) zero f a h = ground arith
  get_elem?-modify (x ∷ xs) (suc i) f a h = get_elem?-modify xs i f a h

module _ {ℓ κ} {A : Type ℓ} {B : Type κ} where
  pub map-modify :
      (g : A → B) (xs : List A) (i : ℕ) (f : A → A)
      → ((a : A) → g (f a) ≡ g a)
      → map g (modify xs i f) ≡ map g xs
  map-modify g [] i f h = refl
  map-modify g (x ∷ xs) zero f h = ap (λ b. b ∷ map g xs) (h x)
  map-modify g (x ∷ xs) (suc i) f h = ap (◌∷◌ (g x)) (map-modify g xs i f h)

  pub map-insert_at :
      (g : A → B) (i : ℕ) (a : A) (xs : List A)
      → map g (insert_at i a xs) ≡ insert_at i (g a) (map g xs)
  map-insert_at g zero a xs = refl
  map-insert_at g (suc i) a [] = refl
  map-insert_at g (suc i) a (x ∷ xs) = ap (◌∷◌ (g x)) (map-insert_at g i a xs)

  pub map-erase_idx :
      (g : A → B) (xs : List A) (i : ℕ) → map g (erase_idx xs i) ≡ erase_idx (map g xs) i
  map-erase_idx g [] i = refl
  map-erase_idx g (x ∷ xs) zero = refl
  map-erase_idx g (x ∷ xs) (suc i) = ap (◌∷◌ (g x)) (map-erase_idx g xs i)
