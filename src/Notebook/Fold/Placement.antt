-- ===== src/Notebook/Fold/Placement.antt =====
-- Where an inserted or a moved cell lands (src/nb_doc.go: applyEvent).
use collectif.Common.{
  ℕ, zero, suc, ◌≡◌, refl, ap, ◌≢◌, ◌⊎◌, true, false, Bool-cases, Option-cases, inl, inr, none,
  some, List, [], ◌∷◌, ◌++◌, arith, str_eq, eq_iff, String, length, insert_at, erase_idx, get_elem?,
}
use collectif.Notebook.Cells.{Cell, Notebook}
use collectif.Notebook.Events.{InsertedPayload, MovedPayload, insert, move}
use collectif.Notebook.Fold.{
  index_of_cell, insertion_point, normalised, landing, move_cell, apply_change,
}
use collectif.Notebook.Fold.Find.{find_cell, index_of_cell_sound, index_of_cell-none}

-- `new` is `old` with `c` put in directly in front of the cell `before`, directly behind the cell
-- `after`, or at the end; `before` goes first, and an id that is not there counts as none given.
pub data Placed (before after : String) (c : Cell) (old new : List Cell) : Type 0 where
  in_front :
      (t : Cell) (xs ys : List Cell)
      → before ≢ ""
      → t.id ≡ before
      → old ≡ xs ++ t ∷ ys
      → new ≡ xs ++ c ∷ t ∷ ys
      → Placed before after c old new
  behind :
      (t : Cell) (xs ys : List Cell)
      → before ≡ ""
      → after ≢ ""
      → t.id ≡ after
      → old ≡ xs ++ t ∷ ys
      → new ≡ xs ++ t ∷ c ∷ ys
      → Placed before after c old new
  at_end :
      (before ≢ "" → find_cell old before ≡ none)
      → (before ≡ "" → after ≢ "" → find_cell old after ≡ none)
      → new ≡ old ++ c ∷ []
      → Placed before after c old new

insert_at-length {ℓ} :
    {A : Type ℓ} (xs : List A) (a : A) → insert_at (length xs) a xs ≡ xs ++ a ∷ []
insert_at-length [] a = refl
insert_at-length (x ∷ xs) a = ap (◌∷◌ x) (insert_at-length xs a)

-- A list split at an index, with the insertions at it and behind it.
split_at {ℓ} :
    {A : Type ℓ} (l : List A) (i : ℕ) (t a : A)
    → get_elem? l i ≡ some t
    → (xs : List A) × (ys : List A) × (l ≡ xs ++ t ∷ ys)
      × (insert_at i a l ≡ xs ++ a ∷ t ∷ ys)
      × (insert_at (suc i) a l ≡ xs ++ t ∷ a ∷ ys)
      × (erase_idx l i ≡ xs ++ ys)
split_at [] i t a h = absurd (ground arith)
split_at (x ∷ l) zero t a h = ([], l, ground arith, ground arith, ground arith, refl)
split_at (x ∷ l) (suc i) t a h =
    let (xs, ys, p, q, r, s) = split_at l i t a h in
    (x ∷ xs, ys, ap (◌∷◌ x) p, ap (◌∷◌ x) q, ap (◌∷◌ x) r, ap (◌∷◌ x) s)

str_eq-cases : (s t : String) → ((s ≡ t) × (str_eq s t ≡ true)) ⊎ ((s ≢ t) × (str_eq s t ≡ false))
str_eq-cases s t = elim (Bool-cases (str_eq s t)) [
  | inl e ↦ inl ((eq_iff s t).0 e, e)
  | inr e ↦ inr (ground (arith, eq_iff s t), e)
]

module _ (p : InsertedPayload) (c : Cell) (cells : List Cell) where
  abbrev IsPlaced : Type 0
  IsPlaced =
      Placed p.before_cell_id p.after_cell_id c cells (insert_at (insertion_point cells p) c cells)

  at_tail :
      (before_gone : p.before_cell_id ≢ "" → find_cell cells p.before_cell_id ≡ none)
      → (p.before_cell_id ≡ "" → p.after_cell_id ≢ "" → find_cell cells p.after_cell_id ≡ none)
      → insertion_point cells p ≡ length cells
      → IsPlaced
  at_tail before_gone after_gone end =
      at_end before_gone after_gone (rw end (insert_at-length cells c))

  insert_before : p.before_cell_id ≢ "" → str_eq p.before_cell_id "" ≡ false → IsPlaced
  insert_before given e = elim (Option-cases (index_of_cell cells p.before_cell_id)) [
    | inl gone ↦
        at_tail (λ _. index_of_cell-none cells p.before_cell_id gone)
          (λ none_given. absurd (given none_given)) (unfold insertion_point in rw (e, gone))
    | inr (i, found) ↦
        let (t, at, same, _) = index_of_cell_sound cells p.before_cell_id i found in
        let (xs, ys, whole, front, _, _) = split_at cells i t c at in
        in_front t xs ys given same whole (unfold insertion_point in rw (e, found) front)
  ]

  insert_after :
      p.before_cell_id ≡ ""
      → str_eq p.before_cell_id "" ≡ true
      → p.after_cell_id ≢ ""
      → str_eq p.after_cell_id "" ≡ false
      → IsPlaced
  insert_after blank e given e' = elim (Option-cases (index_of_cell cells p.after_cell_id)) [
    | inl gone ↦
        at_tail (λ given_too. absurd (given_too blank))
          (λ _ _. index_of_cell-none cells p.after_cell_id gone)
          (unfold insertion_point in rw (e, e', gone))
    | inr (i, found) ↦
        let (t, at, same, _) = index_of_cell_sound cells p.after_cell_id i found in
        let (xs, ys, whole, _, back, _) = split_at cells i t c at in
        behind t xs ys blank given same whole (unfold insertion_point in rw (e, e', found) back)
  ]

-- An inserted cell lands where its payload says, and the other cells keep their order.
pub insert-Placed :
    (p : InsertedPayload) (at : ℕ) (nb : Notebook)
    → Placed p.before_cell_id p.after_cell_id
        (normalised at p.cell)
        nb.cells
        (apply_change (insert p) at nb).cells
unfolding apply_change
insert-Placed p at nb = elim (str_eq-cases p.before_cell_id "") [
  | inr (given, e) ↦ insert_before p (normalised at p.cell) nb.cells given e
  | inl (blank, e) ↦ elim (str_eq-cases p.after_cell_id "") [
    | inr (given, e') ↦ insert_after p (normalised at p.cell) nb.cells blank e given e'
    | inl (blank', e') ↦
        at_tail p (normalised at p.cell) nb.cells (λ given. absurd (given blank))
          (λ _ given. absurd (given blank')) (unfold insertion_point in rw (e, e'))
  ]
]

-- `new` is `old` with the cell named `id` taken out and put in front of the cell `before`, or at
-- the end if there is no such cell among the others; without a cell named `id` it is `old`.
pub data Moved (id before : String) (old new : List Cell) : Type 0 where
  absent : find_cell old id ≡ none → new ≡ old → Moved id before old new
  moved :
      (c : Cell) (xs ys : List Cell)
      → c.id ≡ id
      → find_cell old id ≡ some c
      → old ≡ xs ++ c ∷ ys
      → Placed before "" c (xs ++ ys) new
      → Moved id before old new

landing-Placed :
    (before : String) (c : Cell) (cells : List Cell)
    → Placed before "" c cells (insert_at (landing before cells) c cells)
landing-Placed before c cells = elim (str_eq-cases before "") [
  | inl (blank, e) ↦
      at_end (λ given. absurd (given blank)) (λ _ given. absurd (given refl))
        (unfold landing in rw e (insert_at-length cells c))
  | inr (given, e) ↦ elim (Option-cases (index_of_cell cells before)) [
    | inl gone ↦
        at_end (λ _. index_of_cell-none cells before gone) (λ _ given'. absurd (given' refl))
          (unfold landing in rw (e, gone) (insert_at-length cells c))
    | inr (i, found) ↦
        let (t, at, same, _) = index_of_cell_sound cells before i found in
        let (xs, ys, whole, front, _, _) = split_at cells i t c at in
        in_front t xs ys given same whole (unfold landing in rw (e, found) front)
  ]
]

-- A moved cell lands in front of the cell that the event names, or at the end.
pub move-Moved :
    (p : MovedPayload) (at : ℕ) (nb : Notebook)
    → Moved p.cell_id p.before_cell_id nb.cells (apply_change (move p) at nb).cells
unfolding apply_change move_cell
move-Moved p at nb = elim (Option-cases (index_of_cell nb.cells p.cell_id)) [
  | inl gone ↦ rw gone (absent (index_of_cell-none nb.cells p.cell_id gone) refl)
  | inr (i, found) ↦
      let (c, here, same, finds) = index_of_cell_sound nb.cells p.cell_id i found in
      let (xs, ys, whole, _, _, rest) = split_at nb.cells i c c here in
      rw (found, here)
        (moved c xs ys same finds whole (rw rest (landing-Placed p.before_cell_id c (xs ++ ys))))
]
