-- ===== src/Notebook/Fold/Find.antt =====
-- Finding a cell by its id, and what the cell operations of src/nb_doc.go do to what is found.
use collectif.Common.{
  ℕ, zero, suc, ◌≡◌, refl, ◌≢◌, true, false, Bool-cases, Option-cases, inl, inr, Option, none, some,
  List, [], ◌∷◌, arith, str_eq, eq_iff, if◌then◌else◌, String, insert_at, erase_idx, get_elem?,
}
use mathlib.Core.Option
use collectif.Notebook.Cells.{Cell}
use collectif.Notebook.Fold.{index_of_cell, update_cell, delete_cell}

-- The first cell with an id.
unfoldable pub find_cell : List Cell → String → Option Cell
find_cell [] j = none
find_cell (c ∷ cs) j = if str_eq c.id j then some c else find_cell cs j

-- A function that leaves a cell's id alone.
abbrev pub KeepsId : (Cell → Cell) → Type 0
KeepsId f = (c : Cell) → (f c).id ≡ c.id

update_cell-nil : (id : String) (f : Cell → Cell) → update_cell id f [] ≡ []
unfolding update_cell index_of_cell
update_cell-nil id f = refl

pub update_cell-here :
    (id : String) (f : Cell → Cell) (c : Cell) (cs : List Cell)
    → str_eq c.id id ≡ true
    → update_cell id f (c ∷ cs) ≡ f c ∷ cs
unfolding update_cell index_of_cell
update_cell-here id f c cs h = rw h

pub update_cell-later :
    (id : String) (f : Cell → Cell) (c : Cell) (cs : List Cell)
    → str_eq c.id id ≡ false
    → update_cell id f (c ∷ cs) ≡ c ∷ update_cell id f cs
unfolding update_cell index_of_cell
update_cell-later id f c cs h = elim (Option-cases (index_of_cell cs id)) [
  | inl e ↦ rw (h, e)
  | inr (i, e) ↦ rw (h, e)
]

-- Writing through an id changes what that id finds, and nothing that another id finds.
pub find_cell-update_cell :
    (id j : String) (f : Cell → Cell) (cs : List Cell)
    → KeepsId f
    → find_cell (update_cell id f cs) j
      ≡ (if str_eq id j then Option.map f (find_cell cs j) else find_cell cs j)
unfolding find_cell
find_cell-update_cell id j f [] keep = rw (update_cell-nil id f) (ground arith)
find_cell-update_cell id j f (c ∷ cs) keep = elim (Bool-cases (str_eq c.id id)) [
  | inl h ↦
      rw (update_cell-here id f c cs h)
        (ground (arith, keep c, eq_iff c.id id, eq_iff id j, eq_iff c.id j, eq_iff (f c).id j))
  | inr h ↦ rw (update_cell-later id f c cs h) (
      ground
        (arith, find_cell-update_cell id j f cs keep, eq_iff c.id id, eq_iff id j, eq_iff c.id j))
]

pub index_of_cell_sound :
    (cs : List Cell) (id : String) (i : ℕ)
    → index_of_cell cs id ≡ some i
    → (c : Cell) × (get_elem? cs i ≡ some c) × (c.id ≡ id) × (find_cell cs id ≡ some c)
unfolding index_of_cell find_cell
index_of_cell_sound [] id i h = absurd (ground arith)
index_of_cell_sound (c ∷ cs) id zero h = elim (Bool-cases (str_eq c.id id)) [
  | inl e ↦ (c, refl, (eq_iff c.id id).0 e, rw e)
  | inr e ↦ absurd (ground arith)
]
index_of_cell_sound (c ∷ cs) id (suc i) h = elim (Bool-cases (str_eq c.id id)) [
  | inl e ↦ absurd (ground arith)
  | inr e ↦
      let (d, at, same, found) = index_of_cell_sound cs id i (ground arith) in
      (d, at, same, rw e found)
]

pub index_of_cell-none :
    (cs : List Cell) (id : String) → index_of_cell cs id ≡ none → find_cell cs id ≡ none
unfolding index_of_cell find_cell
index_of_cell-none [] id h = refl
index_of_cell-none (c ∷ cs) id h = ground (arith, index_of_cell-none cs id)

pub find_cell-insert_at_ne :
    (i : ℕ) (c : Cell) (cs : List Cell) (j : String)
    → c.id ≢ j
    → find_cell (insert_at i c cs) j ≡ find_cell cs j
unfolding find_cell
find_cell-insert_at_ne zero c cs j h = ground (arith, eq_iff c.id j)
find_cell-insert_at_ne (suc i) c [] j h = ground (arith, eq_iff c.id j)
find_cell-insert_at_ne (suc i) c (d ∷ cs) j h = rw (find_cell-insert_at_ne i c cs j h)

pub find_cell-erase_idx_ne :
    (cs : List Cell) (i : ℕ) (c : Cell) (j : String)
    → get_elem? cs i ≡ some c
    → c.id ≢ j
    → find_cell (erase_idx cs i) j ≡ find_cell cs j
unfolding find_cell
find_cell-erase_idx_ne [] i c j at h = refl
find_cell-erase_idx_ne (d ∷ cs) zero c j at h = ground (arith, eq_iff c.id j)
find_cell-erase_idx_ne (d ∷ cs) (suc i) c j at h = rw (find_cell-erase_idx_ne cs i c j at h)

pub find_cell-delete_cell_ne :
    (id j : String) (cs : List Cell) → id ≢ j → find_cell (delete_cell id cs) j ≡ find_cell cs j
unfolding delete_cell
find_cell-delete_cell_ne id j cs h = elim (Option-cases (index_of_cell cs id)) [
  | inl e ↦ rw e
  | inr (i, e) ↦
      let (c, at, same, _) = index_of_cell_sound cs id i e in
      rw e (find_cell-erase_idx_ne cs i c j at (rw same h))
]
