-- ===== src/Notebook/Fold/Frame.antt =====
-- What an event leaves alone (src/nb_doc.go: applyEvent): the cells that it does not name.
use collectif.Common.{
  ℕ, ◌≡◌, refl, ◌∙◌, ◌≢◌, inl, inr, Option-cases, List, [], ◌∷◌, arith, eq_iff, String, erase_idx,
}
use collectif.Notebook.Cells.{Cell, Notebook}
use collectif.Notebook.Events.{
  Change, MovedPayload, create, set_meta, insert, edit, move, delete, start, output, finish,
  invalidate, skip,
}
use collectif.Notebook.Fold.{
  index_of_cell, update_cell, normalised, edited, move_cell, started_run, with_output, finished_run,
  made_stale, invalidate_cells, apply_change, landing,
}
use collectif.Notebook.Fold.Find.{
  find_cell, KeepsId, find_cell-update_cell, index_of_cell_sound, find_cell-insert_at_ne,
  find_cell-erase_idx_ne, find_cell-delete_cell_ne,
}

pub edited-KeepsId : (p : _) → KeepsId (edited p)
unfolding edited
edited-KeepsId p c = refl

pub started_run-KeepsId : (run : String) (at : ℕ) → KeepsId (started_run run at)
unfolding started_run
started_run-KeepsId run at c = refl

pub with_output-KeepsId : (p : _) → KeepsId (with_output p)
unfolding with_output
with_output-KeepsId p c = ground arith

pub finished_run-KeepsId : (p : _) (at : ℕ) → KeepsId (finished_run p at)
unfolding finished_run
finished_run-KeepsId p at c = ground arith

pub made_stale-KeepsId : KeepsId made_stale
unfolding made_stale
made_stale-KeepsId c = refl

pub find_cell-update_cell_ne :
    (id j : String) (f : Cell → Cell) (cs : List Cell)
    → KeepsId f
    → id ≢ j
    → find_cell (update_cell id f cs) j ≡ find_cell cs j
find_cell-update_cell_ne id j f cs keep h =
    find_cell-update_cell id j f cs keep ∙ ground (arith, eq_iff id j)

abbrev NoneIs : String → List String → Type 0
NoneIs j [] = Unit
NoneIs j (id ∷ ids) = (id ≢ j) × NoneIs j ids

find_cell-invalidate_cells_ne :
    (ids : List String) (j : String) (cs : List Cell)
    → NoneIs j ids
    → find_cell (invalidate_cells ids cs) j ≡ find_cell cs j
unfolding invalidate_cells
find_cell-invalidate_cells_ne [] j cs h = refl
find_cell-invalidate_cells_ne (id ∷ ids) j cs (h, hs) =
    find_cell-invalidate_cells_ne ids j (update_cell id made_stale cs) hs
    ∙ find_cell-update_cell_ne id j made_stale cs made_stale-KeepsId h

find_cell-move_cell_ne :
    (p : MovedPayload) (j : String) (cs : List Cell)
    → p.cell_id ≢ j
    → find_cell (move_cell p cs) j ≡ find_cell cs j
unfolding move_cell
find_cell-move_cell_ne p j cs h = elim (Option-cases (index_of_cell cs p.cell_id)) [
  | inl e ↦ rw e
  | inr (i, e) ↦
      let (c, at, same, _) = index_of_cell_sound cs p.cell_id i e in
      rw (e, at)
        (find_cell-insert_at_ne (landing p.before_cell_id (erase_idx cs i)) c (erase_idx cs i) j
            (rw same h)
          ∙ find_cell-erase_idx_ne cs i c j at (rw same h))
]

-- The event does not name the cell.
abbrev pub Spares : Change → String → Type 0
Spares (insert p) j = p.cell.id ≢ j
Spares (edit p) j = p.cell_id ≢ j
Spares (move p) j = p.cell_id ≢ j
Spares (delete id) j = id ≢ j
Spares (start p) j = p.cell_id ≢ j
Spares (output p) j = p.cell_id ≢ j
Spares (finish p) j = p.cell_id ≢ j
Spares (invalidate ids) j = NoneIs j ids
Spares _ j = Unit

-- An event that does not name a cell leaves that cell as it was, and leaves it present or absent.
pub find_cell-apply_change :
    (ch : Change) (at : ℕ) (nb : Notebook) (j : String)
    → Spares ch j
    → find_cell (apply_change ch at nb).cells j ≡ find_cell nb.cells j
unfolding apply_change
find_cell-apply_change (create p) at nb j h = refl
find_cell-apply_change (set_meta p) at nb j h = refl
find_cell-apply_change (insert p) at nb j h =
    find_cell-insert_at_ne _ (normalised at p.cell) nb.cells j (unfold normalised in h)
find_cell-apply_change (edit p) at nb j h =
    find_cell-update_cell_ne p.cell_id j (edited p) nb.cells (edited-KeepsId p) h
find_cell-apply_change (move p) at nb j h = find_cell-move_cell_ne p j nb.cells h
find_cell-apply_change (delete id) at nb j h = find_cell-delete_cell_ne id j nb.cells h
find_cell-apply_change (start p) at nb j h =
    find_cell-update_cell_ne p.cell_id j (started_run p.run_id at) nb.cells
      (started_run-KeepsId p.run_id at) h
find_cell-apply_change (output p) at nb j h =
    find_cell-update_cell_ne p.cell_id j (with_output p) nb.cells (with_output-KeepsId p) h
find_cell-apply_change (finish p) at nb j h =
    find_cell-update_cell_ne p.cell_id j (finished_run p at) nb.cells (finished_run-KeepsId p at) h
find_cell-apply_change (invalidate ids) at nb j h = find_cell-invalidate_cells_ne ids j nb.cells h
find_cell-apply_change skip at nb j h = refl
