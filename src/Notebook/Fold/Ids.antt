-- ===== src/Notebook/Fold/Ids.antt =====
-- The ids of a document's cells (src/nb_doc.go: applyEvent): they stay distinct, and a move is a
-- rearrangement.
use mathlib.Core.List.{Perm, Nodup, Nodup-cons, Mem, Sublist}
use mathlib.Core.List.Nodup
use mathlib.Core.List.Perm
use mathlib.Core.List.Sublist
use collectif.Common.{
  ℕ, zero, suc, ◌≡◌, refl, ◌∙◌, inl, inr, Option-cases, List, [], ◌∷◌, map, String, erase_idx,
  insert_at-perm, erase_idx-perm, map-modify, map-insert_at, map-erase_idx,
}
use collectif.Notebook.Cells.{Cell, Notebook}
use collectif.Notebook.Events.{
  Change, MovedPayload, create, set_meta, insert, edit, move, delete, start, output, finish,
  invalidate, skip,
}
use collectif.Notebook.Fold.{
  index_of_cell, update_cell, normalised, edited, move_cell, delete_cell, started_run, with_output,
  finished_run, made_stale, invalidate_cells, apply_change, landing,
}
use collectif.Notebook.Fold.Find.{KeepsId, index_of_cell_sound}
use collectif.Notebook.Fold.Frame.{
  edited-KeepsId, started_run-KeepsId, with_output-KeepsId, finished_run-KeepsId,
  made_stale-KeepsId,
}

abbrev pub ids : List Cell → List String
ids = map (λ c. c.id)

ids-update_cell :
    (id : String) (f : Cell → Cell) (cs : List Cell)
    → KeepsId f
    → ids (update_cell id f cs) ≡ ids cs
unfolding update_cell
ids-update_cell id f cs keep = elim (Option-cases (index_of_cell cs id)) [
  | inl e ↦ rw e
  | inr (i, e) ↦ rw e (map-modify (λ c. c.id) cs i f keep)
]

ids-invalidate_cells : (js : List String) (cs : List Cell) → ids (invalidate_cells js cs) ≡ ids cs
unfolding invalidate_cells
ids-invalidate_cells [] cs = refl
ids-invalidate_cells (j ∷ js) cs =
    ids-invalidate_cells js (update_cell j made_stale cs)
    ∙ ids-update_cell j made_stale cs made_stale-KeepsId

-- Moving a cell rearranges the cells: none is lost, none is doubled, none is changed.
pub move_cell-perm : (p : MovedPayload) (cs : List Cell) → Perm (move_cell p cs) cs
unfolding move_cell
move_cell-perm p cs = elim (Option-cases (index_of_cell cs p.cell_id)) [
  | inl e ↦ rw e (Perm.refl cs)
  | inr (i, e) ↦
      let (c, at, _, _) = index_of_cell_sound cs p.cell_id i e in
      rw (e, at)
        (Perm.trans (insert_at-perm (landing p.before_cell_id (erase_idx cs i)) c (erase_idx cs i))
          (erase_idx-perm cs i c at))
]

erase_idx-sublist {ℓ} : {A : Type ℓ} (xs : List A) (i : ℕ) → Sublist (erase_idx xs i) xs
erase_idx-sublist [] i = Sublist.refl []
erase_idx-sublist (x ∷ xs) zero = Sublist.cons x (Sublist.refl xs)
erase_idx-sublist (x ∷ xs) (suc i) = Sublist.cons-cons x (erase_idx-sublist xs i)

delete_cell-Nodup :
    (id : String) (cs : List Cell) → Nodup (ids cs) → Nodup (ids (delete_cell id cs))
unfolding delete_cell
delete_cell-Nodup id cs d = elim (Option-cases (index_of_cell cs id)) [
  | inl e ↦ rw e d
  | inr (i, e) ↦
      rw (e, map-erase_idx (λ (c : Cell). c.id) cs i)
        (Nodup.sublist (erase_idx-sublist (ids cs) i) d)
]

-- An insertion brings an id that the document does not have.
abbrev pub IsFresh : Change → List Cell → Type 0
IsFresh (insert p) cs = ¬ Mem p.cell.id (ids cs)
IsFresh _ cs = Unit

-- The ids of a document's cells stay distinct, if an inserted cell has an id of its own.
pub apply_change-Nodup :
    (ch : Change) (at : ℕ) (nb : Notebook)
    → IsFresh ch nb.cells
    → Nodup (ids nb.cells)
    → Nodup (ids (apply_change ch at nb).cells)
unfolding apply_change normalised
apply_change-Nodup (insert p) at nb new d =
    rw (map-insert_at (λ (c : Cell). c.id))
      (Perm.nodup (Perm.symm (insert_at-perm _ p.cell.id (ids nb.cells))) (Nodup-cons.1 (new, d)))
apply_change-Nodup (edit p) at nb new d =
    rw (ids-update_cell p.cell_id (edited p) nb.cells (edited-KeepsId p)) d
apply_change-Nodup (move p) at nb new d =
    Perm.nodup (Perm.symm (Perm.map (λ (c : Cell). c.id) (move_cell-perm p nb.cells))) d
apply_change-Nodup (delete id) at nb new d = delete_cell-Nodup id nb.cells d
apply_change-Nodup (start p) at nb new d =
    rw
      (ids-update_cell p.cell_id (started_run p.run_id at) nb.cells
        (started_run-KeepsId p.run_id at))
      d
apply_change-Nodup (output p) at nb new d =
    rw (ids-update_cell p.cell_id (with_output p) nb.cells (with_output-KeepsId p)) d
apply_change-Nodup (finish p) at nb new d =
    rw (ids-update_cell p.cell_id (finished_run p at) nb.cells (finished_run-KeepsId p at)) d
apply_change-Nodup (invalidate js) at nb new d = rw (ids-invalidate_cells js nb.cells) d
apply_change-Nodup (create p) at nb new d = d
apply_change-Nodup (set_meta p) at nb new d = d
apply_change-Nodup skip at nb new d = d
