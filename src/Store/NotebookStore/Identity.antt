-- ===== src/Store/NotebookStore/Identity.antt =====
-- The document's id is set from outside the log (src/nb_store.go: openNotebookStore), and the fold
-- carries it along.
use collectif.Common.{
  ℕ, ◌≡◌, refl, sym, ap, ◌∙◌, inl, inr, String, List, [], ◌∷◌, Result, ok, err, Result-cases,
}
use collectif.Notebook.Cells.{Notebook}
use collectif.Notebook.Events.{
  Event, Codec, FoldError, Change, create, set_meta, insert, edit, move, delete, start, output,
  finish, invalidate, skip, decode_event,
}
use collectif.Notebook.Fold.{apply_change, bump, fold_from}
use collectif.Notebook.Fold.Log.{fold_from-ok, fold_from-err}
use collectif.Store.NotebookStore.{with_id}

abbrev pub identified : String → Result FoldError Notebook → Result FoldError Notebook
identified id (ok nb) = ok (with_id id nb)
identified id (err x) = err x

pub apply_change-with_id :
    (id : String) (ch : Change) (at : ℕ) (nb : Notebook)
    → apply_change ch at (with_id id nb) ≡ with_id id (apply_change ch at nb)
unfolding apply_change
apply_change-with_id id (create p) at nb = refl
apply_change-with_id id (set_meta p) at nb = refl
apply_change-with_id id (insert p) at nb = refl
apply_change-with_id id (edit p) at nb = refl
apply_change-with_id id (move p) at nb = refl
apply_change-with_id id (delete j) at nb = refl
apply_change-with_id id (start p) at nb = refl
apply_change-with_id id (output p) at nb = refl
apply_change-with_id id (finish p) at nb = refl
apply_change-with_id id (invalidate ids) at nb = refl
apply_change-with_id id skip at nb = refl

module _ {R : Type 0} (codec : Codec R) where
  pub fold_from-with_id :
      (id : String) (nb : Notebook) (es : List (Event R))
      → fold_from codec (with_id id nb) es ≡ identified id (fold_from codec nb es)
  fold_from-with_id id nb [] = unfold fold_from in refl
  fold_from-with_id id nb (e ∷ es) = elim (Result-cases (decode_event codec e)) [
    | inl (ch, d) ↦
        fold_from-ok codec (with_id id nb) e es d
        ∙ ap (λ m. fold_from codec (bump m) es) (apply_change-with_id id ch e.at nb)
        ∙ fold_from-with_id id (bump (apply_change ch e.at nb)) es
        ∙ ap (identified id) (sym (fold_from-ok codec nb e es d))
    | inr (x, d) ↦
        fold_from-err codec (with_id id nb) e es d
        ∙ ap (identified id) (sym (fold_from-err codec nb e es d))
  ]
