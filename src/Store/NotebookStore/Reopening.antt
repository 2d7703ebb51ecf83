-- ===== src/Store/NotebookStore/Reopening.antt =====
-- Opening the files of a store again (src/nb_store.go: openNotebookStore, load, Close).
use collectif.Common.{
  ℕ, ◌<◌, ◌≡◌, refl, sym, ap, ◌∙◌, Bool, true, false, Bool-cases, inl, inr, String, Option, none,
  List, [], ◌∷◌, ◌++◌, if◌then◌else◌, Result, ok, err, Result-cases, length, take,
}
use collectif.Notebook.Cells.{Notebook}
use collectif.Notebook.Events.{Event, Codec, FoldError, decode_event}
use collectif.Store.Log.Torn.{read_log-cut}
use collectif.Store.NotebookStore.Appending.{append-closed, append-rejected, append-cut}
use collectif.Store.Log.{Bytes, drop_cr, newline, LineCodec, read_log}
use collectif.Store.Log.Reading.{Fits, read_log-whole}
use collectif.Store.NotebookStore.{
  Snapshot, NotebookStore, cut_short, AppendError, write_snapshot, close_store, line_of, append,
  last_id, load_events, opened_with, open_read, open_existing,
}
use collectif.Store.NotebookStore.Identity.{identified}
use mathlib.Core.Path.{subst⁻¹}
use collectif.Store.NotebookStore.Durable.{
  IsDurable, write_snapshot-IsDurable, load_events-Truthful,
}

module _ {R : Type 0} (payloads : Codec R) (lines : LineCodec R) where
  shut-IsDurable :
      (s : NotebookStore) (es : List (Event R))
      → IsDurable payloads lines s es
      → IsDurable payloads lines (record s { closed = true }) es
  shut-IsDurable s es d = record {
    fit = d.fit;
    written = d.written;
    document = d.document;
    folded = d.folded;
    shown = d.shown;
    last = d.last;
    truthful = d.truthful;
  }

  closed_if-IsDurable :
      (b written : Bool) (s : NotebookStore) (es : List (Event R))
      → IsDurable payloads lines s es
      → IsDurable payloads lines
          (if b then s else write_snapshot written (record s { closed = true }))
          es
  closed_if-IsDurable true written s es d = d
  closed_if-IsDurable false written s es d =
      write_snapshot-IsDurable payloads lines written (record s { closed = true }) es
        (shut-IsDurable s es d)

  -- Closing a durable store leaves it durable with the same events, whether or not the final snapshot
  -- can be written.
  close_store-IsDurable :
      (s : NotebookStore) (es : List (Event R)) (written : Bool)
      → IsDurable payloads lines s es
      → IsDurable payloads lines (close_store written s) es
  unfolding close_store
  close_store-IsDurable s es written d = closed_if-IsDurable s.closed written s es d

  opened_with-identified :
      (slug : String) (file : Bytes) (sn : Option Snapshot) (es : List (Event R))
      (r : Result FoldError Notebook)
      → opened_with slug file sn es r ≡ opened_with slug file sn es (identified slug r)
  opened_with-identified slug file sn es (ok nb) = refl
  opened_with-identified slug file sn es (err x) = refl

  open_read-ok :
      (s : NotebookStore) (es : List (Event R)) (file : Bytes)
      → IsDurable payloads lines s es
      → opened_with s.slug file s.snapshot es (load_events payloads s.snapshot es)
        ≡ ok (record s { log = file; since_snapshot = 0; closed = false })
  open_read-ok s es file d =
      opened_with-identified s.slug file s.snapshot es (load_events payloads s.snapshot es)
      ∙ ap (opened_with s.slug file s.snapshot es) (
          load_events-Truthful payloads s.slug s.snapshot es d.truthful
          ∙ ap (identified s.slug) d.folded)
      ∙ ap
          (λ nb. ok (record s {
            log = file;
            notebook = nb;
            last_event_id = last_id es;
            since_snapshot = 0;
            closed = false;
          }))
          (sym d.shown)
      ∙ ap
          (λ id.
            ok (record s { log = file; last_event_id = id; since_snapshot = 0; closed = false }))
          (sym d.last)

  -- A file that reads as the store's events opens as the store.
  open_existing-read :
      (s : NotebookStore) (es : List (Event R)) (file : Bytes)
      → IsDurable payloads lines s es
      → read_log lines file ≡ ok es
      → open_existing payloads lines s.slug file s.snapshot
        ≡ ok (record s { log = file; since_snapshot = 0; closed = false })
  unfolding open_existing
  open_existing-read s es file d h =
      ap (open_read payloads lines s.slug file s.snapshot) h ∙ open_read-ok s es file d

  -- Opening a durable store's files again, its snapshot if there is one included, gives the store:
  -- the same document, last event and files, not closed, and nothing counted towards a snapshot.
  pub open_existing-IsDurable :
      (s : NotebookStore) (es : List (Event R))
      → IsDurable payloads lines s es
      → open_existing payloads lines s.slug s.log s.snapshot
        ≡ ok (record s { since_snapshot = 0; closed = false })
  open_existing-IsDurable s es d =
      open_existing-read s es s.log d
        (ap (read_log lines) d.written ∙ read_log-whole lines es d.fit)

  -- What opening the files that an append left gives: the store as it was, beside the file.
  abbrev pub Restored : NotebookStore → NotebookStore × Option AppendError → Type 0
  Restored s r =
      open_existing payloads lines s.slug r.0.log r.0.snapshot
      ≡ ok (record s { log = r.0.log; since_snapshot = 0; closed = false })

  -- An append whose write is cut short inside its line, at a place where what was written does not
  -- parse, is undone by opening the files again: the document, the last event and the snapshot are
  -- those from before it. So it is where the append failed without a write.
  open_existing-append_cut :
      (s : NotebookStore) (es : List (Event R)) (e : Event R) (n : ℕ) (written : Bool)
      → IsDurable payloads lines s es
      → Fits lines e
      → n < length (lines.marshal e)
      → lines.unmarshal (drop_cr (take n (lines.marshal e))) ≡ none
      → Restored s (append payloads lines s e (cut_short n) written)
  open_existing-append_cut s es e n written d fits cut bad = elim (Bool-cases s.closed) [
    | inl shut ↦
        subst⁻¹ (Restored s) (append-closed payloads lines s e (cut_short n) written shut)
          (open_existing-IsDurable s es d)
    | inr live ↦ elim (Result-cases (decode_event payloads e)) [
      | inl (ch, dec) ↦ subst⁻¹ (Restored s) (append-cut payloads lines s e ch n written live dec) (
          open_existing-read s es (s.log ++ take n (line_of lines e)) d (
            ap (λ file. read_log lines (file ++ take n (line_of lines e))) d.written
            ∙ read_log-cut lines es (lines.marshal e) (newline ∷ []) n d.fit fits.marshals.one_line
                fits.short cut bad))
      | inr (x, dec) ↦
          subst⁻¹ (Restored s) (append-rejected payloads lines s e (cut_short n) written live dec)
            (open_existing-IsDurable s es d)
    ]
  ]
