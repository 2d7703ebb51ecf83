-- ===== src/Store/NotebookStore/Durable.antt =====
-- A store whose document is the fold of its log (src/nb_store.go: notebookStore, writeSnapshotLocked).
use collectif.Common.{
  ◌≡◌, refl, sym, ap, ◌∙◌, Bool, true, false, String, Option, none, some, List, [], ◌∷◌, ◌++◌,
  arith, ok, ◌>>=◌, length, take-append, take,
}
use mathlib.Core.List.{append_assoc, append-nil}
use collectif.Notebook.Cells.{Notebook}
use collectif.Notebook.Events.{Event, Codec, Change, decode_event}
use collectif.Notebook.Fold.{empty_notebook, apply_change, bump, fold_from, fold_events}
use collectif.Notebook.Fold.Log.{fold_from-append, fold_from-ok, version-fold_from}
use collectif.Store.Log.{newline, LineCodec, log_of}
use collectif.Store.Log.Reading.{Fits, AllFit}
use collectif.Store.NotebookStore.{
  Snapshot, NotebookStore, with_id, write_snapshot, line_of, last_id, load_events,
}
use collectif.Store.NotebookStore.Identity.{identified}
use collectif.Store.NotebookStore.Loading.{Summarises, load_events-fold_events}

-- A store's snapshot file is missing, or holds the document of a front part of the log.
abbrev pub Truthful : {R : Type 0} → Codec R → Option Snapshot → List (Event R) → Type 0
Truthful payloads none es = Unit
Truthful {R} payloads (some sn) es =
    (history : List (Event R)) × (rest : List (Event R)) × (es ≡ history ++ rest)
    × Summarises payloads sn history

-- A store whose log file holds exactly these events, and whose document, last id and snapshot are
-- theirs.
pub record IsDurable {R : Type 0} (payloads : Codec R) (lines : LineCodec R) (s : NotebookStore)
    (es : List (Event R)) : Type 0 where
  pub fit : AllFit lines es
  pub written : s.log ≡ log_of lines es
  pub document : Notebook
  pub folded : fold_events payloads es ≡ ok document
  pub shown : s.notebook ≡ with_id s.slug document
  pub last : s.last_event_id ≡ last_id es
  pub truthful : Truthful payloads s.snapshot es

module _ {R : Type 0} where
  pub last_id-append : (es : List (Event R)) (e : Event R) → last_id (es ++ e ∷ []) ≡ e.id
  unfolding last_id
  last_id-append [] e = refl
  last_id-append (d ∷ []) e = refl
  last_id-append (d ∷ d' ∷ es) e = last_id-append (d' ∷ es) e

  pub AllFit-append :
      (lines : LineCodec R) (es : List (Event R)) (e : Event R)
      → AllFit lines es
      → Fits lines e
      → AllFit lines (es ++ e ∷ [])
  AllFit-append lines [] e h f = (f, tt)
  AllFit-append lines (d ∷ es) e (g, h) f = (g, AllFit-append lines es e h f)

  pub log_of-append :
      (lines : LineCodec R) (es : List (Event R)) (e : Event R)
      → log_of lines (es ++ e ∷ []) ≡ log_of lines es ++ line_of lines e
  unfolding log_of
  log_of-append lines [] e = refl
  log_of-append lines (d ∷ es) e =
      ap (λ l. lines.marshal d ++ newline ∷ l) (log_of-append lines es e)
      ∙ sym (append_assoc (lines.marshal d) (newline ∷ log_of lines es) (line_of lines e))

  -- A front part of a log is recognised in it by its length alone.
  append-cancel_length :
      (xs ys history rest : List (Event R))
      → history ++ rest ≡ xs ++ ys
      → length xs ≡ length history
      → xs ≡ history
  append-cancel_length xs ys history rest h n =
      sym (take-append xs ys)
      ∙ ap (λ k. take k (xs ++ ys)) n
      ∙ ap (take (length history)) (sym h)
      ∙ take-append history rest

module _ {R : Type 0} (payloads : Codec R) where
  pub Truthful-append :
      (sn : Option Snapshot) (es : List (Event R)) (e : Event R)
      → Truthful payloads sn es
      → Truthful payloads sn (es ++ e ∷ [])
  Truthful-append none es e h = tt
  Truthful-append (some sn) es e (history, rest, split, s) =
      (history, rest ++ e ∷ [], ap (λ l. l ++ e ∷ []) split ∙ append_assoc history rest (e ∷ []), s)

  -- With a truthful snapshot, or none, the load is the fold.
  pub load_events-Truthful :
      (slug : String) (sn : Option Snapshot) (es : List (Event R))
      → Truthful payloads sn es
      → identified slug (load_events payloads sn es) ≡ identified slug (fold_events payloads es)
  load_events-Truthful slug none es h = unfold load_events in refl
  load_events-Truthful slug (some sn) es (history, rest, split, s) =
      load_events-fold_events payloads slug sn history es s
        (λ xs ys h n _. append-cancel_length xs ys history rest (sym split ∙ h) n)

  pub fold_events-append :
      (es : List (Event R)) (e : Event R) (nb : Notebook) {ch : Change}
      → fold_events payloads es ≡ ok nb
      → decode_event payloads e ≡ ok ch
      → fold_events payloads (es ++ e ∷ []) ≡ ok (bump (apply_change ch e.at nb))
  unfolding fold_events
  fold_events-append es e nb h dec =
      fold_from-append payloads empty_notebook es (e ∷ [])
      ∙ ap (λ r. r >>= λ nb'. fold_from payloads nb' (e ∷ [])) h
      ∙ fold_from-ok payloads nb e [] dec
      ∙ unfold fold_from in refl

  version-fold_events :
      (es : List (Event R)) (nb : Notebook)
      → fold_events payloads es ≡ ok nb
      → nb.version ≡ length es
  unfolding fold_events
  version-fold_events es nb h = omega (arith, version-fold_from payloads empty_notebook nb es h)

  pub write_snapshot-IsDurable :
      (lines : LineCodec R) (written : Bool) (s : NotebookStore) (es : List (Event R))
      → IsDurable payloads lines s es
      → IsDurable payloads lines (write_snapshot written s) es
  unfolding write_snapshot
  write_snapshot-IsDurable lines false s es d = d
  write_snapshot-IsDurable lines true s es d = record {
    fit = d.fit;
    written = d.written;
    document = d.document;
    folded = d.folded;
    shown = d.shown;
    last = d.last;
    truthful = (
      es,
      [],
      sym (append-nil es),
      record {
        id = s.slug;
        document = d.document;
        folded = d.folded;
        notebook = d.shown;
        version = ap (λ nb. nb.version) d.shown ∙ version-fold_events es d.document d.folded;
        last = d.last;
      },
    );
  }
