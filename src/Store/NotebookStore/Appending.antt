-- ===== src/Store/NotebookStore/Appending.antt =====
-- Appending an event (src/nb_store.go: Append): the document stays the fold of the log.
use collectif.Common.{
  ℕ, ◌+◌, ◌≡◌, refl, sym, ap, ◌∙◌, Bool, true, false, Bool-cases, inl, inr, Option, none, some,
  List, [], ◌∷◌, ◌++◌, leb, if◌then◌else◌, ok, err, Result-cases, take,
}
use mathlib.Core.List.{append-nil}
use collectif.Notebook.Cells.{Notebook}
use collectif.Notebook.Events.{Event, Codec, FoldError, Change, decode_event}
use collectif.Notebook.Fold.{apply_change, bump, settle, apply_event}
use collectif.Store.Log.{LineCodec}
use collectif.Store.Log.Reading.{Fits}
use collectif.Store.NotebookStore.{
  NotebookStore, LogWrite, whole, cut_short, AppendError, is_closed, write_failed, rejected,
  line_of, write_snapshot, publish, commit, append, snapshot_every,
}
use collectif.Store.NotebookStore.Identity.{apply_change-with_id}
use mathlib.Core.Path.{subst⁻¹}
use collectif.Store.NotebookStore.Durable.{
  IsDurable, last_id-append, AllFit-append, log_of-append, Truthful-append, fold_events-append,
  write_snapshot-IsDurable,
}

module _ {R : Type 0} (payloads : Codec R) (lines : LineCodec R) where
  -- The log's line and the document of one more event.
  abbrev logged : NotebookStore → Event R → Notebook → NotebookStore
  logged s e next = record s {
    log = s.log ++ line_of lines e;
    notebook = next;
    last_event_id = e.id;
    since_snapshot = s.since_snapshot + 1;
  }

  logged-IsDurable :
      (s : NotebookStore) (es : List (Event R)) (e : Event R) (ch : Change)
      → IsDurable payloads lines s es
      → Fits lines e
      → decode_event payloads e ≡ ok ch
      → IsDurable payloads lines
          (logged s e (bump (apply_change ch e.at s.notebook)))
          (es ++ e ∷ [])
  logged-IsDurable s es e ch d fits dec = record {
    fit = AllFit-append lines es e d.fit fits;
    written = ap (λ l. l ++ line_of lines e) d.written ∙ sym (log_of-append lines es e);
    document = bump (apply_change ch e.at d.document);
    folded = fold_events-append payloads es e d.document d.folded dec;
    shown =
        ap (λ nb. bump (apply_change ch e.at nb)) d.shown
        ∙ ap bump (apply_change-with_id s.slug ch e.at d.document);
    last = sym (last_id-append es e);
    truthful = Truthful-append payloads s.snapshot es e d.truthful;
  }

  publish-IsDurable :
      (s : NotebookStore) (es : List (Event R)) (e : Event R) (next : Notebook) (written : Bool)
      → IsDurable payloads lines (logged s e next) es
      → IsDurable payloads lines (publish payloads lines s e next written) es
  unfolding publish
  publish-IsDurable s es e next written d =
      elim (Bool-cases (leb snapshot_every (s.since_snapshot + 1))) [
        | inl due ↦ rw due (write_snapshot-IsDurable payloads lines written (logged s e next) es d)
        | inr early ↦ rw early d
      ]

  -- A store that has taken an event: its line is in the log, its change in the document, and the
  -- store stays open.
  pub record Taken (s : NotebookStore) (e : Event R) (ch : Change) (s' : NotebookStore)
      : Type 0 where
    pub in_log : s'.log ≡ s.log ++ line_of lines e
    pub in_document : s'.notebook ≡ bump (apply_change ch e.at s.notebook)
    pub is_last : s'.last_event_id ≡ e.id
    pub stays_open : s'.closed ≡ false

  write_snapshot-Taken :
      (s : NotebookStore) (e : Event R) (ch : Change) (s' : NotebookStore) (written : Bool)
      → Taken s e ch s'
      → Taken s e ch (write_snapshot written s')
  unfolding write_snapshot
  write_snapshot-Taken s e ch s' false t = t
  write_snapshot-Taken s e ch s' true t = record {
    in_log = t.in_log;
    in_document = t.in_document;
    is_last = t.is_last;
    stays_open = t.stays_open;
  }

  publish-Taken :
      (s : NotebookStore) (e : Event R) (ch : Change) (written : Bool)
      → s.closed ≡ false
      → Taken s e ch (publish payloads lines s e (bump (apply_change ch e.at s.notebook)) written)
  unfolding publish
  publish-Taken s e ch written live =
      let next : NotebookStore = logged s e (bump (apply_change ch e.at s.notebook)) in
      let t : Taken s e ch next = record {
        in_log = refl;
        in_document = refl;
        is_last = refl;
        stays_open = live;
      } in
      elim (Bool-cases (leb snapshot_every (s.since_snapshot + 1))) [
        | inl due ↦ rw due (write_snapshot-Taken s e ch next written t)
        | inr early ↦ rw early t
      ]

  -- How an append ends that writes its line whole: a closed store and an event that does not decode
  -- leave the store as it was, each with its error, and any other event is taken.
  pub data Appended (s : NotebookStore) (e : Event R)
      : NotebookStore × Option AppendError → Type 0 where
    on_closed : s.closed ≡ true → Appended s e (s, some is_closed)
    on_rejected :
        (x : FoldError)
        → s.closed ≡ false
        → decode_event payloads e ≡ err x
        → Appended s e (s, some (rejected x))
    on_accepted :
        (ch : Change) (s' : NotebookStore)
        → s.closed ≡ false
        → decode_event payloads e ≡ ok ch
        → Taken s e ch s'
        → Appended s e (s', none)

  -- The events that an append adds to the log: its own, if it reports no error.
  abbrev pub acked : Option AppendError → Event R → List (Event R)
  acked none e = e ∷ []
  acked (some x) e = []

  module _ (s : NotebookStore) (e : Event R) (w : LogWrite) (written : Bool) where
    pub append-closed : s.closed ≡ true → append payloads lines s e w written ≡ (s, some is_closed)
    unfolding append
    append-closed h =
        ap
          (λ b.
            if b
            then (s, some is_closed)
            else commit payloads lines (apply_event payloads s.notebook e) w s e written)
          h

    append-live :
        s.closed ≡ false
        → append payloads lines s e w written
          ≡ commit payloads lines (apply_event payloads s.notebook e) w s e written
    unfolding append
    append-live h =
        ap
          (λ b.
            if b
            then (s, some is_closed)
            else commit payloads lines (apply_event payloads s.notebook e) w s e written)
          h

    pub append-rejected :
        {x : FoldError}
        → s.closed ≡ false
        → decode_event payloads e ≡ err x
        → append payloads lines s e w written ≡ (s, some (rejected x))
    append-rejected h dec =
        append-live h
        ∙ unfold apply_event in
          ap (λ r. commit payloads lines (settle r e.at s.notebook) w s e written) dec

  append-accepted :
      (s : NotebookStore) (e : Event R) (ch : Change) (written : Bool)
      → s.closed ≡ false
      → decode_event payloads e ≡ ok ch
      → append payloads lines s e whole written
        ≡ (publish payloads lines s e (bump (apply_change ch e.at s.notebook)) written, none)
  append-accepted s e ch written h dec =
      append-live s e whole written h
      ∙ unfold apply_event in
        ap (λ r. commit payloads lines (settle r e.at s.notebook) whole s e written) dec

  pub append-cut :
      (s : NotebookStore) (e : Event R) (ch : Change) (n : ℕ) (written : Bool)
      → s.closed ≡ false
      → decode_event payloads e ≡ ok ch
      → append payloads lines s e (cut_short n) written
        ≡ (record s { log = s.log ++ take n (line_of lines e) }, some write_failed)
  append-cut s e ch n written h dec =
      append-live s e (cut_short n) written h
      ∙ unfold apply_event in
        ap (λ r. commit payloads lines (settle r e.at s.notebook) (cut_short n) s e written) dec

  abbrev Kept :
      NotebookStore → List (Event R) → Event R → NotebookStore × Option AppendError → Type 0
  Kept s es e r = IsDurable payloads lines r.0 (es ++ acked r.1 e) × Appended s e r

  kept_unchanged :
      (s : NotebookStore) (es : List (Event R)) (e : Event R) (x : AppendError)
      → IsDurable payloads lines s es
      → IsDurable payloads lines s (es ++ acked (some x) e)
  kept_unchanged s es e x d = subst⁻¹ (IsDurable payloads lines s) (append-nil es) d

  -- Appending to a durable store leaves a durable store, whose log has the event if and only if the
  -- append reports no error, when the write goes through whole or is not reached. A store that is
  -- closed and an event that the fold rejects change nothing of the store and report just that; any
  -- other event is taken: its line is in the log, its change in the document, its id is the last one
  -- and the store stays open. The event's line has to fit the scanner's buffer.
  pub append-IsDurable :
      (s : NotebookStore) (es : List (Event R)) (e : Event R) (written : Bool)
      → IsDurable payloads lines s es
      → Fits lines e
      → IsDurable payloads lines
          (append payloads lines s e whole written).0
          (es ++ acked (append payloads lines s e whole written).1 e)
        × Appended s e (append payloads lines s e whole written)
  unfolding append apply_event
  append-IsDurable s es e written d fits = elim (Bool-cases s.closed) [
    | inl shut ↦
        subst⁻¹ (Kept s es e) (append-closed s e whole written shut)
          (kept_unchanged s es e is_closed d, on_closed shut)
    | inr live ↦ elim (Result-cases (decode_event payloads e)) [
      | inl (ch, dec) ↦ subst⁻¹ (Kept s es e) (append-accepted s e ch written live dec) (
        publish-IsDurable s (es ++ e ∷ []) e (bump (apply_change ch e.at s.notebook)) written
            (logged-IsDurable s es e ch d fits dec),
        on_accepted ch _ live dec (publish-Taken s e ch written live),
      )
      | inr (x, dec) ↦
          subst⁻¹ (Kept s es e) (append-rejected s e whole written live dec)
            (kept_unchanged s es e (rejected x) d, on_rejected x live dec)
    ]
  ]
