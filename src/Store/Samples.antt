-- ===== src/Store/Samples.antt =====
-- A small store (src/nb_store.go): tests, and the store's theorems at it.
use collectif.Common.{
  ◌≡◌, refl, ap, ◌∙◌, ◌≢◌, true, false, ◌==◌, String, Option, none, some, List, [], ◌∷◌, ◌++◌,
  arith, eq_iff, str_eq, if◌then◌else◌, ok,
}
use collectif.Text.{codes}
use collectif.Store.Live.{LiveMap, fresh}
use collectif.Store.Live.Bounds.{shown, append_texts, append_texts-produced}
use collectif.Notebook.Cells.{Notebook}
use collectif.Notebook.Events.{Event, Codec, CreatedPayload, decode_event}
use collectif.Notebook.Fold.{empty_notebook, fold_events, apply_change}
use collectif.Store.Log.{Bytes, LineCodec, read_log, log_of}
use collectif.Store.Log.Reading.{Marshals, Fits, read_log-torn}
use collectif.Store.NotebookStore.{
  Snapshot, NotebookStore, whole, with_id, append, load_events, last_id, open_existing,
}
use collectif.Store.NotebookStore.Identity.{identified}
use collectif.Store.NotebookStore.Loading.{Summarises, Recognised, load_events-fold_events}
use collectif.Store.NotebookStore.Durable.{IsDurable}
use collectif.Store.NotebookStore.Appending.{acked, Appended, append-IsDurable}
use collectif.Store.NotebookStore.Reopening.{open_existing-IsDurable}

-- A stand-in for raw JSON: a title.
abbrev created_payload : String → Option CreatedPayload
created_payload title = some (record { title = title; root = "/r" })

abbrev payloads : Codec String
payloads = record {
  is_empty = λ s. str_eq s "";
  created = created_payload;
  meta_set = λ _. none;
  inserted = λ _. none;
  edited = λ _. none;
  moved = λ _. none;
  deleted = λ _. none;
  run_started = λ _. none;
  output_appended = λ _. none;
  run_finished = λ _. none;
  invalidated = λ _. none;
}

abbrev first : Event String
first = record { v = 1; kind = "notebook_created"; id = "e1"; at = 9; payload = "t" }

abbrev second : Event String
second = record { v = 1; kind = "notebook_created"; id = "e2"; at = 9; payload = "u" }

-- A brace, a digit and a brace.
abbrev written_as : Event String → Bytes
written_as e = 123 ∷ (if str_eq e.id "e1" then 49 else 50) ∷ 125 ∷ []

abbrev parsed : Bytes → Option (Event String)
parsed (a ∷ b ∷ c ∷ []) = if b == 49 then some first else if b == 50 then some second else none
parsed _ = none

abbrev lines : LineCodec String
lines = record { marshal = written_as; unmarshal = parsed }

first-Marshals : Marshals lines first
first-Marshals = record {
  one_line = (omega arith, (omega arith, (omega arith, tt)));
  ends_bare = omega arith;
  reads_back = refl;
}

second-Marshals : Marshals lines second
second-Marshals = record {
  one_line = (omega arith, (omega arith, (omega arith, tt)));
  ends_bare = omega arith;
  reads_back = refl;
}

first-Fits : Fits lines first
first-Fits = record { marshals = first-Marshals; short = omega arith }

second-Fits : Fits lines second
second-Fits = record { marshals = second-Marshals; short = omega arith }

read_log-torn_example :
    read_log lines (log_of lines (first ∷ []) ++ ((123 ∷ []) ++ log_of lines (second ∷ first ∷ [])))
    ≡ ok (first ∷ [])
read_log-torn_example =
    read_log-torn lines (first ∷ []) (123 ∷ []) second (first ∷ []) (first-Fits, tt)
      (omega arith, tt) second-Marshals (omega arith) refl

abbrev titled : Notebook
titled = record empty_notebook { title = "t"; root = "/r"; version = 1 }

first_folds : fold_events payloads (first ∷ []) ≡ ok titled
unfolding fold_events decode_event apply_change
first_folds = refl

abbrev first_snapshot : Snapshot
first_snapshot = record { version = 1; notebook = with_id "nb" titled; last_event_id = "e1" }

first_snapshot-Summarises : Summarises payloads first_snapshot (first ∷ [])
first_snapshot-Summarises = record {
  id = "nb";
  document = titled;
  folded = first_folds;
  notebook = refl;
  version = refl;
  last = unfold last_id in refl;
}

abbrev store : NotebookStore
store = record {
  slug = "nb";
  notebook = with_id "nb" titled;
  log = 123 ∷ 49 ∷ 125 ∷ 10 ∷ [];
  snapshot = some first_snapshot;
  since_snapshot = 199;
  last_event_id = "e1";
  closed = false;
}

store-IsDurable : IsDurable payloads lines store (first ∷ [])
store-IsDurable = record {
  fit = (first-Fits, tt);
  written = unfold log_of in refl;
  document = titled;
  folded = first_folds;
  shown = refl;
  last = unfold last_id in refl;
  truthful = (first ∷ [], [], refl, first_snapshot-Summarises);
}

append-IsDurable_example :
    IsDurable payloads lines
      (append payloads lines store second whole true).0
      (first ∷ [] ++ acked payloads lines (append payloads lines store second whole true).1 second)
    × Appended payloads lines store second (append payloads lines store second whole true)
append-IsDurable_example =
    append-IsDurable payloads lines store (first ∷ []) second true store-IsDurable second-Fits

open_existing-IsDurable_example :
    open_existing payloads lines "nb" store.log store.snapshot
    ≡ ok (record store { since_snapshot = 0 })
open_existing-IsDurable_example =
    open_existing-IsDurable payloads lines store (first ∷ []) store-IsDurable

-- A snapshot of another history is no match: the last ids differ.
abbrev first_id : List (Event String) → String
first_id [] = ""
first_id (e ∷ es) = e.id

e2_not_e1 : ◌≢◌ {A = String} "e2" "e1"
e2_not_e1 = ground (arith, eq_iff "e2" "e1")

foreign-Recognised : Recognised (first ∷ []) (second ∷ [])
foreign-Recognised [] ys split n l = absurd (omega (arith, n))
foreign-Recognised (x ∷ []) ys split n l =
    absurd (e2_not_e1 (ap first_id split ∙ unfold last_id in l))
foreign-Recognised (x ∷ y ∷ xs) ys split n l = absurd (omega (arith, n))

load_events-fold_events_example :
    identified "nb" (load_events payloads (some first_snapshot) (second ∷ []))
    ≡ identified "nb" (fold_events payloads (second ∷ []))
load_events-fold_events_example =
    load_events-fold_events payloads "nb" first_snapshot (first ∷ []) (second ∷ [])
      first_snapshot-Summarises foreign-Recognised

append_texts-produced_example :
    append_texts (fresh "r1") (codes "ab" ∷ codes "c" ∷ []) ≡ shown "r1" (codes "abc")
append_texts-produced_example = append_texts-produced "r1" (codes "ab" ∷ codes "c" ∷ [])

abbrev live : LiveMap
live = ("a", fresh "r1") ∷ ("b", record { run_id = "r2"; text = codes "hi"; capped = false }) ∷ []
